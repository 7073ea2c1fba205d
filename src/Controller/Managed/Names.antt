-- ===== src/Controller/Managed/Names.antt =====
-- The secret that the webhook refers to, and the one in which the virtual cluster puts its
-- kubeconfig.
use text.Mathlib.TextLemmas.{append_cancel_right}
use forkspacer.Base.{
  String, ◌≡◌, ◌⊎◌, inl, inr, ◌↔◌, refl, sym, ap, Option, none, some, [], ◌∷◌, ◌==◌, eq_iff,
  Bool-cases,
}
use forkspacer.Go.{concat}
use forkspacer.Api.Workspace.{WorkspaceConnectionSecretReference}
use forkspacer.Webhook.Workspace.{managed_connection}
use forkspacer.Controller.Managed.{
  Environment, or_default, vcluster_config, vcluster_namespace, Installation, installation,
}

abbrev name_of : Option WorkspaceConnectionSecretReference → String
name_of none = ""
name_of (some r) = r.name

-- the secret that an installation makes, as a connection refers to it
abbrev pub exported : Installation → WorkspaceConnectionSecretReference
exported i = record { name = i.secret; namespace = i.namespace; key = "config" }

-- the reference with a prefix
abbrev referring : String → String → Option WorkspaceConnectionSecretReference
referring name prefix = some (record {
  name = concat (prefix ∷ "-" ∷ name ∷ []);
  namespace = concat ("forkspacer-" ∷ name ∷ []);
  key = "config";
})

or_default-eq : (v d : String) → d ≡ or_default v d → (v ≡ "") ⊎ (v ≡ d)
or_default-eq v d h = elim (Bool-cases (v == "")) [
  | inl empty ↦ inl ((eq_iff v "").0 empty)
  | inr given ↦ inr (sym (rw given at h))
]

eq-or_default : (v d : String) → (v ≡ "") ⊎ (v ≡ d) → or_default v d ≡ d
eq-or_default v d (inl empty) = rw ((eq_iff v "").1 empty) refl
eq-or_default v d (inr same) = elim (Bool-cases (v == "")) [
  | inl empty ↦ rw empty refl
  | inr given ↦ rw given same
]

-- The connection that the webhook gives a managed workspace refers to the secret and the namespace
-- of its virtual cluster exactly when the environment sets the prefix of the secret's name not at
-- all, or to the prefix that the webhook has written into it.
pub managed_connection-installation_iff :
    (env : Environment) (name : String)
    → ((managed_connection name).secret_reference ≡ some (exported (installation env name))) ↔ (
        (env "VCLUSTER_KUBECONFIG_SECRET_NAME" ≡ "")
        ⊎ (env "VCLUSTER_KUBECONFIG_SECRET_NAME" ≡ "vc-kubeconfig"))
unfolding managed_connection installation vcluster_config vcluster_namespace
managed_connection-installation_iff env name =
    let v = env "VCLUSTER_KUBECONFIG_SECRET_NAME" in
    (
      (λ h. or_default-eq v "vc-kubeconfig" (
          append_cancel_right "vc-kubeconfig" (or_default v "vc-kubeconfig")
            (concat ("-" ∷ name ∷ [])) (ap name_of h))),
      (λ h. ap (referring name) (sym (eq-or_default v "vc-kubeconfig" h))),
    )
