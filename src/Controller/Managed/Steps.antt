-- ===== src/Controller/Managed/Steps.antt =====
-- What the installation of a virtual cluster asks of the cluster, and what its removal does.
use forkspacer.Base.{
  String, ◌≡◌, ◌⊎◌, inl, inr, refl, ap, ◌∙◌, Bool, true, false, none, some, List, [], ◌∷◌,
  Bool-cases,
}
use forkspacer.Go.{Error, Result, ok, err, is_ok, wrap_w, is_not_found, is_already_exists}
use forkspacer.Exec.{Exec, ◌>>=◌, ◌>>◌, and_then, map_err, lift}
use forkspacer.Api.Module.{ModuleSpecHelmValues}
use forkspacer.Helm.Service.{
  HelmEffect, namespace_created, namespace_deleted, uninstall_run, HelmRun, Sdk, uninstall_release,
}
use forkspacer.Helm.Service.Quiet.{Quiet, bind-Quiet, if-Quiet}
use forkspacer.Helm.Charts.Install.{Installed, bind-Installed, install_from_repository-Installed}
use forkspacer.Helm.Service.Removal.{Removed, uninstall_release-Removed}
use forkspacer.Controller.Connection.{Loader, new_helm_service}
use forkspacer.Controller.Managed.{
  Environment, Installation, installation, Admin, connected, chart_installed, unless_exists,
  install_on, unless_gone, install_vcluster, uninstall_vcluster, uninstall_on, delete_namespace,
  own_connection,
}

-- whether the deletion of a namespace counts as done: it was accepted, or there is none
abbrev pub is_gone : Result (Unit {0}) → Bool
is_gone (ok _) = true
is_gone (err e) = is_not_found e

-- Wrapping an error changes none of this.
map_err-Installed :
    {W : Type 0} (release namespace message : String) (es : List HelmEffect)
    (m : Exec (HelmRun W) (Unit {0})) (s : HelmRun W)
    → Installed release namespace es (m s)
    → Installed release namespace es (map_err (wrap_w message) m s)
map_err-Installed {W} release namespace message es m s = go (m s).0 (m s).1
  where
    go :
        (r : Result (Unit {0})) (t : HelmRun W)
        → Installed release namespace es (r, t)
        → Installed release namespace es (map_err (wrap_w message) (λ u. (r, u)) t)
    go (ok _) t h = h
    go (err _) t h = h

module _ {W K C V : Type 0} (admin : Admin W) (loader : Loader W K) (sdk : K → Sdk W C V)
    (env : Environment) where
  unless_exists-Quiet : (r : Result (Unit {0})) → Quiet (unless_exists admin loader sdk env r)
  unless_exists-Quiet (ok _) = λ s. refl
  unless_exists-Quiet (err e) = if-Quiet (is_already_exists e) _ _ (λ s. refl) (λ s. refl)

  install_on-Installed :
      (i : Installation) (k : K) (s : HelmRun W)
      → Installed i.release i.namespace s.trace (install_on admin loader sdk env i k s)
  install_on-Installed i k s =
      bind-Installed {A = String} i.release i.namespace
        (map_err (wrap_w "failed to marshal vcluster values") (lift (admin.marshal i))) _ s
        (λ t. refl)
        (λ bytes t.
          map_err-Installed i.release i.namespace "failed to install vcluster" t.trace
            (chart_installed admin loader sdk env i k bytes) t
            (install_from_repository-Installed (sdk k) i.release i.namespace (values bytes) i.chart
              i.repo (some i.version) true "" "" t))
    where
      values : String → List ModuleSpecHelmValues
      values bytes =
          record { file = none; config_map = none; raw = some (record { raw = some bytes }) } ∷ []

  -- Installing the virtual cluster of a workspace first asks for its namespace, and then does what
  -- an installation from a repository does: after success the release was installed, and if the
  -- chart fails a goroutine is started that removes the release and its namespace.
  pub install_vcluster-Installed :
      (name : String) (s : HelmRun W)
      → Installed
          (installation env name).release
          (installation env name).namespace
          (namespace_created (installation env name).namespace ∷ s.trace)
          (install_vcluster admin loader sdk env name s)
  unfolding install_vcluster
  install_vcluster-Installed name s =
      go (admin.create_namespace i.namespace s.world).0
        (admin.create_namespace i.namespace s.world).1
    where
      i : Installation
      i = installation env name

      go :
          (r : Result (Unit {0})) (w : W)
          → Installed i.release i.namespace (namespace_created i.namespace ∷ s.trace) (
              (unless_exists admin loader sdk env r
                  >> connected admin loader sdk env
                  >>= install_on admin loader sdk env i)
                (record { world = w; trace = namespace_created i.namespace ∷ s.trace }))
      go r w =
          bind-Installed {A = K} i.release i.namespace
            (unless_exists admin loader sdk env r >> connected admin loader sdk env)
            (install_on admin loader sdk env i) _
            (bind-Quiet {A = Unit {0}} {B = K} (unless_exists admin loader sdk env r) _
              (unless_exists-Quiet r) (λ _ t. refl))
            (install_on-Installed i)

  -- The Helm service could not be made, and nothing was asked for; or it was, the release could not
  -- be uninstalled, and nothing but this was asked for; or the release was uninstalled and then the
  -- deletion of its namespace asked for, whose result decides.
  abbrev pub TornDown : Installation → HelmRun W → Result (Unit {0}) × HelmRun W → Type 0
  TornDown i s (r, t) =
      ((e : Error) × (w : W) × (new_helm_service loader own_connection s.world ≡ (err e, w))
        × (is_ok r ≡ false)
        × (t.trace ≡ s.trace))
      ⊎ ((k : K) × (w : W) × (new_helm_service loader own_connection s.world ≡ (ok k, w))
          × (q : Result (Unit {0})) × (v : HelmRun W) × (uninstall_release (sdk k) i.release
                i.namespace false false (record s { world = w })
              ≡ (q, v))
          × (((is_ok q ≡ false)
                × (is_ok r ≡ false)
                × ((t.trace ≡ s.trace) ⊎ (t.trace ≡ uninstall_run i.release i.namespace ∷ s.trace)))
              ⊎ ((is_ok q ≡ true)
                  × (is_ok r ≡ is_gone (admin.remove_namespace i.namespace v.world).0)
                  × (t.trace
                      ≡ namespace_deleted i.namespace
                        ∷ uninstall_run i.release i.namespace
                        ∷ s.trace))))

  -- Uninstalling it asks for exactly the release and the namespace that the installation has made,
  -- in this order. If the release could not be uninstalled, the namespace is left alone and the
  -- result is an error. Otherwise the result is a success exactly when the deletion of the
  -- namespace was accepted, or there is no such namespace.
  pub uninstall_vcluster-TornDown :
      (name : String) (s : HelmRun W)
      → TornDown (installation env name) s (uninstall_vcluster admin loader sdk env name s)
  unfolding uninstall_vcluster installation
  uninstall_vcluster-TornDown name s =
      reached (new_helm_service loader own_connection s.world).0
        (new_helm_service loader own_connection s.world).1 refl
    where
      i : Installation
      i = installation env name

      gone :
          (r : Result (Unit {0})) (u : HelmRun W)
          → (is_ok (unless_gone admin loader sdk env r u).0 ≡ is_gone r)
            × ((unless_gone admin loader sdk env r u).1.trace ≡ u.trace)
      gone (ok _) u = (refl, refl)
      gone (err e) u = elim (Bool-cases (is_not_found e)) [
        | inl absent ↦ rw absent (refl, refl)
        | inr there ↦ rw there (refl, refl)
      ]

      removed :
          (k : K) (w : W)
          → new_helm_service loader own_connection s.world ≡ (ok k, w)
          → (q : Result (Unit {0})) (v : HelmRun W)
          → uninstall_release (sdk k) i.release i.namespace false false (record s { world = w })
            ≡ (q, v)
          → Removed (sdk k) i.release i.namespace false false (record s { world = w }) (q, v)
          → TornDown i s (
              and_then
                (λ _. delete_namespace admin loader sdk env i.namespace)
                (map_err (wrap_w "failed to uninstall vcluster") (λ u. (q, u)) v).0
                v)
      removed k w p (ok _) v ran (inl h) = cc
      removed k w p (ok _) v ran (inr (x, init, inl h)) = cc
      removed k w p (ok _) v ran (inr (x, init, inr h)) =
          let answer = admin.remove_namespace i.namespace v.world in
          let u : HelmRun W = record {
            world = answer.1;
            trace = namespace_deleted i.namespace ∷ v.trace;
          } in
          inr (
            k,
            w,
            p,
            ok tt,
            v,
            ran,
            inr (
              refl,
              (gone answer.0 u).0,
              (gone answer.0 u).1 ∙ ap (namespace_deleted i.namespace ∷◌) h.3,
            ),
          )
      removed k w p (err e) v ran (inl h) = inr (k, w, p, err e, v, ran, inl (refl, refl, inl h.4))
      removed k w p (err e) v ran (inr (x, init, inl h)) =
          inr (k, w, p, err e, v, ran, inl (refl, refl, inr h.4))
      removed k w p (err e) v ran (inr (x, init, inr h)) = cc

      reached :
          (r : Result K) (w : W)
          → new_helm_service loader own_connection s.world ≡ (r, w)
          → TornDown i s (
              (map_err (wrap_w "failed to create Helm service") (λ u. (r, u))
                  >>= uninstall_on admin loader sdk env i.release i.namespace
                  >> delete_namespace admin loader sdk env i.namespace)
                (record { world = w; trace = s.trace }))
      reached (err e) w p = inl (e, w, p, refl, refl)
      reached (ok k) w p =
          let t : HelmRun W = record { world = w; trace = s.trace } in
          let out = uninstall_release (sdk k) i.release i.namespace false false t in
          removed k w p out.0 out.1 refl
            (uninstall_release-Removed (sdk k) i.release i.namespace false false t)
