-- ===== src/Webhook/Module/Laws.antt =====
-- Which modules the webhook admits.
use forkspacer.Base.{
  String, ◌≡◌, ◌↔◌, refl, true, Option, none, some, [], ◌∷◌, ◌++◌, String-discrete, arith,
}
use forkspacer.Go.{Result, ok, err}
use forkspacer.Api.Meta.{ObjectKey}
use forkspacer.Api.Workspace.{Workspace}
use forkspacer.Api.Module.{
  Module, ModuleSpecHelm, ModuleSpecCustom, ModuleSpecHelmChartRepo, ModuleSpecHelmChartConfigMap,
  ModuleSpecHelmChartGit, ModuleSpecHelmExistingRelease, ModuleWorkspaceReference,
}
use forkspacer.Api.Config.{Codec, get_validated_config}
use forkspacer.Webhook.Field.{
  ErrorList, none_found, none_found-append, none_found-append_four, kept_iff,
}
use forkspacer.Webhook.Module.{
  workspace_errors, workspace_key, chart_errors, config_errors, validate_create,
  WorkspaceReference-discrete, RawConfig-discrete, ReleaseName-discrete, ExistingRelease-discrete,
  Outputs-discrete, namespace_errors, helm_errors, custom_errors, validate_update, immutable,
  immutable_errors,
}

abbrev pub OneOf : {A B C : Type 0} → Option A → Option B → Option C → Type 0
OneOf (some _) none none = Unit
OneOf none (some _) none = Unit
OneOf none none (some _) = Unit
OneOf _ _ _ = ⊥

-- Of the three sources of a chart one is set and no other.
abbrev pub OneSource : Option ModuleSpecHelm → Type 0
OneSource none = Unit
OneSource (some helm) = OneOf helm.chart.repo helm.chart.config_map helm.chart.git

abbrev pub Succeeds : {A : Type 0} → Result A → Type 0
Succeeds (ok _) = Unit
Succeeds (err _) = ⊥

count_iff :
    (repo : Option ModuleSpecHelmChartRepo) (config_map : Option ModuleSpecHelmChartConfigMap)
    (git : Option ModuleSpecHelmChartGit) (helm : ModuleSpecHelm)
    → (none_found (
          chart_errors (
            some
              (record helm { chart = record { repo = repo; config_map = config_map; git = git } })))
        ≡ true)
      ↔ OneOf repo config_map git
unfolding chart_errors
count_iff none none none helm = ((λ h. cc), (λ h. absurd h))
count_iff (some _) none none helm = ((λ _. tt), (λ _. refl))
count_iff none (some _) none helm = ((λ _. tt), (λ _. refl))
count_iff none none (some _) helm = ((λ _. tt), (λ _. refl))
count_iff (some _) (some _) none helm = ((λ h. cc), (λ h. absurd h))
count_iff (some _) none (some _) helm = ((λ h. cc), (λ h. absurd h))
count_iff none (some _) (some _) helm = ((λ h. cc), (λ h. absurd h))
count_iff (some _) (some _) (some _) helm = ((λ h. cc), (λ h. absurd h))

chart_iff : (o : Option ModuleSpecHelm) → (none_found (chart_errors o) ≡ true) ↔ OneSource o
unfolding chart_errors
chart_iff none = ((λ _. tt), (λ _. refl))
chart_iff (some helm) = count_iff helm.chart.repo helm.chart.config_map helm.chart.git helm

found_iff :
    (ref : ModuleWorkspaceReference) (found : Result Workspace)
    → (none_found (workspace_errors ref found) ≡ true) ↔ Succeeds found
unfolding workspace_errors
found_iff ref (ok w) = ((λ _. tt), (λ _. refl))
found_iff ref (err e) = ((λ h. ground arith), (λ h. absurd h))

config_iff : {A : Type 0} (r : Result A) → (none_found (config_errors r) ≡ true) ↔ Succeeds r
unfolding config_errors
config_iff (ok a) = ((λ _. tt), (λ _. refl))
config_iff (err e) = ((λ h. cc), (λ h. absurd h))

module _ {F : Type 0} (c : Codec F) (get_workspace : ObjectKey → Result Workspace) where
  -- A module may be created exactly when its workspace can be read, its Helm spec (if it has one)
  -- names one chart source and no other, and its config is valid.
  pub module_create_iff :
      (m : Module)
      → (none_found (validate_create c get_workspace m) ≡ true) ↔ (
          Succeeds (get_workspace (workspace_key m.spec.workspace))
          × OneSource m.spec.helm
          × Succeeds (get_validated_config c m))
  unfolding validate_create
  module_create_iff m =
      let found = get_workspace (workspace_key m.spec.workspace) in
      let config = get_validated_config c m in
      let outer =
        none_found-append (workspace_errors m.spec.workspace found ++ chart_errors m.spec.helm)
          (config_errors config) in
      let inner =
        none_found-append (workspace_errors m.spec.workspace found) (chart_errors m.spec.helm) in
      let f = found_iff m.spec.workspace found in
      let h = chart_iff m.spec.helm in
      let g = config_iff config in
      (
        (λ e. let both = inner.0 (outer.0 e).0 in (f.0 both.0, h.0 both.1, g.0 (outer.0 e).1)),
        (λ e. outer.1 (inner.1 (f.1 e.0, h.1 e.1), g.1 e.2)),
      )

abbrev pub SameNamespace :
    Option ModuleSpecHelmExistingRelease
    → Option ModuleSpecHelmExistingRelease
    → String
    → String
    → Type 0
SameNamespace none none old new = old ≡ new
SameNamespace _ _ old new = Unit

-- What an update must keep of the Helm spec; the namespace only if no release is adopted.
abbrev pub KeepsHelm : Option ModuleSpecHelm → Option ModuleSpecHelm → Type 0
KeepsHelm none none = Unit
KeepsHelm (some old) (some new) =
    (old.release_name ≡ new.release_name)
    × (old.existing_release ≡ new.existing_release)
    × SameNamespace old.existing_release new.existing_release old.namespace new.namespace
    × (old.outputs ≡ new.outputs)
KeepsHelm _ _ = ⊥

abbrev pub KeepsCustom : Option ModuleSpecCustom → Option ModuleSpecCustom → Type 0
KeepsCustom none none = Unit
KeepsCustom (some old) (some new) = old.image ≡ new.image
KeepsCustom _ _ = ⊥

namespace_iff :
    (e e' : Option ModuleSpecHelmExistingRelease) (old new : String)
    → (none_found (namespace_errors e e' old new) ≡ true) ↔ SameNamespace e e' old new
namespace_iff none none old new =
    kept_iff String-discrete old new (immutable ("helm" ∷ "namespace" ∷ []))
namespace_iff (some _) none old new = ((λ _. tt), (λ _. refl))
namespace_iff none (some _) old new = ((λ _. tt), (λ _. refl))
namespace_iff (some _) (some _) old new = ((λ _. tt), (λ _. refl))

four_iff :
    {A B C D : Type 0} (a b c d : ErrorList)
    → (none_found a ≡ true) ↔ A
    → (none_found b ≡ true) ↔ B
    → (none_found c ≡ true) ↔ C
    → (none_found d ≡ true) ↔ D
    → (none_found (a ++ b ++ c ++ d) ≡ true) ↔ (A × B × C × D)
four_iff a b c d p q r s =
    let all = none_found-append_four a b c d in
    (
      (λ h. let t = all.0 h in (p.0 t.0, q.0 t.1, r.0 t.2, s.0 t.3)),
      (λ h. all.1 (p.1 h.0, q.1 h.1, r.1 h.2, s.1 h.3)),
    )

helm_iff :
    (old new : Option ModuleSpecHelm)
    → (none_found (helm_errors old new) ≡ true) ↔ KeepsHelm old new
unfolding helm_errors
helm_iff none none = ((λ _. tt), (λ _. refl))
helm_iff none (some _) = ((λ h. cc), (λ h. absurd h))
helm_iff (some _) none = ((λ h. cc), (λ h. absurd h))
helm_iff (some old) (some new) =
    four_iff _ _ _ _ (kept_iff ReleaseName-discrete old.release_name new.release_name _)
      (kept_iff ExistingRelease-discrete old.existing_release new.existing_release _)
      (namespace_iff old.existing_release new.existing_release old.namespace new.namespace)
      (kept_iff Outputs-discrete old.outputs new.outputs _)

custom_iff :
    (old new : Option ModuleSpecCustom)
    → (none_found (custom_errors old new) ≡ true) ↔ KeepsCustom old new
unfolding custom_errors
custom_iff none none = ((λ _. tt), (λ _. refl))
custom_iff none (some _) = ((λ h. cc), (λ h. absurd h))
custom_iff (some _) none = ((λ h. cc), (λ h. absurd h))
custom_iff (some old) (some new) = kept_iff String-discrete old.image new.image _

-- An update is admitted exactly when it keeps the workspace reference and the config, neither adds
-- nor removes a Helm or a custom spec, keeps the release name, the adopted release and the outputs
-- of a Helm spec, and its namespace too unless a release is adopted, and keeps the image of a
-- custom spec.
pub module_update_iff :
    (old new : Module)
    → (none_found (validate_update old new) ≡ true) ↔ (
        (old.spec.workspace ≡ new.spec.workspace)
        × (old.spec.config ≡ new.spec.config)
        × KeepsHelm old.spec.helm new.spec.helm
        × KeepsCustom old.spec.custom new.spec.custom)
unfolding validate_update immutable_errors
module_update_iff old new =
    four_iff _ _ _ _ (kept_iff WorkspaceReference-discrete old.spec.workspace new.spec.workspace _)
      (kept_iff RawConfig-discrete old.spec.config new.spec.config _)
      (helm_iff old.spec.helm new.spec.helm) (custom_iff old.spec.custom new.spec.custom)
