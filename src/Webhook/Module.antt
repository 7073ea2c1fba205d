-- ===== src/Webhook/Module.antt =====
-- internal/webhook/v1/module_webhook.go: defaults and validation of a Module.
-- The dynamic type check of the decoded object is left out: the functions take a Module.
pub mod Laws
pub mod Names
use Prim.Native.Char.{code}
use Prim.Native.String.{[] as end_of_text, ◌∷◌ as ◌◂◌}
use forkspacer.Base.{
  ℕ, zero, suc, ◌+◌, String, Bool, true, false, not, Option, none, some, List, [], ◌∷◌, ◌++◌, equal,
  String-discrete, nat_eq, ltb, if◌then◌else◌,
}
use forkspacer.Go.{Error, Result, ok, err, is_not_found, concat}
use forkspacer.Api.Meta.{ObjectMeta, ObjectKey}
use forkspacer.Api.Workspace.{Workspace}
use forkspacer.Api.Any.{Any}
use forkspacer.Api.Module.{
  Module, ModuleSpec, ModuleSpecHelm, ModuleSpecCustom, ModuleSpecHelmChart,
  ModuleSpecHelmExistingRelease, ModuleSpecHelmOutput, ModuleWorkspaceReference, RawExtension,
}
use forkspacer.Api.Config.{Codec, get_validated_config}
use forkspacer.Webhook.Field.{FieldError, ErrorList, required, invalid, internal, when}

-- The loop of `Default`: the characters of the UUID but the hyphens, until there are `n` of them.
pub clean_uuid : ℕ → String → String
clean_uuid zero _ = ""
clean_uuid (suc n) end_of_text = ""
clean_uuid (suc n) (ch ◂ s) = elim (nat_eq (code ch) b'-') [
  | true ↦ clean_uuid (suc n) s
  | false ↦ ch ◂ clean_uuid n s
]

pub generated_name : String → String → String
unfolding clean_uuid
generated_name namespace uuid = concat (namespace ∷ "-" ∷ clean_uuid 11 uuid ∷ [])

abbrev or_generated : String → String → Option String → Option String
or_generated namespace uuid none = some (generated_name namespace uuid)
or_generated namespace uuid (some name) = some name

abbrev default_helm : String → String → Option ModuleSpecHelm → Option ModuleSpecHelm
default_helm namespace uuid none = none
default_helm namespace uuid (some helm) =
    some (record helm { release_name = or_generated namespace uuid helm.release_name })

-- ModuleCustomDefaulter.Default, where `uuid.New()` prints as `uuid`
pub default_module : String → Module → Module
default_module uuid m = record m {
  spec = record m.spec { helm = default_helm m.metadata.namespace uuid m.spec.helm };
}

-- validateModuleWorkspace, on what the API server answers
unfoldable pub workspace_errors : ModuleWorkspaceReference → Result Workspace → ErrorList
workspace_errors ref (ok _) = []
workspace_errors ref (err e) =
    if is_not_found e
    then record {
      kind = invalid;
      path = "spec" ∷ "workspace" ∷ [];
      detail = concat ("workspace " ∷ ref.namespace ∷ "/" ∷ ref.name ∷ " not found" ∷ []);
    }
      ∷ []
    else record {
      kind = internal;
      path = "spec" ∷ "workspace" ∷ [];
      detail = concat ("failed to validate workspace reference: " ∷ e.text ∷ []);
    }
      ∷ []

abbrev one_if_set {ℓ} : {A : Type ℓ} → Option A → ℕ
one_if_set none = 0
one_if_set (some _) = 1

abbrev source_count : ModuleSpecHelmChart → ℕ
source_count c = one_if_set c.repo + one_if_set c.config_map + one_if_set c.git

abbrev chart_path : List String
chart_path = "spec" ∷ "helm" ∷ "chart" ∷ []

-- validateModuleHelmChart
unfoldable pub chart_errors : Option ModuleSpecHelm → ErrorList
chart_errors none = []
chart_errors (some helm) =
    if nat_eq (source_count helm.chart) 0
    then record {
      kind = required;
      path = chart_path;
      detail = "must specify exactly one of: repo, configMap, or git";
    }
      ∷ []
    else if ltb 1 (source_count helm.chart)
    then record {
      kind = invalid;
      path = chart_path;
      detail = "must specify exactly one of: repo, configMap, or git (multiple sources specified)";
    }
      ∷ []
    else []

-- validateModuleConfig, on the result of `GetValidatedConfig`
unfoldable pub config_errors : {A : Type 0} → Result A → ErrorList
config_errors (ok _) = []
config_errors (err e) =
    record { kind = invalid; path = "spec" ∷ "config" ∷ []; detail = e.text } ∷ []

abbrev workspace_key : ModuleWorkspaceReference → ObjectKey
workspace_key ref = record { key_namespace = ref.namespace; key_name = ref.name }

module _ {F : Type 0} (c : Codec F) (get_workspace : ObjectKey → Result Workspace) where
  -- ValidateCreate, with validateModule and validateModuleSpec
  pub validate_create : Module → ErrorList
  unfolding workspace_errors chart_errors config_errors
  validate_create m =
      workspace_errors m.spec.workspace (get_workspace (workspace_key m.spec.workspace))
      ++ chart_errors m.spec.helm
      ++ config_errors (get_validated_config c m)

pub WorkspaceReference-discrete : Discrete ModuleWorkspaceReference
WorkspaceReference-discrete = hlevel String-discrete

pub RawConfig-discrete : Discrete (Option RawExtension)
RawConfig-discrete = hlevel String-discrete

pub ReleaseName-discrete : Discrete (Option String)
ReleaseName-discrete = hlevel String-discrete

pub ExistingRelease-discrete : Discrete (Option ModuleSpecHelmExistingRelease)
ExistingRelease-discrete = hlevel String-discrete

pub Outputs-discrete : Discrete (List ModuleSpecHelmOutput)
Outputs-discrete = hlevel String-discrete

abbrev at : List String → String → FieldError
at path detail = record { kind = invalid; path = "spec" ∷ path; detail = detail }

abbrev immutable : List String → FieldError
immutable path = at path "field is immutable"

abbrev added : String
added = "field cannot be added once the object is created"

abbrev removed : String
removed = "field cannot be removed once the object is created"

-- the namespace is compared only if neither release is adopted
abbrev namespace_errors :
    Option ModuleSpecHelmExistingRelease
    → Option ModuleSpecHelmExistingRelease
    → String
    → String
    → ErrorList
namespace_errors none none old new =
    when (not (equal String-discrete old new)) (immutable ("helm" ∷ "namespace" ∷ []))
namespace_errors _ _ old new = []

unfoldable pub helm_errors : Option ModuleSpecHelm → Option ModuleSpecHelm → ErrorList
helm_errors none none = []
helm_errors none (some _) = at ("helm" ∷ []) added ∷ []
helm_errors (some _) none = at ("helm" ∷ []) removed ∷ []
helm_errors (some old) (some new) =
    when (not (equal ReleaseName-discrete old.release_name new.release_name))
      (immutable ("helm" ∷ "releaseName" ∷ []))
    ++ when (not (equal ExistingRelease-discrete old.existing_release new.existing_release))
        (immutable ("helm" ∷ "existingRelease" ∷ []))
    ++ namespace_errors old.existing_release new.existing_release old.namespace new.namespace
    ++ when (not (equal Outputs-discrete old.outputs new.outputs))
        (immutable ("helm" ∷ "outputs" ∷ []))

unfoldable pub custom_errors : Option ModuleSpecCustom → Option ModuleSpecCustom → ErrorList
custom_errors none none = []
custom_errors none (some _) = at ("custom" ∷ []) added ∷ []
custom_errors (some _) none = at ("custom" ∷ []) removed ∷ []
custom_errors (some old) (some new) =
    when (not (equal String-discrete old.image new.image)) (immutable ("custom" ∷ "image" ∷ []))

-- validateModuleImmutableUpdateFields
unfoldable pub immutable_errors : ModuleSpec → ModuleSpec → ErrorList
unfolding helm_errors custom_errors
immutable_errors old new =
    when (not (equal WorkspaceReference-discrete old.workspace new.workspace))
      (immutable ("workspace" ∷ []))
    ++ when (not (equal RawConfig-discrete old.config new.config)) (immutable ("config" ∷ []))
    ++ helm_errors old.helm new.helm
    ++ custom_errors old.custom new.custom

-- ValidateUpdate
pub validate_update : Module → Module → ErrorList
unfolding immutable_errors
validate_update old new = immutable_errors old.spec new.spec

pub validate_delete : Module → ErrorList
validate_delete m = []
