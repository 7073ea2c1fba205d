-- ===== src/Api/Module.antt =====
-- api/v1/module_types.go: the Module resource and the two getters of its Helm spec.
use forkspacer.Base.{ℕ, String, Bool, Option, none, some, List}
use forkspacer.Go.Int.{ℤ}
use forkspacer.Api.Meta.{ObjectMeta}

-- `unset` is the empty string that a new resource has; `unknown` is any other text.
pub data ModulePhase : Type 0 where
  unset ready installing uninstalling sleeping sleeped resuming failed : ModulePhase
  unknown : String → ModulePhase

pub record ModuleStatus : Type 0 where
  pub conditions : List String
  pub phase : ModulePhase
  pub source : String
  pub last_activity : Option ℕ
  pub message : Option String

pub record ModuleWorkspaceReference : Type 0 where
  pub name : String
  pub namespace : String

pub data CustomModulePermissionType : Type 0 where
  workspace controller : CustomModulePermissionType
  other_permission : String → CustomModulePermissionType

pub record ModuleSpecCustom : Type 0 where
  pub image : String
  pub image_pull_secrets : List String
  pub permissions : List CustomModulePermissionType

pub record ModuleSpecHelmChartRepoAuth : Type 0 where
  pub name : String
  pub namespace : String

pub record ModuleSpecHelmChartRepo : Type 0 where
  pub url : String
  pub chart : String
  pub version : Option String
  pub auth : Option ModuleSpecHelmChartRepoAuth

pub record ModuleSpecHelmChartConfigMap : Type 0 where
  pub name : String
  pub namespace : String
  pub key : String

pub record ModuleSpecHelmChartGitAuthSecret : Type 0 where
  pub name : String
  pub namespace : String

pub record ModuleSpecHelmChartGitAuth : Type 0 where
  pub https_secret_ref : Option ModuleSpecHelmChartGitAuthSecret

pub record ModuleSpecHelmChartGit : Type 0 where
  pub repo : String
  pub path : String
  pub revision : String
  pub auth : Option ModuleSpecHelmChartGitAuth

pub record ModuleSpecHelmChart : Type 0 where
  pub repo : Option ModuleSpecHelmChartRepo
  pub config_map : Option ModuleSpecHelmChartConfigMap
  pub git : Option ModuleSpecHelmChartGit

pub record ModuleSpecHelmExistingRelease : Type 0 where
  pub name : String
  pub namespace : String

pub record ModuleSpecHelmValuesConfigMap : Type 0 where
  pub name : String
  pub namespace : String
  pub key : String

-- runtime.RawExtension: the bytes, or nil
pub record RawExtension : Type 0 where
  pub raw : Option String

pub record ModuleSpecHelmValues : Type 0 where
  pub file : Option String
  pub config_map : Option ModuleSpecHelmValuesConfigMap
  pub raw : Option RawExtension

pub record ModuleSpecHelmOutputValueFromSecret : Type 0 where
  pub name : String
  pub namespace : String
  pub key : String

pub record ModuleSpecHelmOutputValueFrom : Type 0 where
  pub secret : Option ModuleSpecHelmOutputValueFromSecret

-- the value is the raw text of a JSON document
pub record ModuleSpecHelmOutput : Type 0 where
  pub name : String
  pub value : Option String
  pub value_from : Option ModuleSpecHelmOutputValueFrom

pub record ModuleSpecHelmCleanup : Type 0 where
  pub remove_namespace : Bool
  pub remove_pvcs : Bool

pub record ModuleSpecHelmMigration : Type 0 where
  pub pvcs : List String
  pub config_maps : List String
  pub secrets : List String

pub record ModuleSpecHelm : Type 0 where
  pub existing_release : Option ModuleSpecHelmExistingRelease
  pub release_name : Option String
  pub chart : ModuleSpecHelmChart
  pub namespace : String
  pub values : List ModuleSpecHelmValues
  pub outputs : List ModuleSpecHelmOutput
  pub cleanup : ModuleSpecHelmCleanup
  pub migration : ModuleSpecHelmMigration

unfoldable pub get_namespace : ModuleSpecHelm → String
get_namespace h = elim h.existing_release [ some e ↦ e.namespace | none ↦ h.namespace ]

-- `none` is the panic of `*h.ReleaseName` at a nil pointer.
unfoldable pub get_release_name : ModuleSpecHelm → Option String
get_release_name h = elim h.existing_release [ some e ↦ some e.name | none ↦ h.release_name ]

pub record ConfigItemSpecInteger : Type 0 where
  pub required : Bool
  pub default : ℤ
  pub min : Option ℤ
  pub max : Option ℤ
  pub editable : Bool

pub record ConfigItemSpecBoolean : Type 0 where
  pub required : Bool
  pub default : Bool
  pub editable : Bool

pub record ConfigItemSpecString : Type 0 where
  pub required : Bool
  pub default : String
  pub regex : Option String
  pub editable : Bool

pub record ConfigItemSpecOption : Type 0 where
  pub required : Bool
  pub default : String
  pub values : List String
  pub editable : Bool

pub record ConfigItemSpecMultipleOptions : Type 0 where
  pub required : Bool
  pub default : List String
  pub values : List String
  pub min : Option ℤ
  pub max : Option ℤ
  pub editable : Bool

pub record ConfigItem : Type 0 where
  pub name : String
  pub alias : String
  pub integer : Option ConfigItemSpecInteger
  pub boolean : Option ConfigItemSpecBoolean
  pub string : Option ConfigItemSpecString
  pub option : Option ConfigItemSpecOption
  pub multiple_options : Option ConfigItemSpecMultipleOptions

pub record ModuleSpec : Type 0 where
  pub helm : Option ModuleSpecHelm
  pub custom : Option ModuleSpecCustom
  pub workspace : ModuleWorkspaceReference
  pub config : Option RawExtension
  pub hibernated : Bool

pub record Module : Type 0 where
  pub metadata : ObjectMeta
  pub config : List ConfigItem
  pub spec : ModuleSpec
  pub status : ModuleStatus
