-- ===== src/Helm/Service.antt =====
-- pkg/services/helm.go: MergeHelmValues, UninstallRelease, GetSecretValue and ListPVCs of the Helm
-- service.
-- The Helm SDK, the Kubernetes API and the file system of one cluster are a parameter. The state is
-- the world that they act on, and a trace of what was asked of them. The timeouts of the SDK are
-- left out.
pub mod Quiet
pub mod Sources
pub mod Values
pub mod Removal
use forkspacer.Base.{
  ℕ, String, ◌≡◌, Bool, true, false, not, ◌&&◌, ◌||◌, Option, none, some, List, [], ◌∷◌, ◌++◌,
  Assoc, lookup, nat_eq, ◌==◌, if◌then◌else◌,
}
use forkspacer.Go.{Error, Result, ok, err, errorf, wrap_w, concat, is_not_found}
use forkspacer.Exec.{Exec, ◌>>=◌, ◌>>◌, pure, raise, lift, attempt, map_err}
use forkspacer.Api.Module.{ModuleSpecHelmValues, ModuleSpecHelmValuesConfigMap, RawExtension}

-- What was asked of the cluster: a chart to be installed as a release in a namespace, a release to
-- be uninstalled, a namespace to be created, a namespace or the volume claims of a release to be
-- deleted, a goroutine started that calls UninstallRelease; and of the file system: a temporary
-- file or directory made, and its removal.
pub data HelmEffect : Type 0 where
  install_run : String → String → HelmEffect
  uninstall_run : String → String → HelmEffect
  namespace_created namespace_deleted : String → HelmEffect
  claims_deleted : String → String → HelmEffect
  uninstall_spawned : String → String → Bool → Bool → HelmEffect
  temp_made temp_removed : String → HelmEffect

-- `trace` holds the newest effect first.
pub record HelmRun (W : Type 0) : Type 0 where
  pub world : W
  pub trace : List HelmEffect

-- what is set of an `action.Install`
pub record InstallAction : Type 0 where
  pub namespace : String
  pub repo_url : String
  pub release_name : String
  pub version : String
  pub wait : Bool
  pub username : String
  pub password : String

-- C is the type of loaded charts, V that of value tables.
pub record Sdk (W C V : Type 0) : Type 0 where
  pub init : String → W → Result (Unit {0}) × W
  pub locate_chart : InstallAction → String → W → Result String × W
  pub load : String → W → Result C × W
  pub run_install : InstallAction → C → V → W → Result (Unit {0}) × W
  pub run_uninstall : String → String → W → Result (Unit {0}) × W
  pub delete_namespace : String → W → Result (Unit {0}) × W
  pub delete_claims : String → String → W → Result (Unit {0}) × W
  pub list_claims : String → String → W → Result (List String) × W
  pub get_config_map : String → String → W → Result (Assoc String) × W
  pub get_secret : String → String → W → Result (Assoc String) × W
  pub read_file : String → W → Result V × W
  pub read_values : String → Result V
  pub unmarshal : String → Result V
  pub coalesce_tables : V → V → V
  pub no_values : V
  -- os.Stat, with whether it is a directory
  pub stat : String → W → Result Bool × W
  pub load_dir : String → W → Result ℕ × W
  pub mkdir_all : String → W → Result (Unit {0}) × W
  pub build : String → W → Result (Unit {0}) × W

-- the selector of the objects of a release
abbrev instance_of : String → String
instance_of release = concat ("app.kubernetes.io/instance=" ∷ release ∷ [])

-- a text that is set and not empty
abbrev nonempty : Option String → Option String
nonempty none = none
nonempty (some text) = if text == "" then none else some text

module _ {W C V : Type 0} (sdk : Sdk W C V) where
  abbrev pub calling : {A : Type 0} → (W → Result A × W) → Exec (HelmRun W) A
  calling f s = let (r, w) = f s.world in (r, record s { world = w })

  -- an action whose error is wrapped
  abbrev pub step : {A : Type 0} → String → (W → Result A × W) → Exec (HelmRun W) A
  step message f = map_err (wrap_w message) (calling f)

  abbrev pub note : HelmEffect → Exec (HelmRun W) (Unit {0})
  note e s = (ok tt, record s { trace = e ∷ s.trace })

  -- one table, if the source of values is set
  abbrev file_values : Option String → Exec (HelmRun W) (List V)
  file_values none = pure []
  file_values (some path) =
      step "failed to read values file" (sdk.read_file path) >>= λ v. pure (v ∷ [])

  abbrev parsed : Option String → Exec (HelmRun W) (List V)
  parsed none = pure []
  parsed (some text) =
      map_err (wrap_w "failed to read values from ConfigMap") (lift (sdk.read_values text)) >>= λ v.
      pure (v ∷ [])

  abbrev config_map_values : Option ModuleSpecHelmValuesConfigMap → Exec (HelmRun W) (List V)
  config_map_values none = pure []
  config_map_values (some r) =
      if r.name == ""
      then pure []
      else (step "failed to get ConfigMap" (sdk.get_config_map r.namespace r.name) >>= λ pairs.
          parsed (nonempty (lookup r.key pairs)))

  abbrev raw_bytes : Option String → Exec (HelmRun W) (List V)
  raw_bytes none = pure []
  raw_bytes (some bytes) =
      map_err (wrap_w "failed to unmarshal raw helm values") (lift (sdk.unmarshal bytes)) >>= λ v.
      pure (v ∷ [])

  abbrev raw_values : Option RawExtension → Exec (HelmRun W) (List V)
  raw_values none = pure []
  raw_values (some r) = raw_bytes (nonempty r.raw)

  abbrev entry_values : ModuleSpecHelmValues → Exec (HelmRun W) (List V)
  entry_values v = file_values (nonempty v.file) >>= λ a.
      config_map_values v.config_map >>= λ b. raw_values v.raw >>= λ c. pure (a ++ b ++ c)

  -- the loop that collects the tables
  unfoldable pub collect : List ModuleSpecHelmValues → Exec (HelmRun W) (List V)
  unfolding lookup
  collect [] = pure []
  collect (v ∷ vs) =
      let rest = collect vs in entry_values v >>= λ here. rest >>= λ more. pure (here ++ more)

  -- the loop that merges them: `CoalesceTables(v, merged)`
  unfoldable pub merge_onto : V → List V → V
  merge_onto merged [] = merged
  merge_onto merged (v ∷ vs) = merge_onto (sdk.coalesce_tables v merged) vs

  abbrev pub merge_tables : List V → V
  unfolding merge_onto
  merge_tables [] = sdk.no_values
  merge_tables (v ∷ vs) = merge_onto v vs

  unfoldable pub merge_helm_values : List ModuleSpecHelmValues → Exec (HelmRun W) V
  unfolding collect merge_onto
  merge_helm_values vs = collect vs >>= λ tables. pure (merge_tables tables)

  abbrev pub initialized : String → Exec (HelmRun W) (Unit {0})
  initialized namespace = step "failed to initialize action config" (sdk.init namespace)

  -- what follows the uninstallation
  abbrev remove_more : String → String → Bool → Bool → Exec (HelmRun W) (Unit {0})
  remove_more release namespace remove_namespace remove_claims =
      if remove_namespace && (not (namespace == "default") && not (namespace == ""))
      then (note (namespace_deleted namespace)
          >> step "failed to delete namespace" (sdk.delete_namespace namespace))
      else if remove_claims
      then (note (claims_deleted namespace release)
          >> step "failed to delete PersistentVolumeClaims"
              (sdk.delete_claims namespace (instance_of release)))
      else pure tt

  pub uninstall_release : String → String → Bool → Bool → Exec (HelmRun W) (Unit {0})
  uninstall_release release namespace remove_namespace remove_claims =
      initialized namespace
      >> note (uninstall_run release namespace)
      >> step "failed to uninstall release" (sdk.run_uninstall release namespace)
      >> remove_more release namespace remove_namespace remove_claims

  abbrev at_key : Option String → Exec (HelmRun W) String
  at_key (some value) = pure value
  at_key none = raise (errorf "key not found in secret")

  pub get_secret_value : String → String → String → Exec (HelmRun W) String
  unfolding lookup
  get_secret_value namespace name key =
      step "failed to get secret" (sdk.get_secret namespace name) >>= λ pairs.
      at_key (lookup key pairs)

  pub list_pvcs : String → String → Exec (HelmRun W) (List String)
  list_pvcs release namespace = calling (sdk.list_claims namespace (instance_of release))
