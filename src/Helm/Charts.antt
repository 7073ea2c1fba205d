-- ===== src/Helm/Charts.antt =====
-- pkg/services/helm.go: InstallFromRepository, InstallFromLocal and buildDependencies.
-- A `go` statement leaves the call that it starts in the trace. The timeouts of the SDK are left
-- out.
pub mod Install
use forkspacer.Base.{
  ℕ, String, ◌≡◌, Bool, true, false, not, ◌&&◌, ◌||◌, Option, none, some, List, [], ◌∷◌, ◌++◌,
  Assoc, lookup, nat_eq, ◌==◌, if◌then◌else◌,
}
use forkspacer.Go.{Error, Result, ok, err, errorf, wrap_w, concat, is_not_found}
use forkspacer.Exec.{Exec, ◌>>=◌, ◌>>◌, pure, raise, lift, attempt, map_err}
use forkspacer.Api.Module.{ModuleSpecHelmValues, ModuleSpecHelmValuesConfigMap, RawExtension}
use forkspacer.Helm.Service.{
  HelmRun, Sdk, InstallAction, install_run, uninstall_spawned, calling, step, note, initialized,
  merge_helm_values,
}

module _ {W C V : Type 0} (sdk : Sdk W C V) where
  -- an installation that fails starts its own removal
  abbrev pub run_chart : String → InstallAction → C → V → Exec (HelmRun W) (Unit {0})
  run_chart message a chart values =
      note sdk (install_run a.release_name a.namespace)
      >> attempt (calling sdk (sdk.run_install a chart values))
      >>= λ r. elim r [
        | ok _ ↦ pure tt
        | err e ↦
            note sdk (uninstall_spawned a.release_name a.namespace true true)
            >> raise (wrap_w message e)
      ]

  abbrev repository_action :
      String → String → String → Option String → Bool → String → String → InstallAction
  repository_action release namespace repo version wait username password = record {
    namespace = namespace;
    repo_url = repo;
    release_name = release;
    version = elim version [ some v ↦ v | none ↦ "" ];
    wait = wait;
    username = if not (username == "") || not (password == "") then username else "";
    password = if not (username == "") || not (password == "") then password else "";
  }

  pub install_from_repository :
      String
      → String
      → String
      → String
      → Option String
      → Bool
      → List ModuleSpecHelmValues
      → String
      → String
      → Exec (HelmRun W) (Unit {0})
  install_from_repository chart release namespace repo version wait values username password =
      let action = repository_action release namespace repo version wait username password in
      initialized sdk namespace >>= λ _. merge_helm_values sdk values >>= λ merged.
      step sdk "failed to locate chart" (sdk.locate_chart action chart) >>= λ path.
      step sdk "failed to load chart from repository" (sdk.load path) >>= λ loaded.
      run_chart "failed to install chart from repository" action loaded merged

  -- the directory `charts` is made if it is missing
  abbrev ensure_dir : String → Result Bool → Exec (HelmRun W) (Unit {0})
  ensure_dir path (ok _) = pure tt
  ensure_dir path (err e) =
      if is_not_found e
      then step sdk "failed to create charts directory" (sdk.mkdir_all path)
      else pure tt

  abbrev build_if : String → ℕ → Exec (HelmRun W) (Unit {0})
  build_if path dependencies =
      let charts = concat (path ∷ "/charts" ∷ []) in
      if nat_eq dependencies 0
      then pure tt
      else (attempt (calling sdk (sdk.stat charts))
          >>= ensure_dir charts
          >> step sdk "failed to build dependencies" (sdk.build path))

  abbrev is_missing : Result Bool → Bool
  is_missing (ok _) = false
  is_missing (err e) = is_not_found e

  abbrev with_manifest : String → Result Bool → Exec (HelmRun W) (Unit {0})
  with_manifest path manifest =
      if is_missing manifest
      then pure tt
      else (step sdk "failed to load chart metadata" (sdk.load_dir path) >>= build_if path)

  abbrev in_directory : String → Bool → Exec (HelmRun W) (Unit {0})
  in_directory path is_dir =
      if not is_dir
      then pure tt
      else (attempt (calling sdk (sdk.stat (concat (path ∷ "/Chart.yaml" ∷ []))))
          >>= with_manifest path)

  pub build_dependencies : String → Exec (HelmRun W) (Unit {0})
  build_dependencies path =
      step sdk "failed to stat chart path" (sdk.stat path) >>= in_directory path

  abbrev local_action : String → String → Bool → InstallAction
  local_action release namespace wait = record {
    namespace = namespace;
    repo_url = "";
    release_name = release;
    version = "";
    wait = wait;
    username = "";
    password = "";
  }

  pub install_from_local :
      String → String → String → Bool → List ModuleSpecHelmValues → Exec (HelmRun W) (Unit {0})
  unfolding build_dependencies
  install_from_local path release namespace wait values = initialized sdk namespace >>= λ _.
      merge_helm_values sdk values >>= λ merged.
      map_err (wrap_w "failed to build chart dependencies") (build_dependencies path) >>= λ _.
      step sdk "failed to load chart from archive" (sdk.load path) >>= λ loaded.
      run_chart "failed to install chart from archive" (local_action release namespace wait) loaded
        merged
