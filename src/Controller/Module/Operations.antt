-- ===== src/Controller/Module/Operations.antt =====
-- internal/controller/module_operations.go, with newManager of module_controller.go: what the
-- reconciler does to install, uninstall, put to sleep and resume a module.
pub mod Runs
pub mod Stalled
use forkspacer.Base.{
  String, Bool, true, false, not, Option, none, some, List, [], ◌∷◌, ◌++◌, lookup, insert, ◌==◌,
  if◌then◌else◌,
}
use forkspacer.Go.{
  Error, Result, ok, err, errorf, wrap_v, wrap_w, concat, is_not_found, workspace_not_ready,
}
use forkspacer.Exec.{Exec, ◌>>=◌, ◌>>◌, pure, raise, attempt, map_err}
use forkspacer.Api.Meta.{ObjectMeta, ObjectKey}
use forkspacer.Api.Workspace
use forkspacer.Api.Workspace.{Workspace, WorkspacePhase, WorkspaceConnection}
use forkspacer.Api.Module.{
  Module, ModuleSpec, ModuleSpecHelm, ModuleSpecHelmValues, ModuleSpecHelmExistingRelease,
  ModuleWorkspaceReference, RawExtension,
}
use forkspacer.Controller.Module.{
  Call, install, uninstall, sleep, resume, Effect, annotated, adopted, called, event, Sys, Client,
  Release, world_action, emit, writing,
}

abbrev manager_data_key : String
manager_data_key = "forkspacer.com/manager-data"

abbrev workspace_key : ModuleWorkspaceReference → ObjectKey
workspace_key ref = record { key_namespace = ref.namespace; key_name = ref.name }

-- `module.Spec.Helm.ExistingRelease`, if the module has a Helm spec
abbrev pub adoption : ModuleSpec → Option ModuleSpecHelmExistingRelease
adoption spec = elim spec.helm [ none ↦ none | some helm ↦ helm.existing_release ]

abbrev is_ready_phase : WorkspacePhase → Bool
is_ready_phase Workspace.ready = true
is_ready_phase _ = false

-- ready and hibernated, the phases in which a module may sleep or resume
abbrev is_live_phase : WorkspacePhase → Bool
is_live_phase Workspace.ready = true
is_live_phase Workspace.hibernated = true
is_live_phase _ = false

-- ready, hibernated and failed, the phases in which a module may be uninstalled
abbrev is_settled_phase : WorkspacePhase → Bool
is_settled_phase Workspace.failed = true
is_settled_phase phase = is_live_phase phase

abbrev not_ready : String → Error
not_ready why = record {
  class = workspace_not_ready;
  text = concat ("workspace not ready: " ∷ why ∷ []);
}

-- `module.Spec.Config.Raw`, if there is one
abbrev raw_config : Option RawExtension → Option String
raw_config none = none
raw_config (some config) = config.raw

abbrev raw_values : Option String → List ModuleSpecHelmValues
raw_values none = []
raw_values (some text) =
    record { file = none; config_map = none; raw = some (record { raw = some text }) } ∷ []

-- `module.Spec.Helm.Values = append(oldValues, module.Spec.Helm.Values...)`
abbrev prepend_values : Release → ModuleSpecHelm → ModuleSpecHelm
prepend_values release helm = record helm {
  values = raw_values release.chart_values ++ raw_values release.config ++ helm.values;
}

abbrev with_values : Release → Module → Module
with_values release m = record m {
  spec = record m.spec {
    helm = elim m.spec.helm [ none ↦ none | some helm ↦ some (prepend_values release helm) ];
  };
}

module _ {W D M : Type 0} (c : Client W D M) where
  abbrev annotate : D → Module → Module
  annotate d m = record m {
    metadata = record m.metadata {
      annotations = insert manager_data_key (c.print_meta d) m.metadata.annotations;
    };
  }

  abbrev or_local : Module → Result Module → Module
  or_local m (ok m') = m'
  or_local m (err _) = m

  -- A patch of the annotations whose failure is only logged.
  abbrev save_meta : D → Module → Exec (Sys W) Module
  save_meta d m = attempt (writing c annotated (c.patch_module m (annotate d m))) >>= λ r.
      pure (or_local (annotate d m) r)

  -- metaData.Parse of the annotation, if it is there and not empty
  abbrev load_meta : Option String → D
  load_meta none = c.empty_meta
  load_meta (some text) = if text == "" then c.empty_meta else c.parse_meta text

  abbrev stored_meta : Module → D
  stored_meta m = load_meta (lookup manager_data_key m.metadata.annotations)

  abbrev build_manager : Module → WorkspaceConnection → D → Exec (Sys W) (M × D)
  build_manager m conn d = elim m.spec.helm [
    | some _ ↦ world_action c (c.helm_manager m conn) >>= λ manager. pure (manager, d)
    | none ↦ elim m.spec.custom [
      | some _ ↦ world_action c (c.custom_manager m conn (raw_config m.spec.config) d)
      | none ↦ raise (errorf "module spec must define either Helm or Custom configuration")
    ]
  ]

  -- newManager: the manager, the metadata that it starts with, and the module as patched
  new_manager : Module → WorkspaceConnection → D → Exec (Sys W) (M × D × Module)
  new_manager m conn d =
      build_manager m conn d >>= λ built. save_meta built.1 m >>= λ m'. pure (built.0, built.1, m')

  abbrev manager_action : Call → M → D → Exec (Sys W) (Result (Unit {0}) × D)
  manager_action k manager d = emit c (called k) >> λ s.
      let (r, w) = c.manager_call k manager d s.world in (ok r, record s { world = w })

  -- run an operation of the manager, then save its metadata whether it failed or not
  run_manager : Call → String → Module → Workspace → Exec (Sys W) Module
  unfolding new_manager
  run_manager k failure m w = new_manager m w.spec.connection (stored_meta m) >>= λ built.
      manager_action k built.0 built.1 >>= λ done. save_meta done.1 built.2 >>= λ saved.
      elim done.0 [ ok _ ↦ pure saved | err e ↦ raise (wrap_w failure e) ]

  abbrev adopt_with : ModuleSpecHelmExistingRelease → Module → Workspace → Exec (Sys W) Module
  adopt_with ref m w =
      map_err (wrap_w "failed to get release")
        (world_action c (c.get_release ref w.spec.connection))
      >>= λ release.
          map_err (wrap_w "failed to patch module with adoption annotations")
            (writing c adopted (c.patch_module m (with_values release m)))

  -- adoptExistingHelmRelease
  adopt_existing_release : ModuleSpecHelmExistingRelease → Module → Workspace → Exec (Sys W) Module
  adopt_existing_release ref m w =
      map_err (wrap_w "failed to adopt existing Helm release") (adopt_with ref m w)

  abbrev valid_config : Option String → Bool
  valid_config none = true
  valid_config (some text) = c.is_config text

  -- the part of installModule that follows the checks of the workspace
  install_in : Module → Workspace → Exec (Sys W) Module
  unfolding run_manager adopt_existing_release
  install_in m w = elim (adoption m.spec) [
    | some ref ↦ adopt_existing_release ref m w
    | none ↦
        if valid_config (raw_config m.spec.config)
        then run_manager install "failed to install module" m w
        else raise (errorf "failed to unmarshal module config")
  ]

  abbrev workspace_of : String → Module → Exec (Sys W) Workspace
  workspace_of failure m =
      map_err (wrap_v failure) (world_action c (c.get_workspace (workspace_key m.spec.workspace)))

  unfoldable pub install_module : Module → Exec (Sys W) Module
  unfolding install_in
  install_module m = workspace_of "failed to get workspace" m >>= λ w.
      if not w.status.ready
      then raise (not_ready "workspace exists but status.ready is false")
      else if not (is_ready_phase w.status.phase)
      then raise (not_ready "workspace phase is not ready")
      else install_in m w

  -- sleepModule and resumeModule, which differ in the operation and its error text
  change_module : Call → String → Module → Exec (Sys W) Module
  unfolding run_manager
  change_module k failure m = workspace_of "failed to get workspace for module" m >>= λ w.
      if not w.status.ready
      then raise (errorf "workspace not ready")
      else if not (is_live_phase w.status.phase)
      then raise (errorf "workspace is not in a suitable phase for sleeping")
      else run_manager k failure m w

  pub sleep_module : Module → Exec (Sys W) Module
  unfolding change_module
  sleep_module = change_module sleep "failed to sleep module"

  pub resume_module : Module → Exec (Sys W) Module
  unfolding change_module
  resume_module = change_module resume "failed to resume module"

  uninstall_in : Module → Workspace → Exec (Sys W) (Unit {0})
  unfolding new_manager
  uninstall_in m w = new_manager m w.spec.connection (stored_meta m) >>= λ built.
      manager_action uninstall built.0 built.1 >>= λ done. elim done.0 [
        | ok _ ↦ pure tt
        | err e ↦ raise (wrap_w "failed to uninstall module" e)
      ]

  -- a workspace that is being deleted is not asked whether it is ready
  abbrev may_uninstall : Workspace → Result (Unit {0})
  may_uninstall w = elim w.metadata.deletion_timestamp [
    | some _ ↦ ok tt
    | none ↦
        if not w.status.ready
        then err (errorf "workspace not ready")
        else if is_settled_phase w.status.phase
        then ok tt
        else err (errorf "workspace is not in a suitable phase for uninstallation")
  ]

  uninstall_from : Module → Result Workspace → Exec (Sys W) (Unit {0})
  unfolding uninstall_in
  uninstall_from m (ok w) = elim (may_uninstall w) [ ok _ ↦ uninstall_in m w | err e ↦ raise e ]
  uninstall_from m (err e) =
      if is_not_found e then pure tt else raise (wrap_v "failed to get workspace for module" e)

  pub uninstall_module : Module → Exec (Sys W) (Unit {0})
  unfolding uninstall_from
  uninstall_module m = elim (adoption m.spec) [
    | some _ ↦ pure tt
    | none ↦
        attempt (world_action c (c.get_workspace (workspace_key m.spec.workspace)))
        >>= uninstall_from m
  ]
