-- ===== src/Controller/Workspace/Fork.antt =====
-- internal/controller/workspace_fork.go: forkWorkspace, and the goroutine that copies a module.
-- A goroutine is an effect of forkWorkspace; `copy_module` is what it runs. A nil pointer that is
-- followed is an error with the text of the panic.
pub mod Started
use forkspacer.Base.{
  ℕ, zero, suc, String, Bool, true, false, not, ◌||◌, Option, none, some, List, [], ◌∷◌,
  if◌then◌else◌,
}
use forkspacer.Go.{Error, Result, ok, err, errorf, wrap_w, concat}
use forkspacer.Exec.{Exec, ◌>>=◌, ◌>>◌, pure, raise, lift, attempt, map_err, finally}
use forkspacer.Api.Meta.{ObjectMeta, ObjectKey, object_key}
use forkspacer.Api.Workspace.{Workspace, WorkspaceFromReference}
use forkspacer.Api.Module
use forkspacer.Api.Module.{
  Module, ModulePhase, ModuleSpecHelm, ModuleSpecHelmMigration, get_namespace, get_release_name,
}
use forkspacer.Api.Config.{Codec}
use forkspacer.Api.Render.{Engine, render_helm_spec}
use forkspacer.Migration
use forkspacer.Migration.{
  Store, Secret, ConfigMap, Place, Transfer, migrate_secret, migrate_config_map,
}
use forkspacer.Controller.Connection.{ApiConfig, Loader, new_api_config}
use forkspacer.Controller.Workspace.{
  Effect, copy_started, event, Run, Client, acting, emit, wait, latest, request, related_modules,
  hibernate_module_and_wait,
}
use forkspacer.Controller.Workspace.Migrate.{Services, migrate_module_data}

-- the phases in which a module may be copied
abbrev pub is_rested : ModulePhase → Bool
is_rested Module.ready = true
is_rested Module.sleeped = true
is_rested _ = false

abbrev pub all_rested : List Module → Bool
all_rested [] = true
all_rested (m ∷ ms) = let rest = all_rested ms in if is_rested m.status.phase then rest else false

abbrev pub empty_meta : ObjectMeta
empty_meta = record {
  name = "";
  namespace = "";
  generate_name = "";
  uid = "";
  finalizers = [];
  annotations = [];
  deletion_timestamp = none;
}

abbrev without_adoption : ModuleSpecHelm → ModuleSpecHelm
without_adoption helm = record helm { existing_release = none }

-- the new module of a workspace
pub copy_of : Workspace → Module → Module
copy_of dest source = record {
  metadata = record empty_meta {
    namespace = source.metadata.namespace;
    generate_name = concat (source.metadata.name ∷ "-" ∷ []);
  };
  config = source.config;
  spec = record {
    helm = elim source.spec.helm [ none ↦ none | some helm ↦ some (without_adoption helm) ];
    custom = source.spec.custom;
    workspace = record { name = dest.metadata.name; namespace = dest.metadata.namespace };
    config = source.spec.config;
    hibernated = source.spec.hibernated;
  };
  status = record {
    conditions = [];
    phase = Module.unset;
    source = "";
    last_activity = none;
    message = none;
  };
}

-- what the wait for a new module does about its phase: none goes on, some tells whether to go on
-- with the copy
abbrev settled : ModulePhase → Option Bool
settled Module.ready = some true
settled Module.sleeped = some true
settled Module.unset = none
settled Module.installing = none
settled Module.sleeping = none
settled Module.resuming = none
settled Module.uninstalling = some false
settled Module.failed = some false
settled (Module.unknown _) = some false

abbrev settled_as : Result Module → Option Bool
settled_as (ok m) = settled m.status.phase
settled_as (err _) = none

module _ {W K F : Type 0} (c : Client W) (x : Services W K F) where
  -- the loop that starts the goroutines
  abbrev start_copies : Workspace → List Module → Exec (Run W) (Unit {0})
  start_copies dest [] = pure tt
  start_copies dest (m ∷ ms) = let rest = start_copies dest ms in emit c (copy_started m) >> rest

  abbrev start_if : Workspace → List Module → Exec (Run W) (Unit {0})
  start_if dest ms =
      if all_rested ms
      then start_copies dest ms
      else raise (errorf "source module is not ready, cannot fork yet, will retry")

  unfoldable pub fork_workspace : Workspace → Workspace → Exec (Run W) (Unit {0})
  fork_workspace source dest =
      map_err (wrap_w "failed to get related modules for source workspace")
        (related_modules c (object_key source.metadata))
      >>= start_if dest

  -- the wait for the new module, with the number of rounds that are left; nothing if the copy ends
  -- here
  abbrev ended_at :
      Option Bool → Module → Exec (Run W) (Option Module) → Exec (Run W) (Option Module)
  ended_at none m more = wait c 3000 >> more
  ended_at (some true) m more = pure (some m)
  ended_at (some false) m more = pure none

  await_new : ℕ → Module → Exec (Run W) (Option Module)
  await_new zero m = pure (if is_rested m.status.phase then some m else none)
  await_new (suc rounds) m = attempt (acting c (c.get_module (object_key m.metadata))) >>= λ read.
      let more = await_new rounds (latest m read) in ended_at (settled_as read) (latest m read) more

  abbrev noted_failure : Result (Unit {0}) → Exec (Run W) (Unit {0})
  noted_failure (ok _) = pure tt
  noted_failure (err e) = emit c (event "Warning" "DataMigration")

  -- whether the data is copied too; a nil pointer at `From`
  abbrev migrates : Option WorkspaceFromReference → Exec (Run W) Bool
  migrates none = raise (errorf "nil pointer dereference")
  migrates (some from) = pure from.migrate_data

  abbrev migrate_if : Module → Workspace → Workspace → Option Module → Exec (Run W) (Unit {0})
  migrate_if source from_workspace to_workspace none = pure tt
  migrate_if source from_workspace to_workspace (some new) =
      migrates to_workspace.spec.from >>= λ data_too.
      if data_too
      then (attempt (migrate_module_data c x source new from_workspace to_workspace)
          >>= noted_failure)
      else pure tt

  -- a creation that fails is only logged
  abbrev created_as : Module → Workspace → Workspace → Result Module → Exec (Run W) (Unit {0})
  unfolding await_new
  created_as source from_workspace to_workspace (err e) = pure tt
  created_as source from_workspace to_workspace (ok new) =
      wait c 500 >> await_new 180 new >>= migrate_if source from_workspace to_workspace

  -- the body of the goroutine
  pub copy_module : Module → Workspace → Workspace → Exec (Run W) (Unit {0})
  unfolding copy_of await_new
  copy_module source from_workspace to_workspace =
      attempt (acting c (c.create_module (copy_of to_workspace source)))
      >>= created_as source from_workspace to_workspace
