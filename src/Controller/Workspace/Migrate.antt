-- ===== src/Controller/Workspace/Migrate.antt =====
-- internal/controller/workspace_fork.go: migrateModuleData with migratePVCs, migrateSecrets and
-- migrateConfigMaps. The copy of the contents of a volume claim (Migration/Volumes is a model of
-- it) is a parameter, and so are the stores of secrets and config maps. A panic is an error with
-- its text.
pub mod Restore
use forkspacer.Base.{
  ℕ, zero, suc, String, Bool, true, false, not, ◌||◌, Option, none, some, List, [], ◌∷◌,
  if◌then◌else◌,
}
use forkspacer.Go.{Error, Result, ok, err, errorf, wrap_w, concat}
use forkspacer.Exec.{Exec, ◌>>=◌, ◌>>◌, pure, raise, lift, attempt, map_err, finally}
use forkspacer.Api.Meta.{ObjectMeta, ObjectKey, object_key}
use forkspacer.Api.Workspace.{Workspace, WorkspaceFromReference}
use forkspacer.Api.Module
use forkspacer.Api.Module.{
  Module, ModulePhase, ModuleSpecHelm, ModuleSpecHelmMigration, get_namespace, get_release_name,
}
use forkspacer.Api.Config.{Codec}
use forkspacer.Api.Render.{Engine, render_helm_spec}
use forkspacer.Migration
use forkspacer.Migration.{
  Store, Secret, ConfigMap, Place, Transfer, migrate_secret, migrate_config_map,
}
use forkspacer.Controller.Connection.{ApiConfig, Loader, new_api_config}
use forkspacer.Controller.Workspace.{
  Effect, copy_started, event, Run, Client, acting, emit, wait, latest, request, related_modules,
  hibernate_module_and_wait,
}

-- F is the type of floats, K that of clientsets.
pub record Services (W K F : Type 0) : Type 0 where
  pub codec : Codec F
  pub engine : Engine F
  pub loader : Loader W K
  pub secrets : Store W K Secret
  pub config_maps : Store W K ConfigMap
  -- MigratePVC
  pub migrate_pvc : Place → Place → W → Result (Unit {0}) × W

module _ {W K F : Type 0} (c : Client W) (x : Services W K F) where
  abbrev rendered : Option (Result ModuleSpecHelm) → Exec (Run W) ModuleSpecHelm
  rendered none = raise (errorf "nil pointer dereference")
  rendered (some r) = lift r

  -- an action of the migration services, whose trace is left out
  abbrev on_world : {A : Type 0} → Exec W A → Exec (Run W) A
  on_world f s = let (r, w) = f s.world in (r, record s { world = w })

  abbrev transferring : {O : Type 0} → Exec (Transfer W O) (Unit {0}) → Exec W (Unit {0})
  transferring f w = let (r, t) = f (record { world = w; trace = [] }) in (r, t.world)

  -- the loops over the names: a destination that is out of range is a panic, and the error of one
  -- name is only logged
  pub migrate_names :
      (Place → Place → Exec W (Unit {0}))
      → ApiConfig
      → ApiConfig
      → String
      → String
      → List String
      → List String
      → Exec (Run W) (Unit {0})
  migrate_names one source dest from_ns to_ns [] others = pure tt
  migrate_names one source dest from_ns to_ns (name ∷ names) [] =
      raise (errorf "index out of range")
  migrate_names one source dest from_ns to_ns (name ∷ names) (other ∷ others) =
      let rest = migrate_names one source dest from_ns to_ns names others in
      attempt (
        on_world (
          one (record { config = source; namespace = from_ns; name = name })
            (record { config = dest; namespace = to_ns; name = other })))
      >>= λ _. rest

  -- the configs of the source and of the destination, of which the latter is made first
  abbrev both_configs : Workspace → Workspace → Exec (Run W) (ApiConfig × ApiConfig)
  both_configs source dest =
      map_err (wrap_w "failed to get destination kubeconfig")
        (on_world (new_api_config x.loader dest.spec.connection))
      >>= λ to_config.
          map_err (wrap_w "failed to get source kubeconfig")
            (on_world (new_api_config x.loader source.spec.connection))
          >>= λ from_config. pure (from_config, to_config)

  abbrev unless_empty : List String → Exec (Run W) (Unit {0}) → Exec (Run W) (Unit {0})
  unless_empty [] m = pure tt
  unless_empty (_ ∷ _) m = m

  pub migrate_pvcs :
      ModuleSpecHelm → ModuleSpecHelm → Workspace → Workspace → Exec (Run W) (Unit {0})
  unfolding migrate_names
  migrate_pvcs from_helm to_helm source dest = unless_empty from_helm.migration.pvcs (
      both_configs source dest >>= λ configs.
      migrate_names x.migrate_pvc configs.0 configs.1 (get_namespace from_helm)
        (get_namespace to_helm) from_helm.migration.pvcs to_helm.migration.pvcs)

  abbrev or_panic : Option String → Exec (Run W) String
  or_panic none = raise (errorf "nil pointer dereference")
  or_panic (some text) = pure text

  abbrev release_of : Option ModuleSpecHelm → Exec (Run W) String
  release_of none = raise (errorf "nil pointer dereference")
  release_of (some helm) = or_panic (get_release_name helm)

  pub migrate_secrets :
      ModuleSpecHelm → ModuleSpecHelm → Workspace → Workspace → Module → Exec (Run W) (Unit {0})
  unfolding migrate_names
  migrate_secrets from_helm to_helm source dest dest_module =
      unless_empty from_helm.migration.secrets (
        both_configs source dest >>= λ configs. release_of dest_module.spec.helm >>= λ release.
        migrate_names (λ a b. transferring (migrate_secret x.loader x.secrets a b release))
          configs.0 configs.1 (get_namespace from_helm) (get_namespace to_helm)
          from_helm.migration.secrets to_helm.migration.secrets)

  pub migrate_config_maps :
      ModuleSpecHelm → ModuleSpecHelm → Workspace → Workspace → Exec (Run W) (Unit {0})
  unfolding migrate_names
  migrate_config_maps from_helm to_helm source dest = unless_empty from_helm.migration.config_maps (
      both_configs source dest >>= λ configs.
      migrate_names (λ a b. transferring (migrate_config_map x.loader x.config_maps a b)) configs.0
        configs.1 (get_namespace from_helm) (get_namespace to_helm) from_helm.migration.config_maps
        to_helm.migration.config_maps)

  -- what is done while both modules sleep
  abbrev migrate_all :
      ModuleSpecHelm → ModuleSpecHelm → Workspace → Workspace → Module → Exec (Run W) (Unit {0})
  unfolding migrate_pvcs migrate_secrets migrate_config_maps
  migrate_all from_helm to_helm source dest dest_module =
      map_err (wrap_w "failed to migrate PVCs") (migrate_pvcs from_helm to_helm source dest)
      >> map_err (wrap_w "failed to migrate Secrets")
          (migrate_secrets from_helm to_helm source dest dest_module)
      >> map_err (wrap_w "failed to migrate ConfigMaps")
          (migrate_config_maps from_helm to_helm source dest)

  -- the deferred functions; `old` is whether the source was to sleep before
  abbrev wake_dest : Module → Exec (Run W) (Unit {0})
  wake_dest m = request c false m

  abbrev restore_source : Bool → Module → Exec (Run W) (Unit {0})
  restore_source true m = if m.spec.hibernated then pure tt else request c true m
  restore_source false m = if m.spec.hibernated then request c false m else pure tt

  abbrev with_source : Bool → (Module → Exec (Run W) (Unit {0})) → Module → Exec (Run W) (Unit {0})
  with_source old work m = finally (work m) (restore_source old m)

  abbrev with_both : Module → (Module → Exec (Run W) (Unit {0})) → Module → Exec (Run W) (Unit {0})
  with_both source work dest =
      finally
        (hibernate_module_and_wait c source >>= with_source source.spec.hibernated (λ _. work dest))
        (wake_dest dest)

  -- both modules sleep while `work` runs on the destination
  pub while_asleep : Module → Module → (Module → Exec (Run W) (Unit {0})) → Exec (Run W) (Unit {0})
  while_asleep source dest work = hibernate_module_and_wait c dest >>= with_both source work

  abbrev migrate_rendered :
      Module
      → Module
      → Workspace
      → Workspace
      → ModuleSpecHelm
      → ModuleSpecHelm
      → Exec (Run W) (Unit {0})
  unfolding while_asleep
  migrate_rendered source dest from_workspace to_workspace from_helm to_helm =
      unless_empty from_helm.migration.pvcs
        (while_asleep source dest (migrate_all from_helm to_helm from_workspace to_workspace))

  abbrev migrate_helm :
      Option ModuleSpecHelm → Module → Module → Workspace → Workspace → Exec (Run W) (Unit {0})
  unfolding while_asleep
  migrate_helm none source dest from_workspace to_workspace = pure tt
  migrate_helm (some _) source dest from_workspace to_workspace =
      map_err (wrap_w "failed to render source module Helm spec")
        (rendered (render_helm_spec x.codec x.engine source))
      >>= λ from_helm.
          map_err (wrap_w "failed to render destination module Helm spec")
            (rendered (render_helm_spec x.codec x.engine dest))
          >>= migrate_rendered source dest from_workspace to_workspace from_helm

  pub migrate_module_data : Module → Module → Workspace → Workspace → Exec (Run W) (Unit {0})
  unfolding while_asleep
  migrate_module_data source dest from_workspace to_workspace =
      migrate_helm source.spec.helm source dest from_workspace to_workspace
