-- ===== src/Controller/Module.antt =====
-- internal/controller/module_controller.go, module_deletion.go and module_operations.go: the
-- reconciler of modules.
-- The API server, the clock, `retry.RetryOnConflict` and the managers that install a module are
-- parameters. The state is the world that they act on, and a trace of what the reconciler did.
-- The key of a module stays the key of the request. Log lines are left out.
pub mod LifeCycle
pub mod Operations
pub mod Reconcile
use forkspacer.Base.{
  ℕ, String, Bool, true, false, Option, none, some, List, [], ◌∷◌, Assoc, if◌then◌else◌, ◌≡◌,
}
use forkspacer.Go.{Error, Result, ok, err}
use forkspacer.Exec.{Exec, ◌>>=◌, ◌>>◌, pure, raise, attempt}
use forkspacer.Api.Meta.{ObjectMeta, ObjectKey, contains_finalizer, add_finalizer, remove_finalizer}
use forkspacer.Api.Workspace.{Workspace, WorkspaceConnection}
use forkspacer.Api.Module.{
  Module, ModuleStatus, ModulePhase, ModuleSpec, ModuleSpecHelmExistingRelease,
}
use forkspacer.Controller.Retry.{Attempts}

-- the four operations of `IManager`
pub data Call : Type 0 where
  install uninstall sleep resume : Call

-- What a reconciler did: a status or an object written, a call of a manager, an adoption, an event.
pub data Effect : Type 0 where
  status_written : ModulePhase → Effect
  object_written : List String → Effect
  annotated adopted : Effect
  called : Call → Effect
  event : String → String → Effect

-- `trace` holds the newest effect first.
pub record Sys (W : Type 0) : Type 0 where
  pub world : W
  pub trace : List Effect

-- What adoption reads of a Helm release: the JSON texts of the chart's values and of the release's
-- config, where they are not empty.
pub record Release : Type 0 where
  pub chart_values : Option String
  pub config : Option String

-- D is the type of the managers' metadata, M that of managers.
pub record Client (W D M : Type 0) : Type 0 where
  pub get_module : ObjectKey → W → Result Module × W
  pub get_workspace : ObjectKey → W → Result Workspace × W
  pub update_module : Module → W → Result Module × W
  pub update_status : Module → W → Result Module × W
  pub patch_module : Module → Module → W → Result Module × W
  pub now : W → ℕ × W
  pub retry : Exec (Sys W) Module → Exec (Sys W) Module
  pub parse_meta : String → D
  pub print_meta : D → String
  pub empty_meta : D
  pub is_config : String → Bool
  pub helm_manager : Module → WorkspaceConnection → W → Result M × W
  pub custom_manager : Module → WorkspaceConnection → Option String → D → W → Result (M × D) × W
  pub manager_call : Call → M → D → W → (Result (Unit {0}) × D) × W
  pub get_release : ModuleSpecHelmExistingRelease → WorkspaceConnection → W → Result Release × W

abbrev delete_finalizer : String
delete_finalizer = "delete"

module _ {W D M : Type 0} (c : Client W D M) where
  -- an action of the world alone
  abbrev pub world_action : {A : Type 0} → (W → Result A × W) → Exec (Sys W) A
  world_action f s = let (r, w) = f s.world in (r, record s { world = w })

  abbrev pub emit : Effect → Exec (Sys W) (Unit {0})
  emit e s = (ok tt, record s { trace = e ∷ s.trace })

  -- an action of the world that leaves an effect if it succeeds
  abbrev logged : Effect → Result Module → W → List Effect → Result Module × Sys W
  logged e (ok m) w es = (ok m, record { world = w; trace = e ∷ es })
  logged e (err x) w es = (err x, record { world = w; trace = es })

  abbrev pub writing : Effect → (W → Result Module × W) → Exec (Sys W) Module
  writing e f s = let (r, w) = f s.world in logged e r w s.trace

  abbrev pub clock : Exec (Sys W) ℕ
  clock s = let (t, w) = c.now s.world in (ok t, record s { world = w })

  -- getModuleSourceType (internal/controller/helper.go)
  abbrev source_type : ModuleSpec → String
  source_type spec = elim spec.helm [
    | some helm ↦ elim helm.existing_release [ some _ ↦ "Helm/Adopted" | none ↦ "Helm/Managed" ]
    | none ↦ elim spec.custom [ some _ ↦ "Custom" | none ↦ "Unknown" ]
  ]

  abbrev with_status : ModulePhase → Option String → ℕ → Module → Module
  with_status phase message t m = record m {
    status = record {
      conditions = [];
      phase = phase;
      source = source_type m.spec;
      last_activity = some t;
      message = message;
    };
  }

  -- the function that setPhase hands to the retry
  abbrev write_phase : ObjectKey → ModulePhase → Option String → Exec (Sys W) Module
  write_phase key phase message = world_action (c.get_module key) >>= λ m. clock >>= λ t.
      writing (status_written phase) (c.update_status (with_status phase message t m))

  unfoldable pub set_phase : ObjectKey → ModulePhase → Option String → Exec (Sys W) Module
  set_phase key phase message = c.retry (write_phase key phase message)

  abbrev write_finalizers : ObjectMeta → Module → Exec (Sys W) Module
  write_finalizers meta m =
      writing (object_written meta.finalizers) (c.update_module (record m { metadata = meta }))

  abbrev ensure_finalizer : ObjectKey → Exec (Sys W) Module
  ensure_finalizer key = world_action (c.get_module key) >>= λ m.
      if contains_finalizer m.metadata delete_finalizer
      then pure m
      else write_finalizers (add_finalizer m.metadata delete_finalizer) m

  abbrev drop_finalizer : ObjectKey → Exec (Sys W) Module
  drop_finalizer key = world_action (c.get_module key) >>= λ m.
      if contains_finalizer m.metadata delete_finalizer
      then write_finalizers (remove_finalizer m.metadata delete_finalizer) m
      else pure m

-- What the reconciler relies on: the retry calls its function as documented, and the object that a
-- status update answers with has the status that was sent.
pub record ClientLaws {W D M : Type 0} (c : Client W D M) : Type 0 where
  pub retries : (m : Exec (Sys W) Module) (s : Sys W) → Attempts m s (c.retry m s)
  pub status_kept :
      (m : Module) (w : W) (m' : Module) (w' : W)
      → c.update_status m w ≡ (ok m', w')
      → m'.status ≡ m.status
