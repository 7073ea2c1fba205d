-- ===== src/Controller/Module/Reconcile.antt =====
-- Reconcile and its handlers, of internal/controller/module_controller.go and module_deletion.go.
-- A result is the delay in seconds after which the request comes back; 0 is `ctrl.Result{}`.
pub mod Moves
pub mod Cycle
pub mod Deletion
pub mod NotReady
pub mod Waiting
use forkspacer.Base.{
  ℕ, ◌-◌, ◌*◌, String, Bool, true, false, not, ◌&&◌, Option, none, some, List, [], ◌∷◌, ltb,
  if◌then◌else◌,
}
use forkspacer.Go.{Error, Result, ok, err, is_not_found, is_workspace_not_ready}
use forkspacer.Exec.{Exec, ◌>>=◌, ◌>>◌, pure, raise, attempt}
use forkspacer.Api.Meta.{ObjectMeta, ObjectKey}
use forkspacer.Api.Module
use forkspacer.Api.Module.{Module, ModulePhase, ModuleStatus}
use forkspacer.Controller.Module.{
  Effect, event, Sys, Client, world_action, emit, clock, set_phase, ensure_finalizer,
  drop_finalizer,
}
use forkspacer.Controller.Module.Operations.{
  install_module, uninstall_module, sleep_module, resume_module,
}

-- 5 * time.Minute
abbrev pub stuck_after : ℕ
stuck_after = 300000000000

abbrev is_ready : ModulePhase → Bool
is_ready Module.ready = true
is_ready _ = false

abbrev is_sleeped : ModulePhase → Bool
is_sleeped Module.sleeped = true
is_sleeped _ = false

-- what handleDeletion does in a phase: go on, or wait
abbrev pub is_settled : ModulePhase → Bool
is_settled Module.ready = true
is_settled Module.failed = true
is_settled Module.sleeped = true
is_settled _ = false

module _ {W D M : Type 0} (c : Client W D M) where
  -- record an event and return the error
  abbrev failing : String → Error → Exec (Sys W) Module
  failing reason e = emit c (event "Warning" reason) >> raise e

  abbrev or_fail : String → Result Module → Exec (Sys W) Module
  or_fail reason (ok m) = pure m
  or_fail reason (err e) = failing reason e

  sleep_if : ObjectKey → Module → Exec (Sys W) Module
  sleep_if key m =
      if is_ready m.status.phase && m.spec.hibernated
      then (set_phase c key Module.sleeping none >>= λ m₁.
          attempt (sleep_module c m₁) >>= or_fail "SleepError" >>= λ _.
          set_phase c key Module.sleeped none)
      else pure m

  resume_if : ObjectKey → Module → Exec (Sys W) Module
  resume_if key m =
      if is_sleeped m.status.phase && not m.spec.hibernated
      then (set_phase c key Module.resuming none >>= λ m₁.
          attempt (resume_module c m₁) >>= or_fail "ResumeError" >>= λ _.
          set_phase c key Module.ready none)
      else pure m

  pub handle_hibernation : ObjectKey → Module → Exec (Sys W) ℕ
  unfolding sleep_if resume_if
  handle_hibernation key m = sleep_if key m >>= resume_if key >>= λ _. pure 2

  -- what follows installModule
  installed : ObjectKey → Result Module → Exec (Sys W) ℕ
  unfolding handle_hibernation
  installed key (ok m) =
      set_phase c key Module.ready (some "Module installed successfully") >>= handle_hibernation key
  installed key (err e) =
      if is_workspace_not_ready e
      then pure 5
      else (emit c (event "Warning" "InstallError")
          >> set_phase c key Module.failed
              (some "Module installation failed. Check events for more information.")
          >>= λ _. pure 0)

  pub handle_empty_phase : ObjectKey → Exec (Sys W) ℕ
  unfolding installed
  handle_empty_phase key = c.retry (ensure_finalizer c key) >>= λ _.
      set_phase c key Module.installing none >>= λ m. attempt (install_module c m) >>= installed key

  abbrev note_failure : Result (Unit {0}) → Exec (Sys W) (Unit {0})
  note_failure (ok _) = pure tt
  note_failure (err e) = emit c (event "Warning" "UninstallError")

  pub handle_deletion : ObjectKey → Module → Exec (Sys W) ℕ
  handle_deletion key m =
      if is_settled m.status.phase
      then (set_phase c key Module.uninstalling none >>= λ m₁.
          attempt (uninstall_module c m₁)
          >>= note_failure
          >> c.retry (drop_finalizer c key)
          >>= λ _. pure 0)
      else pure 2

  abbrev give_up : ObjectKey → Exec (Sys W) ℕ
  give_up key =
      emit c (event "Warning" "PhaseTimeout")
      >> set_phase c key Module.failed (some "Timed out")
      >>= λ _. pure 0

  -- the transitional phases: `now - t` stops at 0, and only a value above the limit matters
  handle_transition : ObjectKey → Option ℕ → Exec (Sys W) ℕ
  handle_transition key none = pure 2
  handle_transition key (some t) =
      clock c >>= λ now. if ltb stuck_after (now - t) then give_up key else pure 2

  -- the `switch` on the phase
  dispatch : ObjectKey → ModulePhase → Module → Exec (Sys W) ℕ
  unfolding handle_empty_phase handle_hibernation handle_transition
  dispatch key Module.unset m = handle_empty_phase key
  dispatch key Module.ready m = handle_hibernation key m
  dispatch key Module.sleeped m = handle_hibernation key m
  dispatch key Module.failed m = pure 0
  dispatch key Module.installing m = handle_transition key m.status.last_activity
  dispatch key Module.uninstalling m = handle_transition key m.status.last_activity
  dispatch key Module.sleeping m = handle_transition key m.status.last_activity
  dispatch key Module.resuming m = handle_transition key m.status.last_activity
  dispatch key (Module.unknown _) m = emit c (event "Warning" "InternalError") >> pure 0

  unless_deleted : ObjectKey → Option ℕ → Module → Exec (Sys W) ℕ
  unfolding dispatch handle_deletion
  unless_deleted key (some _) m = handle_deletion key m
  unless_deleted key none m = dispatch key m.status.phase m

  -- a module that was read
  unfoldable pub reconcile_module : ObjectKey → Module → Exec (Sys W) ℕ
  unfolding unless_deleted
  reconcile_module key m = unless_deleted key m.metadata.deletion_timestamp m

  fetched : ObjectKey → Result Module → Exec (Sys W) ℕ
  unfolding reconcile_module
  fetched key (ok m) = reconcile_module key m
  fetched key (err e) = if is_not_found e then pure 0 else raise e

  pub reconcile : ObjectKey → Exec (Sys W) ℕ
  unfolding fetched
  reconcile key = attempt (world_action c (c.get_module key)) >>= fetched key
