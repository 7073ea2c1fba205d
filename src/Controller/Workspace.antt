-- ===== src/Controller/Workspace.antt =====
-- internal/controller/workspace_controller.go: the setPhase functions and the hibernation of the
-- modules of a workspace.
-- The API server, the clock and `retry.RetryOnConflict` are parameters. The state is the world that
-- they act on, and a trace of what the reconciler did. Log lines are left out.
pub mod Status
pub mod Hibernation
pub mod Wait
pub mod Migrate
pub mod Fork
pub mod Job
pub mod Setup
pub mod EmptyPhase
pub mod Reconcile
use forkspacer.Base.{
  ℕ, zero, suc, String, Bool, true, false, not, ◌&&◌, Option, none, some, List, [], ◌∷◌,
  if◌then◌else◌, ◌≡◌,
}
use forkspacer.Go.{Error, Result, ok, err, errorf, wrap_w}
use forkspacer.Exec.{Exec, ◌>>=◌, ◌>>◌, pure, raise, attempt, map_err}
use forkspacer.Api.Meta.{ObjectMeta, ObjectKey, object_key}
use forkspacer.Api.Workspace
use forkspacer.Api.Workspace.{Workspace, WorkspacePhase, WorkspaceStatus}
use forkspacer.Api.Module
use forkspacer.Api.Module.{Module, ModulePhase}
use forkspacer.Helm.Service.{HelmEffect}
use forkspacer.Controller.Retry.{Attempts}

-- What the reconciler did: a status written, a patch of a module's `hibernated` sent, a wait of
-- some milliseconds, an event; finalizers written, the deletion of a module sent, a module found to
-- be gone, a goroutine started that copies a module, and what the Helm service was asked.
pub data Effect : Type 0 where
  status_written : WorkspacePhase → Effect
  hibernation_requested : ObjectKey → Bool → Effect
  waited : ℕ → Effect
  event : String → String → Effect
  finalizers_written : List String → Effect
  deletion_requested found_gone : ObjectKey → Effect
  copy_started : Module → Effect
  helm : HelmEffect → Effect

-- `trace` holds the newest effect first.
pub record Run (W : Type 0) : Type 0 where
  pub world : W
  pub trace : List Effect

pub record Client (W : Type 0) : Type 0 where
  pub get_workspace : ObjectKey → W → Result Workspace × W
  pub update_workspace : Workspace → W → Result Workspace × W
  pub patch_workspace : Workspace → Workspace → W → Result Workspace × W
  pub update_status : Workspace → W → Result Workspace × W
  pub list_modules : ObjectKey → W → Result (List Module) × W
  pub get_module : ObjectKey → W → Result Module × W
  pub patch_module : Module → Module → W → Result Module × W
  pub create_module : Module → W → Result Module × W
  pub delete_module : ObjectKey → W → Result (Unit {0}) × W
  pub now : W → ℕ × W
  pub sleep : ℕ → W → W
  pub retry : Exec (Run W) Workspace → Exec (Run W) Workspace

abbrev pub is_some {ℓ} : {A : Type ℓ} → Option A → Bool
is_some none = false
is_some (some _) = true

abbrev pub with_hibernated : Bool → Module → Module
with_hibernated value m = record m { spec = record m.spec { hibernated = value } }

-- what the wait does about a phase: come to an end, or go on
abbrev decide : ModulePhase → Option (Result (Unit {0}))
decide Module.sleeped = some (ok tt)
decide Module.unset = none
decide Module.ready = none
decide Module.installing = none
decide Module.sleeping = none
decide Module.resuming = none
decide Module.uninstalling =
    some (err (errorf "module is uninstalling, cannot proceed with hibernation"))
decide Module.failed = some (err (errorf "module has failed, cannot proceed with hibernation"))
decide (Module.unknown _) = some (err (errorf "unexpected module phase"))

abbrev is_sleeped : ModulePhase → Bool
is_sleeped Module.sleeped = true
is_sleeped _ = false

abbrev latest : Module → Result Module → Module
latest m (ok m') = m'
latest m (err _) = m

-- the phase that was read counts only if reading succeeded
abbrev verdict : Result Module → Option (Result (Unit {0}))
verdict (ok m) = decide m.status.phase
verdict (err _) = none

module _ {W : Type 0} (c : Client W) where
  -- an action of the world alone
  abbrev pub acting : {A : Type 0} → (W → Result A × W) → Exec (Run W) A
  acting f s = let (r, w) = f s.world in (r, record s { world = w })

  abbrev pub emit : Effect → Exec (Run W) (Unit {0})
  emit e s = (ok tt, record s { trace = e ∷ s.trace })

  abbrev pub clock : Exec (Run W) ℕ
  clock s = let (t, w) = c.now s.world in (ok t, record s { world = w })

  -- `n` milliseconds
  abbrev wait : ℕ → Exec (Run W) (Unit {0})
  wait n s = (ok tt, record { world = c.sleep n s.world; trace = waited n ∷ s.trace })

  -- a status update leaves an effect if it succeeds
  abbrev noted : WorkspacePhase → Result Workspace → W → List Effect → Result Workspace × Run W
  noted phase (ok w) world es = (ok w, record { world = world; trace = status_written phase ∷ es })
  noted phase (err e) world es = (err e, record { world = world; trace = es })

  abbrev send_status : Workspace → Exec (Run W) Workspace
  send_status w s =
      let (r, world) = c.update_status w s.world in noted w.status.phase r world s.trace

  -- the function that a setPhase function hands to the retry, with the status that it makes
  abbrev write_status : ObjectKey → Exec (Run W) WorkspaceStatus → Exec (Run W) Workspace
  write_status key make = acting (c.get_workspace key) >>= λ w.
      make >>= λ status. send_status (record w { status = status })

  abbrev plain_status : WorkspacePhase → Bool → Option String → Exec (Run W) WorkspaceStatus
  plain_status phase ready message = clock >>= λ now. pure (record {
    conditions = [];
    phase = phase;
    ready = ready;
    last_activity = some now;
    hibernated_at = none;
    message = message;
  })

  -- two readings of the clock
  abbrev hibernated_status : Option String → Exec (Run W) WorkspaceStatus
  hibernated_status message = clock >>= λ now. clock >>= λ later. pure (record {
    conditions = [];
    phase = Workspace.hibernated;
    ready = true;
    last_activity = some now;
    hibernated_at = some later;
    message = message;
  })

  unfoldable pub set_phase_ready : ObjectKey → Option String → Exec (Run W) Workspace
  set_phase_ready key message =
      c.retry (write_status key (plain_status Workspace.ready true message))

  pub set_phase_failed : ObjectKey → Option String → Exec (Run W) Workspace
  set_phase_failed key message =
      c.retry (write_status key (plain_status Workspace.failed false message))

  pub set_phase_installing : ObjectKey → Option String → Exec (Run W) Workspace
  set_phase_installing key message =
      c.retry (write_status key (plain_status Workspace.installing false message))

  pub set_phase_hibernated : ObjectKey → Option String → Exec (Run W) Workspace
  set_phase_hibernated key message = c.retry (write_status key (hibernated_status message))

  abbrev pub related_modules : ObjectKey → Exec (Run W) (List Module)
  related_modules key =
      map_err (wrap_w "failed to get modules for workspace") (acting (c.list_modules key))

  -- a patch whose failure is only logged
  abbrev request : Bool → Module → Exec (Run W) (Unit {0})
  request value m =
      emit (hibernation_requested (object_key m.metadata) value)
      >> attempt (acting (c.patch_module m (with_hibernated value m)))
      >>= λ _. pure tt

  -- the loop of sleepModules, and that of resumeModules: both test `!module.Spec.Hibernated`
  request_all : Bool → List Module → Exec (Run W) (Unit {0})
  request_all value [] = pure tt
  request_all value (m ∷ ms) = λ s.
      let rest = request_all value ms in
      ((if m.spec.hibernated then pure tt else request value m) >> rest) s

  pub sleep_modules : ObjectKey → Workspace → Exec (Run W) (Unit {0})
  unfolding request_all
  sleep_modules key w =
      if is_some w.status.hibernated_at then pure tt else related_modules key >>= request_all true

  pub resume_modules : ObjectKey → Workspace → Exec (Run W) (Unit {0})
  unfolding request_all
  resume_modules key w =
      if not (is_some w.status.hibernated_at)
      then pure tt
      else related_modules key >>= request_all false

  abbrev gave_up : ObjectKey → String → Error → Exec (Run W) Workspace
  gave_up key message e = set_phase_failed key (some message) >>= λ _.
      emit (event "Warning" "HibernateError") >> raise e

  abbrev slept : ObjectKey → Result (Unit {0}) → Exec (Run W) Workspace
  slept key (ok _) = set_phase_hibernated key none
  slept key (err e) =
      gave_up key "Workspace hibernation failed. Check events for more information." e

  abbrev resumed : ObjectKey → Result (Unit {0}) → Exec (Run W) Workspace
  resumed key (ok _) = set_phase_ready key none
  resumed key (err e) = gave_up key "Workspace resume failed. Check events for more information." e

  -- The result is always `ctrl.Result{}`, so what comes back is the workspace as it was last read.
  pub handle_hibernation : ObjectKey → Workspace → Exec (Run W) Workspace
  unfolding sleep_modules resume_modules set_phase_failed set_phase_hibernated set_phase_ready
  handle_hibernation key w =
      if not (is_some w.status.hibernated_at) && w.spec.hibernated
      then (attempt (sleep_modules key w) >>= slept key)
      else if is_some w.status.hibernated_at && not w.spec.hibernated
      then (attempt (resume_modules key w) >>= resumed key)
      else pure w

  -- hibernateModuleAndWait
  abbrev request_sleep : Module → Exec (Run W) Module
  request_sleep m =
      if m.spec.hibernated
      then pure m
      else (emit (hibernation_requested (object_key m.metadata) true)
          >> acting (c.patch_module m (with_hibernated true m)))

  abbrev ended : Module → Result (Unit {0}) → Exec (Run W) Module
  ended m (ok _) = pure m
  ended m (err e) = raise e

  abbrev conclude : Option (Result (Unit {0})) → Module → Exec (Run W) Module → Exec (Run W) Module
  conclude none m more = wait 3000 >> more
  conclude (some r) m more = ended m r

  -- the loop, with the number of rounds that are left
  poll : ℕ → Module → Exec (Run W) Module
  poll zero m =
      if is_sleeped m.status.phase
      then pure m
      else raise (errorf "timed out waiting for module to become hibernated")
  poll (suc rounds) m = attempt (acting (c.get_module (object_key m.metadata))) >>= λ read.
      let more = poll rounds (latest m read) in conclude (verdict read) (latest m read) more

  pub hibernate_module_and_wait : Module → Exec (Run W) Module
  unfolding poll
  hibernate_module_and_wait m = request_sleep m >>= poll 180

-- What is relied on: the retry calls its function as documented.
pub record ClientLaws {W : Type 0} (c : Client W) : Type 0 where
  pub retries : (m : Exec (Run W) Workspace) (s : Run W) → Attempts m s (c.retry m s)
