-- ===== src/Controller/Workspace/Reconcile.antt =====
-- internal/controller/workspace_controller.go: Reconcile and handleDeletion. The state has the two
-- cron managers besides that of the other functions. A result is the delay in seconds after which
-- the request comes back; 0 is `ctrl.Result{}`. Both cron managers read one time in a
-- reconciliation.
pub mod Handled
pub mod Deletion
pub mod Fuel
pub mod Requeue
use forkspacer.Base.{
  ℕ, zero, suc, ◌+◌, String, Bool, true, false, not, Option, none, some, List, [], ◌∷◌, ◌++◌, map,
  ltb, if◌then◌else◌,
}
use forkspacer.Go.{Error, Result, ok, err, wrap_w, is_not_found}
use forkspacer.Exec.{Exec, ◌>>=◌, ◌>>◌, pure, raise, attempt, map_err}
use forkspacer.Api.Meta.{
  ObjectMeta, ObjectKey, object_key, contains_finalizer, add_finalizer, remove_finalizer,
}
use forkspacer.Api.Workspace
use forkspacer.Api.Workspace.{
  Workspace, WorkspacePhase, WorkspaceType, WorkspaceFromReference, WorkspaceAutoHibernation,
}
use forkspacer.Api.Module.{Module}
use forkspacer.Helm.Service.{HelmEffect, HelmRun, Sdk}
use forkspacer.Controller.Cron
use forkspacer.Controller.Cron.{
  CronManager, Scheduler, Outcome, blocked, done, remove_cron, handle_auto_hibernation,
}
use forkspacer.Controller.Managed.{Environment, Admin, install_vcluster, uninstall_vcluster}
use forkspacer.Controller.Workspace.{
  Effect, finalizers_written, deletion_requested, found_gone, event, helm, Run, Client, acting,
  emit, clock, wait, set_phase_ready, set_phase_failed, set_phase_installing, set_phase_hibernated,
  related_modules, handle_hibernation,
}
use forkspacer.Controller.Workspace.Migrate.{Services}
use forkspacer.Controller.Workspace.Fork.{fork_workspace}
use forkspacer.Controller.Workspace.Setup.{Setup, is_managed, with_helm, drop_finalizer}
use forkspacer.Controller.Workspace.EmptyPhase.{handle_empty_phase}

-- the phases in which handleDeletion goes on
abbrev pub is_deletable : WorkspacePhase → Bool
is_deletable Workspace.ready = true
is_deletable Workspace.hibernated = true
is_deletable Workspace.failed = true
is_deletable _ = false

-- 60 * time.Second
abbrev pub deletion_timeout : ℕ
deletion_timeout = 60000000000

-- the fuel of the wait for a module to be gone
abbrev pub rounds : ℕ
rounds = 31

-- A call of Get that finds nothing.
abbrev is_gone : Result Module → Bool
is_gone (ok _) = false
is_gone (err e) = is_not_found e

module _ {W K C V F S T : Type 0} (x : Setup W K C V F S T) where
  -- one round of the wait for a module to be gone, before the deadline
  abbrev looked : ObjectKey → Result Module → Exec (Run W) Bool → Exec (Run W) Bool
  looked key read more =
      if is_gone read
      then (emit x.client (found_gone key) >> pure true)
      else (wait x.client 2000 >> more)

  abbrev before : ℕ → ℕ → Exec (Run W) Bool → Exec (Run W) Bool
  before deadline now round = if ltb now deadline then round else pure false

  -- the wait, on fuel: each round waits two seconds, so 31 rounds reach the deadline
  pub await_gone : ℕ → ℕ → ObjectKey → Exec (Run W) Bool
  await_gone zero deadline key = pure false
  await_gone (suc fuel) deadline key =
      let more = await_gone fuel deadline key in
      clock x.client >>= λ now.
      before deadline now
        (attempt (acting x.client (x.client.get_module key)) >>= λ read. looked key read more)

  abbrev unless_gone : Bool → Exec (Run W) (Unit {0})
  unless_gone true = pure tt
  unless_gone false = emit x.client (event "Warning" "ModuleDeletionTimeout")

  abbrev deletion_sent : ObjectKey → Result (Unit {0}) → Exec (Run W) (Unit {0})
  deletion_sent key (err e) = pure tt
  deletion_sent key (ok _) =
      clock x.client >>= λ now. await_gone rounds (now + deletion_timeout) key >>= unless_gone

  abbrev delete_module : Module → Exec (Run W) (Unit {0})
  delete_module m =
      emit x.client (deletion_requested (object_key m.metadata))
      >> attempt (acting x.client (x.client.delete_module (object_key m.metadata)))
      >>= deletion_sent (object_key m.metadata)

  -- the loop over the modules
  pub delete_modules : List Module → Exec (Run W) (Unit {0})
  unfolding await_gone
  delete_modules [] = pure tt
  delete_modules (m ∷ ms) = let rest = delete_modules ms in delete_module m >> rest

  abbrev vcluster_removed : Result (Unit {0}) → Exec (Run W) (Unit {0})
  vcluster_removed (ok _) = emit x.client (event "Normal" "VClusterUninstalled")
  vcluster_removed (err e) = emit x.client (event "Warning" "VClusterUninstallError")

  pub remove_vcluster : Workspace → Exec (Run W) (Unit {0})
  remove_vcluster w =
      if is_managed w.spec.type
      then (attempt
            (with_helm x (uninstall_vcluster x.admin x.services.loader x.sdk x.env w.metadata.name))
          >>= vcluster_removed)
      else pure tt

  abbrev pub release : ObjectKey → Exec (Run W) ℕ
  release key = x.client.retry (drop_finalizer x key) >>= λ _. pure 0

  -- what follows the removal of the cron entries
  pub clean_up : ObjectKey → Workspace → List Module → Exec (Run W) ℕ
  unfolding delete_modules remove_vcluster
  clean_up key w ms = delete_modules ms >> remove_vcluster w >> release key

  -- The state of a reconciliation: the managers for sleeping and for resuming besides the run.
  abbrev pub State : Type 0
  State = Run W × (CronManager T × CronManager T)

  abbrev listed :
      ObjectKey
      → Workspace
      → Result (List Module)
      → Run W
      → CronManager T × CronManager T
      → Outcome (Result ℕ × State)
  unfolding clean_up
  listed key w (err e) s managers = done (err e, (s, managers))
  listed key w (ok ms) s (sleep, resume) =
      Cron.◌>>=◌ (remove_cron x.scheduler w.metadata.uid sleep) (λ sleep'.
        Cron.◌>>=◌ (remove_cron x.scheduler w.metadata.uid resume)
          (λ resume'. let (r, t) = clean_up key w ms s in done (r, (t, (sleep', resume')))))

  pub handle_deletion : ObjectKey → Workspace → State → Outcome (Result ℕ × State)
  unfolding clean_up
  handle_deletion key w (s, managers) =
      if is_deletable w.status.phase
      then (let (r, t) = related_modules x.client (object_key w.metadata) s in
          listed key w r t managers)
      else done (ok 2, (s, managers))

  -- What follows the handler of a phase: handleAutoHibernation, whose result is always
  -- `ctrl.Result{}`, in the place of the handler's own.
  abbrev then_schedule : ℕ → Result Workspace → State → Outcome (Result ℕ × State)
  then_schedule now (err e) state = done (err e, state)
  then_schedule now (ok w) (s, managers) =
      Cron.◌>>=◌
        (handle_auto_hibernation x.scheduler w.metadata.uid now w.spec.auto_hibernation managers)
        (λ managers'. done (ok 0, (s, managers')))

  abbrev second : Result (ℕ × Workspace) → Result Workspace
  second (ok p) = ok p.1
  second (err e) = err e

  -- the `switch` on the phase, at the time `now`
  dispatch : ObjectKey → ℕ → WorkspacePhase → Workspace → State → Outcome (Result ℕ × State)
  unfolding handle_empty_phase
  dispatch key now Workspace.unset w (s, managers) =
      let (r, t) = handle_empty_phase x key s in then_schedule now (second r) (t, managers)
  dispatch key now Workspace.ready w (s, managers) =
      let (r, t) = handle_hibernation x.client key w s in then_schedule now r (t, managers)
  dispatch key now Workspace.hibernated w (s, managers) =
      let (r, t) = handle_hibernation x.client key w s in then_schedule now r (t, managers)
  dispatch key now Workspace.installing w state = done (ok 5, state)
  dispatch key now Workspace.failed w state = done (ok 0, state)
  dispatch key now Workspace.terminating w state = done (ok 0, state)
  dispatch key now (Workspace.unknown _) w state = done (ok 0, state)

  unless_deleted : ObjectKey → ℕ → Option ℕ → Workspace → State → Outcome (Result ℕ × State)
  unfolding dispatch handle_deletion
  unless_deleted key now (some _) w state = handle_deletion key w state
  unless_deleted key now none w state = dispatch key now w.status.phase w state

  abbrev fetched : ObjectKey → ℕ → Result Workspace → State → Outcome (Result ℕ × State)
  unfolding unless_deleted
  fetched key now (ok w) state = unless_deleted key now w.metadata.deletion_timestamp w state
  fetched key now (err e) state = if is_not_found e then done (ok 0, state) else done (err e, state)

  pub reconcile : ObjectKey → ℕ → State → Outcome (Result ℕ × State)
  unfolding unless_deleted
  reconcile key now (s, managers) =
      let (r, t) = acting x.client (x.client.get_workspace key) s in fetched key now r (t, managers)
