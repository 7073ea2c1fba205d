-- ===== src/Controller/Module/Reconcile/Cycle.antt =====
-- Every reconciliation of a module keeps to the life cycle.
use forkspacer.Base.{
  ℕ, String, ◌≡◌, refl, ◌∙◌, true, ltb, ◌-◌, Option, none, some, [], Bool-cases, inl, inr, arith,
}
use forkspacer.Go.{Result, ok, err, is_workspace_not_ready}
use forkspacer.Exec.{Exec, ◌>>=◌, ◌>>◌, attempt, pure}
use forkspacer.Api.Meta.{ObjectKey}
use forkspacer.Api.Module.{
  Module, ModulePhase, unset, ready, installing, uninstalling, sleeping, sleeped, resuming, failed,
  unknown,
}
use forkspacer.Controller.Retry.{retried}
use forkspacer.Controller.Module.{
  Sys, Client, ClientLaws, set_phase, ensure_finalizer, drop_finalizer, emit, event,
}
use forkspacer.Controller.Module.Operations.{install_module, uninstall_module}
use forkspacer.Controller.Module.LifeCycle.{can_move, IsLifeCycle, At}
use forkspacer.Controller.Module.Operations.Runs.{
  RunsIn, RunsIn-bind, RunsIn-attempt, install_module-RunsIn, uninstall_module-RunsIn,
}
use forkspacer.Controller.Module.Reconcile.{
  handle_hibernation, installed, handle_empty_phase, handle_deletion, handle_transition, dispatch,
  unless_deleted, reconcile_module, note_failure, is_settled, stuck_after,
}
use forkspacer.Controller.Module.Reconcile.Moves.{
  Ends, InPhase, Known, Follows, Ends-bind, Ends-runs, set_phase-Ends, set_phase-Known,
  handle_hibernation-Ends,
}

Ends-Follows :
    {W A : Type 0} (p : ModulePhase) (r : Result A) (t : Sys W)
    → Ends p (Follows p) (r, t)
    → IsLifeCycle p t.trace
Ends-Follows p (ok a) t h = h
Ends-Follows p (err e) t h = h

-- Retrying a function that runs in a phase runs in it.
retry-RunsIn :
    {W D M : Type 0} (c : Client W D M) (laws : ClientLaws c) (q : ModulePhase)
    (m : Exec (Sys W) Module)
    → RunsIn q m
    → RunsIn q (c.retry m)
retry-RunsIn {W} c laws q m h = record {
  at = λ p s.
      retried m (λ a r. At p q a.trace → At p q r.1.trace) (h.at p) (λ a b e r x y z. y (x z)) s
        (c.retry m s) (laws.retries m s);
}

module _ {W D M : Type 0} (c : Client W D M) (laws : ClientLaws c) (key : ObjectKey) where
  ensure_finalizer-RunsIn : RunsIn unset (ensure_finalizer c key)
  ensure_finalizer-RunsIn = record { at = λ p s x. ground arith }

  drop_finalizer-RunsIn : RunsIn uninstalling (drop_finalizer c key)
  drop_finalizer-RunsIn = record { at = λ p s x. ground arith }

  note_failure-RunsIn : (r : Result (Unit {0})) → RunsIn uninstalling (note_failure c r)
  note_failure-RunsIn (ok _) = record { at = λ p s x. x }
  note_failure-RunsIn (err e) = record { at = λ p s x. x }

  module _ (p : ModulePhase) where
    failed-Ends :
        (q : ModulePhase) (reason : String) (message : Option String) (s : Sys W)
        → can_move q failed ≡ true
        → At p q s.trace
        → Ends {A = ℕ} p
            (Follows p)
            ((emit c (event "Warning" reason) >> set_phase c key failed message >>= λ _. pure 0) s)
    failed-Ends q reason message s move h =
        Ends-bind c laws p (InPhase p failed) (Follows p)
          (emit c (event "Warning" reason) >> set_phase c key failed message) (λ _. pure 0) s
          (Ends-bind c laws p (λ _ t. At p q t.trace) (InPhase p failed)
            (emit c (event "Warning" reason)) (λ _. set_phase c key failed message) s h
            (λ _ t at. set_phase-Ends c laws p key q failed message t move at))
          (λ m t at. at.0.0)

    installed-Ends :
        (r : Result Module) (s : Sys W)
        → At p installing s.trace
        → Ends p (Follows p) (installed c key r s)
    unfolding installed
    installed-Ends (ok m) s h =
        Ends-bind c laws p (Known p) (Follows p)
          (set_phase c key ready (some "Module installed successfully")) (handle_hibernation c key)
          s (set_phase-Known c laws p key installing ready _ s refl h)
          (λ m' t k. handle_hibernation-Ends c laws p key m' t k)
    installed-Ends (err e) s h = elim (Bool-cases (is_workspace_not_ready e)) [
      | inl wait ↦ rw wait h.0
      | inr no_wait ↦ rw no_wait (failed-Ends installing "InstallError" _ s refl h)
    ]

    handle_empty_phase-Ends :
        (s : Sys W) → At p unset s.trace → Ends p (Follows p) (handle_empty_phase c key s)
    unfolding handle_empty_phase
    handle_empty_phase-Ends s h =
        Ends-bind c laws p (λ _ t. At p unset t.trace) (Follows p)
          (c.retry (ensure_finalizer c key)) _ s
          (Ends-runs c laws p unset _ s (retry-RunsIn c laws unset _ ensure_finalizer-RunsIn) h)
          λ _ t at.
            Ends-bind c laws p (InPhase p installing) (Follows p) (set_phase c key installing none)
              _ t (set_phase-Ends c laws p key unset installing none t refl at)
              λ m u at'.
                Ends-bind c laws p (λ _ v. At p installing v.trace) (Follows p)
                  (attempt (install_module c m)) (installed c key) u
                  (Ends-runs c laws p installing _ u
                    (RunsIn-attempt installing (install_module c m) (install_module-RunsIn c m))
                    at'.0)
                  (λ r v x. installed-Ends r v x)

    is_settled_move : (q : ModulePhase) → is_settled q ≡ true → can_move q uninstalling ≡ true
    is_settled_move q h = ground arith

    handle_deletion-Ends :
        (m : Module) (s : Sys W) → Known p m s → Ends p (Follows p) (handle_deletion c key m s)
    unfolding handle_deletion
    handle_deletion-Ends m s h = elim (Bool-cases (is_settled m.status.phase)) [
      | inr wait ↦ rw wait h.0
      | inl go ↦ rw go (
          Ends-bind c laws p (InPhase p uninstalling) (Follows p)
            (set_phase c key uninstalling none) _ s
            (set_phase-Ends c laws p key m.status.phase uninstalling none s
              (is_settled_move m.status.phase go) h)
            λ m₁ t at.
              Ends-bind c laws p (λ _ u. At p uninstalling u.trace) (Follows p)
                (attempt (uninstall_module c m₁)
                  >>= note_failure c
                  >> c.retry (drop_finalizer c key))
                (λ _. pure 0) t
                (Ends-runs c laws p uninstalling _ t
                  (RunsIn-bind uninstalling _ _
                    (RunsIn-bind uninstalling _ _
                      (RunsIn-attempt uninstalling (uninstall_module c m₁)
                        (uninstall_module-RunsIn c m₁))
                      note_failure-RunsIn)
                    (λ _.
                      retry-RunsIn c laws uninstalling (drop_finalizer c key)
                        drop_finalizer-RunsIn))
                  at.0)
                (λ _ u now. now.0))
    ]

    handle_transition-Ends :
        (q : ModulePhase) (last : Option ℕ) (s : Sys W)
        → can_move q failed ≡ true
        → At p q s.trace
        → Ends p (Follows p) (handle_transition c key last s)
    unfolding handle_transition
    handle_transition-Ends q none s move h = h.0
    handle_transition-Ends q (some t) s move h =
        elim (Bool-cases (ltb stuck_after ((c.now s.world).0 - t))) [
          | inr wait ↦ rw wait h.0
          | inl stuck ↦ rw stuck (
              failed-Ends q "PhaseTimeout" (some "Timed out")
                (record s { world = (c.now s.world).1 }) move h)
        ]

    dispatch-Ends :
        (q : ModulePhase) (m : Module) (s : Sys W)
        → m.status.phase ≡ q
        → Known p m s
        → Ends p (Follows p) (dispatch c key q m s)
    unfolding dispatch
    dispatch-Ends unset m s e h = handle_empty_phase-Ends s (h.0, h.1 ∙ e)
    dispatch-Ends ready m s e h = handle_hibernation-Ends c laws p key m s h
    dispatch-Ends sleeped m s e h = handle_hibernation-Ends c laws p key m s h
    dispatch-Ends failed m s e h = h.0
    dispatch-Ends installing m s e h =
        handle_transition-Ends installing m.status.last_activity s refl (h.0, h.1 ∙ e)
    dispatch-Ends uninstalling m s e h =
        handle_transition-Ends uninstalling m.status.last_activity s refl (h.0, h.1 ∙ e)
    dispatch-Ends sleeping m s e h =
        handle_transition-Ends sleeping m.status.last_activity s refl (h.0, h.1 ∙ e)
    dispatch-Ends resuming m s e h =
        handle_transition-Ends resuming m.status.last_activity s refl (h.0, h.1 ∙ e)
    dispatch-Ends (unknown x) m s e h = h.0

  unless_deleted-Ends :
      (d : Option ℕ) (m : Module) (s : Sys W)
      → Known m.status.phase m s
      → Ends m.status.phase (Follows m.status.phase) (unless_deleted c key d m s)
  unfolding unless_deleted
  unless_deleted-Ends (some _) m s h = handle_deletion-Ends m.status.phase m s h
  unless_deleted-Ends none m s h = dispatch-Ends m.status.phase m.status.phase m s refl h

  -- Under ClientLaws, whatever else the API server and the managers do, a reconciliation of a
  -- module that starts with an empty trace keeps to the life cycle from the phase in which the
  -- module was read: each status that it writes is a move from the one before, the manager
  -- installs, uninstalls, puts to sleep and resumes in the transitional phase of that operation
  -- alone, a release is adopted while installing, and finalizers are written before the first phase
  -- or while uninstalling.
  pub reconcile_module-IsLifeCycle :
      (m : Module) (s : Sys W)
      → s.trace ≡ []
      → IsLifeCycle m.status.phase (reconcile_module c key m s).1.trace
  unfolding reconcile_module
  reconcile_module-IsLifeCycle m s fresh =
      Ends-Follows m.status.phase (reconcile_module c key m s).0 (reconcile_module c key m s).1
        (unless_deleted-Ends m.metadata.deletion_timestamp m s (rw fresh (tt, refl)))
