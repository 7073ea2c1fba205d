-- ===== src/Controller/Module/Reconcile/Waiting.antt =====
-- A module in a transitional phase: the reconciler waits, or gives up after five minutes.
use forkspacer.Base.{
  subst, sym, ap, ◌∙◌, ℕ, ◌-◌, ◌≡◌, ◌⊎◌, inl, inr, refl, Bool, true, false, Option, none, some,
  List, ◌∷◌, ltb, Bool-cases,
}
use forkspacer.Go.{Result, ok, err}
use forkspacer.Exec.{and_then, pure}
use forkspacer.Api.Meta.{ObjectKey}
use forkspacer.Api.Module.{
  Module, ModulePhase, unset, ready, installing, uninstalling, sleeping, sleeped, resuming, failed,
  unknown,
}
use forkspacer.Controller.Module.{Effect, status_written, event, Sys, Client, ClientLaws, set_phase}
use forkspacer.Controller.Module.Reconcile.{
  dispatch, unless_deleted, handle_transition, give_up, reconcile_module, stuck_after,
}
use forkspacer.Controller.Module.Reconcile.Moves.{Wrote, set_phase-Wrote}

abbrev pub is_transitional : ModulePhase → Bool
is_transitional installing = true
is_transitional uninstalling = true
is_transitional sleeping = true
is_transitional resuming = true
is_transitional _ = false

-- The result of giving up: the module has failed, or writing that did not succeed.
abbrev pub GaveUp : {W : Type 0} → List Effect → Result ℕ × Sys W → Type 0
GaveUp es (ok n, t) =
    (n ≡ 0) × (t.trace ≡ status_written failed ∷ event "Warning" "PhaseTimeout" ∷ es)
GaveUp es (err _, t) = t.trace ≡ event "Warning" "PhaseTimeout" ∷ es

module _ {W D M : Type 0} (c : Client W D M) (laws : ClientLaws c) (key : ObjectKey) where
  give_up-GaveUp : (s : Sys W) → GaveUp s.trace (give_up c key s)
  give_up-GaveUp s =
      go (set_phase c key failed (some "Timed out") s').0
        (set_phase c key failed (some "Timed out") s').1
        (set_phase-Wrote c laws key failed (some "Timed out") s')
    where
      s' : Sys W
      s' = record s { trace = event "Warning" "PhaseTimeout" ∷ s.trace }

      go :
          (r : Result Module) (t : Sys W)
          → Wrote failed s'.trace (r, t)
          → GaveUp s.trace (and_then {A = Module} {B = ℕ} (λ _. pure 0) r t)
      go (ok m) t h = (refl, h.0)
      go (err e) t h = h

  -- What becomes of a module in a transition that started at `t`.
  abbrev pub Waits : ℕ → Sys W → Result ℕ × Sys W → Type 0
  Waits t s r =
      ((ltb stuck_after ((c.now s.world).0 - t) ≡ false)
        × (r ≡ (ok 2, record s { world = (c.now s.world).1 })))
      ⊎ ((ltb stuck_after ((c.now s.world).0 - t) ≡ true) × GaveUp s.trace r)

  handle_transition-Waits : (t : ℕ) (s : Sys W) → Waits t s (handle_transition c key (some t) s)
  unfolding handle_transition
  handle_transition-Waits t s = elim (Bool-cases (ltb stuck_after ((c.now s.world).0 - t))) [
    | inr wait ↦ inl (wait, rw wait refl)
    | inl stuck ↦ inr (stuck, rw stuck (give_up-GaveUp (record s { world = (c.now s.world).1 })))
  ]

  dispatch-transitional :
      (q : ModulePhase) (m : Module) (s : Sys W)
      → is_transitional q ≡ true
      → dispatch c key q m s ≡ handle_transition c key m.status.last_activity s
  unfolding dispatch
  dispatch-transitional installing m s h = refl
  dispatch-transitional uninstalling m s h = refl
  dispatch-transitional sleeping m s h = refl
  dispatch-transitional resuming m s h = refl
  dispatch-transitional unset m s h = cc
  dispatch-transitional ready m s h = cc
  dispatch-transitional sleeped m s h = cc
  dispatch-transitional failed m s h = cc
  dispatch-transitional (unknown x) m s h = cc

  unless_deleted-transitional :
      (d : Option ℕ) (m : Module) (s : Sys W)
      → d ≡ none
      → is_transitional m.status.phase ≡ true
      → unless_deleted c key d m s ≡ handle_transition c key m.status.last_activity s
  unfolding unless_deleted
  unless_deleted-transitional none m s alive h = dispatch-transitional m.status.phase m s h
  unless_deleted-transitional (some t) m s alive h = cc

  -- Under ClientLaws, a module that is not being deleted and is in a transition since `t` is left
  -- alone: up to five minutes after `t` nothing is done and the request comes back in two seconds;
  -- later the module is set to failed after an event, or the error of writing that is returned. The
  -- manager is called in neither case.
  pub reconcile_module-transitional :
      (m : Module) (s : Sys W) (t : ℕ)
      → m.metadata.deletion_timestamp ≡ none
      → is_transitional m.status.phase ≡ true
      → m.status.last_activity ≡ some t
      → Waits t s (reconcile_module c key m s)
  unfolding reconcile_module
  reconcile_module-transitional m s t alive moving since =
      subst (Waits t s)
        (sym (
          unless_deleted-transitional m.metadata.deletion_timestamp m s alive moving
          ∙ ap (λ (l : Option ℕ). handle_transition c key l s) since))
        (handle_transition-Waits t s)
