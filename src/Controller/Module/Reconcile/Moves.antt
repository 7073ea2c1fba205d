-- ===== src/Controller/Module/Reconcile/Moves.antt =====
-- The phases that one reconciliation writes, in their order, follow the life cycle of a module.
use forkspacer.Base.{
  String, ◌≡◌, refl, sym, ◌∙◌, ap, Bool, true, not, ◌&&◌, Option, none, List, ◌∷◌, arith,
  Bool-cases, inl, inr,
}
use forkspacer.Go.{Error, Result, ok, err}
use forkspacer.Exec.{Exec, ◌>>=◌, and_then, attempt}
use forkspacer.Api.Meta.{ObjectKey}
use forkspacer.Api.Module.{Module, ModuleStatus, ModulePhase, ready, sleeping, sleeped, resuming}
use forkspacer.Controller.Retry.{retried}
use forkspacer.Controller.Module.{
  Effect, status_written, Sys, Client, ClientLaws, set_phase, write_phase, writing, logged, clock,
  with_status,
}
use forkspacer.Controller.Module.Operations.{sleep_module, resume_module}
use forkspacer.Controller.Module.LifeCycle.{can_move, IsLifeCycle, At}
use forkspacer.Controller.Module.Operations.Runs.{
  RunsIn, RunsIn-bind, RunsIn-attempt, sleep_module-RunsIn, resume_module-RunsIn,
}
use forkspacer.Controller.Module.Reconcile.{
  sleep_if, resume_if, is_ready, is_sleeped, handle_hibernation, or_fail,
}

-- A status write adds its phase, and answers with a module in that phase; a failed one adds
-- nothing.
abbrev pub Wrote : {W : Type 0} → ModulePhase → List Effect → Result Module × Sys W → Type 0
Wrote q es (ok m, t) = (t.trace ≡ status_written q ∷ es) × (m.status.phase ≡ q)
Wrote q es (err _, t) = t.trace ≡ es

module _ {W D M : Type 0} (c : Client W D M) (laws : ClientLaws c) where
  logged-Wrote :
      (q : ModulePhase) (r : Result Module) (w : W) (es : List Effect)
      → ((m : Module) → r ≡ ok m → m.status.phase ≡ q)
      → Wrote q es (logged c (status_written q) r w es)
  logged-Wrote q (ok m) w es h = (refl, h m refl)
  logged-Wrote q (err _) w es h = refl

  update_status-Wrote :
      (q : ModulePhase) (m : Module) (w : W) (es : List Effect)
      → m.status.phase ≡ q
      → Wrote q es
          (writing c (status_written q) (c.update_status m) (record { world = w; trace = es }))
  update_status-Wrote q m w es h =
      logged-Wrote q (c.update_status m w).0 (c.update_status m w).1 es λ m' e.
        ap (λ (x : ModuleStatus). x.phase)
          (laws.status_kept m w m' (c.update_status m w).1
            (ap (λ (r : Result Module). (r, (c.update_status m w).1)) e))
        ∙ h

  write_phase-Wrote :
      (key : ObjectKey) (q : ModulePhase) (message : Option String) (s : Sys W)
      → Wrote q s.trace (write_phase c key q message s)
  write_phase-Wrote key q message s = read (c.get_module key s.world).0 (c.get_module key s.world).1
    where
      read :
          (r : Result Module) (w : W)
          → Wrote q s.trace (
              and_then
                (λ m. clock c >>= λ t.
                  writing c (status_written q) (c.update_status (with_status c q message t m)))
                r
                (record { world = w; trace = s.trace }))
      read (err e) w = refl
      read (ok m) w =
          update_status-Wrote q (with_status c q message (c.now w).0 m) (c.now w).1 s.trace refl

  Wrote-again :
      (q : ModulePhase) (s t : Sys W) (e : Error) (r : Result Module × Sys W)
      → Wrote q s.trace (err e, t)
      → Wrote q t.trace r
      → Wrote q s.trace r
  Wrote-again q s t e r p h = rw (← p) h

  pub set_phase-Wrote :
      (key : ObjectKey) (q : ModulePhase) (message : Option String) (s : Sys W)
      → Wrote q s.trace (set_phase c key q message s)
  unfolding set_phase
  set_phase-Wrote key q message s =
      retried (write_phase c key q message) (λ a r. Wrote q a.trace r)
        (write_phase-Wrote key q message) (Wrote-again q) s _
        (laws.retries (write_phase c key q message) s)

-- On success `K` holds of the value and the state; on an error the trace is still a life cycle from
-- `p`.
abbrev pub Ends : {W A : Type 0} → ModulePhase → (A → Sys W → Type 0) → Result A × Sys W → Type 0
Ends p K (ok a, t) = K a t
Ends p K (err _, t) = IsLifeCycle p t.trace

abbrev pub InPhase : {W : Type 0} → ModulePhase → ModulePhase → Module → Sys W → Type 0
InPhase p q m t = At p q t.trace × (m.status.phase ≡ q)

abbrev pub Known : {W : Type 0} → ModulePhase → Module → Sys W → Type 0
Known p m t = At p m.status.phase t.trace

abbrev pub Follows : {W A : Type 0} → ModulePhase → A → Sys W → Type 0
Follows p a t = IsLifeCycle p t.trace

is_ready_eq : (q : ModulePhase) (b : Bool) → (is_ready q && b) ≡ true → q ≡ ready
is_ready_eq q b h = ground arith

is_sleeped_eq : (q : ModulePhase) (b : Bool) → (is_sleeped q && b) ≡ true → q ≡ sleeped
is_sleeped_eq q b h = ground arith

module _ {W D M : Type 0} (c : Client W D M) (laws : ClientLaws c) (p : ModulePhase) where
  pub Ends-bind :
      {A B : Type 0} (K : A → Sys W → Type 0) (L : B → Sys W → Type 0) (m : Exec (Sys W) A)
      (f : A → Exec (Sys W) B) (s : Sys W)
      → Ends p K (m s)
      → ((a : A) (t : Sys W) → K a t → Ends p L (f a t))
      → Ends p L ((m >>= f) s)
  Ends-bind {A} {B} K L m f s h k = go (m s).0 (m s).1 h
    where
      go : (r : Result A) (t : Sys W) → Ends p K (r, t) → Ends p L (and_then f r t)
      go (ok a) t h = k a t h
      go (err e) t h = h

  pub Ends-runs :
      {A : Type 0} (q : ModulePhase) (m : Exec (Sys W) A) (s : Sys W)
      → RunsIn q m
      → At p q s.trace
      → Ends p (λ _ t. At p q t.trace) (m s)
  Ends-runs {A} q m s runs h = go (m s).0 (m s).1 (runs.at p s h)
    where
      go : (r : Result A) (t : Sys W) → At p q t.trace → Ends p (λ (_ : A) u. At p q u.trace) (r, t)
      go (ok a) t x = x
      go (err e) t x = x.0

  -- A move of the life cycle may be written.
  pub set_phase-Ends :
      (key : ObjectKey) (q q' : ModulePhase) (message : Option String) (s : Sys W)
      → can_move q q' ≡ true
      → At p q s.trace
      → Ends p (InPhase p q') (set_phase c key q' message s)
  set_phase-Ends key q q' message s move h =
      go (set_phase c key q' message s).0 (set_phase c key q' message s).1
        (set_phase-Wrote c laws key q' message s)
    where
      go : (r : Result Module) (t : Sys W) → Wrote q' s.trace (r, t) → Ends p (InPhase p q') (r, t)
      go (ok m) t w = rw w.0 (((rw h.1 move, h.0), refl), w.1)
      go (err x) t w = rw w h.0

  or_fail-RunsIn :
      (q : ModulePhase) (reason : String) (r : Result Module) → RunsIn q (or_fail c reason r)
  or_fail-RunsIn q reason (ok m) = record { at = λ o s x. x }
  or_fail-RunsIn q reason (err e) = record { at = λ o s x. x }

  pub Ends-map :
      {A : Type 0} (K L : A → Sys W → Type 0) (r : Result A) (t : Sys W)
      → Ends p K (r, t)
      → ((a : A) → K a t → L a t)
      → Ends p L (r, t)
  Ends-map K L (ok a) t h k = k a h
  Ends-map K L (err e) t h k = h

  pub known : (q : ModulePhase) (m : Module) (t : Sys W) → InPhase p q m t → Known p m t
  known q m t h = (h.0.0, h.0.1 ∙ sym h.1)

  pub set_phase-Known :
      (key : ObjectKey) (q q' : ModulePhase) (message : Option String) (s : Sys W)
      → can_move q q' ≡ true
      → At p q s.trace
      → Ends p (Known p) (set_phase c key q' message s)
  set_phase-Known key q q' message s move h =
      Ends-map (InPhase p q') (Known p) (set_phase c key q' message s).0
        (set_phase c key q' message s).1 (set_phase-Ends key q q' message s move h)
        λ m x. known q' m (set_phase c key q' message s).1 x

  -- One transition: the phase of the transition, an operation that may fail, the final phase.
  transition :
      (key : ObjectKey) (q during after : ModulePhase) (run : Module → Exec (Sys W) Module)
      (reason : String) (s : Sys W)
      → can_move q during ≡ true
      → can_move during after ≡ true
      → ((m : Module) → RunsIn during (run m))
      → At p q s.trace
      → Ends p (Known p) (
          (set_phase c key during none >>= λ m₁.
          attempt (run m₁) >>= or_fail c reason >>= λ _. set_phase c key after none)
            s)
  transition key q during after run reason s first second runs h =
      Ends-bind (InPhase p during) (Known p) (set_phase c key during none) _ s
        (set_phase-Ends key q during none s first h)
        λ m t at.
          Ends-bind (λ _ u. At p during u.trace) (Known p) (attempt (run m) >>= or_fail c reason) _
            t
            (Ends-runs during _ t
              (RunsIn-bind during (attempt (run m)) (or_fail c reason)
                (RunsIn-attempt during (run m) (runs m)) (or_fail-RunsIn during reason))
              at.0)
            λ _ u now. set_phase-Known key during after none u second now

  sleep_if-Ends :
      (key : ObjectKey) (m : Module) (s : Sys W)
      → Known p m s
      → Ends p (Known p) (sleep_if c key m s)
  unfolding sleep_if
  sleep_if-Ends key m s h = elim (Bool-cases (is_ready m.status.phase && m.spec.hibernated)) [
    | inr no_sleep ↦ rw no_sleep h
    | inl go ↦ rw go (
        transition key ready sleeping sleeped (sleep_module c) "SleepError" s refl refl
          (sleep_module-RunsIn c) (h.0, h.1 ∙ is_ready_eq m.status.phase _ go))
  ]

  resume_if-Ends :
      (key : ObjectKey) (m : Module) (s : Sys W)
      → Known p m s
      → Ends p (Known p) (resume_if c key m s)
  unfolding resume_if
  resume_if-Ends key m s h =
      elim (Bool-cases (is_sleeped m.status.phase && not m.spec.hibernated)) [
        | inr no_resume ↦ rw no_resume h
        | inl go ↦ rw go (
            transition key sleeped resuming ready (resume_module c) "ResumeError" s refl refl
              (resume_module-RunsIn c) (h.0, h.1 ∙ is_sleeped_eq m.status.phase _ go))
      ]

  pub handle_hibernation-Ends :
      (key : ObjectKey) (m : Module) (s : Sys W)
      → Known p m s
      → Ends p (Follows p) (handle_hibernation c key m s)
  unfolding handle_hibernation
  handle_hibernation-Ends key m s h =
      Ends-bind (Known p) (Follows p) (sleep_if c key m >>= resume_if c key) _ s
        (Ends-bind (Known p) (Known p) (sleep_if c key m) (resume_if c key) s
          (sleep_if-Ends key m s h) (λ m' t k. resume_if-Ends key m' t k))
        λ m' t k. k.0
