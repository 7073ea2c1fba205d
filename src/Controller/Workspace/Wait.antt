-- ===== src/Controller/Workspace/Wait.antt =====
-- hibernateModuleAndWait: what its success means, and how long it waits.
use forkspacer.Base.{
  ℕ, zero, suc, ◌+◌, ◌*◌, ◌≤◌, true, ◌≡◌, inl, inr, refl, Option, none, some, List, [], ◌∷◌,
  Bool-cases, arith,
}
use forkspacer.Go.{Result, ok, err}
use forkspacer.Exec.{◌>>◌, and_then}
use forkspacer.Api.Meta.{object_key}
use forkspacer.Api.Module
use forkspacer.Api.Module.{Module, ModulePhase}
use forkspacer.Controller.Workspace.{
  Effect, waited, Run, Client, is_sleeped, decide, latest, verdict, conclude, ended, poll,
  hibernate_module_and_wait, request_sleep, wait,
}

-- the milliseconds that were waited in a trace
abbrev pub waits : List Effect → ℕ
waits [] = 0
waits (waited n ∷ es) = n + waits es
waits (_ ∷ es) = waits es

-- A module that sleeps, or an error; and at most `limit` milliseconds waited on top of a trace.
abbrev pub Slept : {W : Type 0} → ℕ → List Effect → Result Module × Run W → Type 0
Slept limit es (ok m, t) = (m.status.phase ≡ Module.sleeped) × (waits t.trace ≤ limit + waits es)
Slept limit es (err _, t) = waits t.trace ≤ limit + waits es

sleeped_lem : (q : ModulePhase) → is_sleeped q ≡ true → q ≡ Module.sleeped
sleeped_lem q h = ground arith

decide-ok : (q : ModulePhase) (u : Unit {0}) → decide q ≡ some (ok u) → q ≡ Module.sleeped
decide-ok q u h = ground arith

module _ {W : Type 0} (c : Client W) where
  Slept-more :
      (a b : ℕ) (es fs : List Effect) (r : Result Module) (t : Run W)
      → a + waits es ≤ b + waits fs
      → Slept a es (r, t)
      → Slept b fs (r, t)
  Slept-more a b es fs (ok m) t h s = (s.0, omega (arith, h, s.1))
  Slept-more a b es fs (err e) t h s = omega (arith, h, s)

  ended-Slept :
      (n : ℕ) (m : Module) (r : Result (Unit {0})) (s : Run W)
      → decide m.status.phase ≡ some r
      → Slept n s.trace (ended c m r s)
  ended-Slept n m (ok u) s h = (decide-ok m.status.phase u h, omega arith)
  ended-Slept n m (err e) s h = omega arith

  poll-step :
      (n : ℕ)
      → ((m : Module) (s : Run W) → Slept (n * 3000) s.trace (poll c n m s))
      → (m : Module) (s : Run W) → Slept (suc n * 3000) s.trace (poll c (suc n) m s)
  unfolding poll
  poll-step n rest m s =
      after (c.get_module (object_key m.metadata) s.world).0
        (c.get_module (object_key m.metadata) s.world).1
    where
      again :
          (m' : Module) (w : W)
          → Slept
              (suc n * 3000)
              s.trace
              ((wait c 3000 >> poll c n m') (record { world = w; trace = s.trace }))
      again m' w =
          Slept-more (n * 3000) (suc n * 3000) (waited 3000 ∷ s.trace) s.trace _ _ (omega arith)
            (rest m' (record { world = c.sleep 3000 w; trace = waited 3000 ∷ s.trace }))

      decided :
          (m' : Module) (w : W) (v : Option (Result (Unit {0})))
          → decide m'.status.phase ≡ v
          → Slept
              (suc n * 3000)
              s.trace
              (conclude c v m' (poll c n m') (record { world = w; trace = s.trace }))
      decided m' w none h = again m' w
      decided m' w (some r) h =
          ended-Slept (suc n * 3000) m' r (record { world = w; trace = s.trace }) h

      after :
          (read : Result Module) (w : W)
          → Slept (suc n * 3000) s.trace (
              conclude c
                (verdict read)
                (latest m read)
                (poll c n (latest m read))
                (record { world = w; trace = s.trace }))
      after (ok m') w = decided m' w (decide m'.status.phase) refl
      after (err e) w = again m w

  poll-Slept : (n : ℕ) (m : Module) (s : Run W) → Slept (n * 3000) s.trace (poll c n m s)
  unfolding poll
  poll-Slept zero m s = elim (Bool-cases (is_sleeped m.status.phase)) [
    | inl there ↦ rw there (sleeped_lem m.status.phase there, omega arith)
    | inr early ↦ rw early (omega arith)
  ]
  poll-Slept (suc n) m s = poll-step n (poll-Slept n) m s

  request-Slept :
      (r : Result Module) (t : Run W) (es : List Effect)
      → waits t.trace ≡ waits es
      → Slept 540000 es (and_then (poll c 180) r t)
  request-Slept (err e) t es h = omega (arith, h)
  request-Slept (ok m) t es h =
      Slept-more (180 * 3000) 540000 t.trace es _ _ (omega (arith, h)) (poll-Slept 180 m t)

  -- Hibernating a module and waiting for it ends after at most 540 seconds of waiting, in success
  -- only with a module in the phase sleeped as it was last read, and otherwise in an error,
  -- whatever the API server answers.
  pub hibernate_module_and_wait-Slept :
      (m : Module) (s : Run W) → Slept 540000 s.trace (hibernate_module_and_wait c m s)
  unfolding hibernate_module_and_wait
  hibernate_module_and_wait-Slept m s = elim (Bool-cases m.spec.hibernated) [
    | inl asleep ↦
        request-Slept (request_sleep c m s).0 (request_sleep c m s).1 s.trace (rw asleep refl)
    | inr awake ↦
        request-Slept (request_sleep c m s).0 (request_sleep c m s).1 s.trace (rw awake refl)
  ]
