-- ===== src/Controller/Workspace/Reconcile/Fuel.antt =====
-- The wait for a module to be gone has enough fuel.
use forkspacer.Base.{
  ℕ, zero, suc, ◌+◌, ◌*◌, ◌≤◌, ◌<◌, Bool, true, ◌≡◌, inl, inr, refl, List, ◌∷◌, ltb, Bool-cases,
  arith,
}
use forkspacer.Go.{Result}
use forkspacer.Exec.{Exec}
use forkspacer.Api.Meta.{ObjectKey}
use forkspacer.Api.Module.{Module}
use forkspacer.Controller.Workspace.{Effect, waited, Run, Client}
use forkspacer.Controller.Workspace.Setup.{Setup}
use forkspacer.Controller.Workspace.Reconcile.{
  await_gone, is_gone, looked, rounds, deletion_timeout,
}

-- The clock reads the time of the world, in nanoseconds, which no call turns back, and `sleep`
-- waits at least as many milliseconds as it is told.
pub record ClockLaws {W : Type 0} (c : Client W) : Type 0 where
  pub time : W → ℕ
  pub now_reads : (w : W) → (c.now w).0 ≡ time (c.now w).1
  pub now_forward : (w : W) → time w ≤ time (c.now w).1
  pub get_forward : (key : ObjectKey) (w : W) → time w ≤ time (c.get_module key w).1
  pub sleeps : (n : ℕ) (w : W) → time w + n * 1000000 ≤ time (c.sleep n w)

module _ {W K C V F S T : Type 0} (x : Setup W K C V F S T) (laws : ClockLaws x.client) where
  late_lem : (now deadline : ℕ) → ltb now deadline ≡ true → now < deadline
  late_lem now deadline h = ground arith

  -- A round that goes on in the same way is the same.
  looked-same :
      (key : ObjectKey) (r : Result Module) (f g : Exec (Run W) Bool) (w : W) (es : List Effect)
      → f (record { world = x.client.sleep 2000 w; trace = waited 2000 ∷ es })
        ≡ g (record { world = x.client.sleep 2000 w; trace = waited 2000 ∷ es })
      → looked x key r f (record { world = w; trace = es })
        ≡ looked x key r g (record { world = w; trace = es })
  looked-same key r f g w es h = elim (Bool-cases (is_gone r)) [
    | inl gone_now ↦ rw gone_now refl
    | inr there ↦ rw there h
  ]

  await_gone-fuel :
      (fuel n deadline : ℕ) (key : ObjectKey) (s : Run W)
      → fuel ≤ n
      → deadline ≤ laws.time s.world + fuel * 2000000000
      → await_gone x (suc n) deadline key s ≡ await_gone x (suc fuel) deadline key s
  unfolding await_gone
  await_gone-fuel zero n deadline key s less near =
      elim (Bool-cases (ltb (x.client.now s.world).0 deadline)) [
        | inl early ↦
            let no : ⊥ = omega (
              arith,
              near,
              late_lem (x.client.now s.world).0 deadline early,
              laws.now_forward s.world,
              laws.now_reads s.world,
            ) in
            elim no [ ]
        | inr late ↦ rw late refl
      ]
  await_gone-fuel (suc fuel) zero deadline key s less near =
      let no : ⊥ = omega (arith, less) in elim no [ ]
  await_gone-fuel (suc fuel) (suc n) deadline key s less near =
      let now = x.client.now s.world in
      let read = x.client.get_module key now.1 in
      let later : Run W = record {
        world = x.client.sleep 2000 read.1;
        trace = waited 2000 ∷ s.trace;
      } in
      elim (Bool-cases (ltb now.0 deadline)) [
        | inl early ↦ rw early (
            looked-same key read.0 (await_gone x (suc n) deadline key)
              (await_gone x (suc fuel) deadline key) read.1 s.trace
              (await_gone-fuel fuel n deadline key later (omega (arith, less)) (
                omega (
                  arith,
                  near,
                  laws.now_forward s.world,
                  laws.get_forward key now.1,
                  laws.sleeps 2000 read.1,
                ))))
        | inr late ↦ rw late refl
      ]

  -- Under ClockLaws: the wait for a deleted module, from a state at or after the reading of the
  -- clock that its deadline is counted from, ends the same whatever more than its 31 rounds it is
  -- allowed, so these are enough.
  pub await_gone-rounds :
      (n started : ℕ) (key : ObjectKey) (s : Run W)
      → rounds ≤ n
      → started ≤ laws.time s.world
      → await_gone x n (started + deletion_timeout) key s
        ≡ await_gone x rounds (started + deletion_timeout) key s
  await_gone-rounds zero started key s more after = let no : ⊥ = omega (arith, more) in elim no [ ]
  await_gone-rounds (suc n) started key s more after =
      await_gone-fuel 30 n (started + deletion_timeout) key s (omega (arith, more))
        (omega (arith, after))
