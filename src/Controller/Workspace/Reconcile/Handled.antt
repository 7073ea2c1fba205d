-- ===== src/Controller/Workspace/Reconcile/Handled.antt =====
-- The deletion of the modules of a workspace: what each of them costs.
use forkspacer.Base.{
  ℕ, zero, suc, ◌+◌, ◌≤◌, Bool, true, false, ◌≡◌, inl, inr, refl, sym, ap, subst, List, [], ◌∷◌,
  ltb, Bool-cases, arith,
}
use forkspacer.Go.{Result, ok, err}
use forkspacer.Exec.{Exec, and_then}
use forkspacer.Api.Meta.{ObjectKey, object_key}
use forkspacer.Api.Module.{Module}
use forkspacer.Controller.Workspace.{Effect, deletion_requested, found_gone, waited, event, Run}
use forkspacer.Controller.Workspace.Setup.{Setup}
use forkspacer.Controller.Workspace.Reconcile.{
  is_gone, await_gone, rounds, unless_gone, deletion_sent, delete_module, delete_modules,
  deletion_timeout, looked,
}

-- `n` waits of two seconds
abbrev pub pauses : ℕ → List Effect → List Effect
pauses zero es = es
pauses (suc n) es = pauses n (waited 2000 ∷ es)

-- What one module costs, between the effects before and after: its deletion was refused; or it was
-- found to be gone after at most 31 waits; or it was not, which an event tells.
pub data Handled (key : ObjectKey) : List Effect → List Effect → Type 0 where
  refused : (es : List Effect) → Handled key es (deletion_requested key ∷ es)
  gone :
      (n : ℕ) (es : List Effect)
      → n ≤ rounds
      → Handled key es (found_gone key ∷ pauses n (deletion_requested key ∷ es))
  timed_out :
      (n : ℕ) (es : List Effect)
      → n ≤ rounds
      → Handled key es
          (event "Warning" "ModuleDeletionTimeout" ∷ pauses n (deletion_requested key ∷ es))

-- all modules, in their order
pub data AllHandled : List Module → List Effect → List Effect → Type 0 where
  nothing_left : (es : List Effect) → AllHandled [] es es
  next :
      (m : Module) (ms : List Module) (es fs gs : List Effect)
      → Handled (object_key m.metadata) es fs
      → AllHandled ms fs gs
      → AllHandled (m ∷ ms) es gs

module _ {W K C V F S T : Type 0} (x : Setup W K C V F S T) where
  abbrev Waited : ObjectKey → ℕ → List Effect → Result Bool × Run W → Type 0
  Waited key fuel es (ok true, t) = (n : ℕ) × (n ≤ fuel) × (t.trace ≡ found_gone key ∷ pauses n es)
  Waited key fuel es (ok false, t) = (n : ℕ) × (n ≤ fuel) × (t.trace ≡ pauses n es)
  Waited key fuel es (err e, t) = ⊥

  later_lem :
      (key : ObjectKey) (fuel : ℕ) (es : List Effect) (r : Result Bool) (t : Run W)
      → Waited key fuel (waited 2000 ∷ es) (r, t)
      → Waited key (suc fuel) es (r, t)
  later_lem key fuel es (ok true) t (n, bound, h) = (suc n, omega (arith, bound), h)
  later_lem key fuel es (ok false) t (n, bound, h) = (suc n, omega (arith, bound), h)
  later_lem key fuel es (err e) t h = h

  looked-Waited :
      (fuel deadline : ℕ) (key : ObjectKey) (es : List Effect)
      → ((s : Run W) → Waited key fuel s.trace (await_gone x fuel deadline key s))
      → (r : Result Module) (w : W)
      → Waited key
          (suc fuel)
          es
          (looked x key r (await_gone x fuel deadline key) (record { world = w; trace = es }))
  looked-Waited fuel deadline key es more r w = elim (Bool-cases (is_gone r)) [
    | inl gone_now ↦ rw gone_now (0, omega arith, refl)
    | inr there ↦ rw there (
        later_lem key fuel es _ _
          (more (record { world = x.client.sleep 2000 w; trace = waited 2000 ∷ es })))
  ]

  await_gone-Waited :
      (fuel deadline : ℕ) (key : ObjectKey) (s : Run W)
      → Waited key fuel s.trace (await_gone x fuel deadline key s)
  unfolding await_gone
  await_gone-Waited zero deadline key s = (0, omega arith, refl)
  await_gone-Waited (suc fuel) deadline key s =
      let now = x.client.now s.world in
      let read = x.client.get_module key now.1 in
      elim (Bool-cases (ltb now.0 deadline)) [
        | inl early ↦ rw early (
            looked-Waited fuel deadline key s.trace (await_gone-Waited fuel deadline key) read.0
              read.1)
        | inr late ↦ rw late (0, omega arith, refl)
      ]

  abbrev OneHandled : ObjectKey → List Effect → Result (Unit {0}) × Run W → Type 0
  OneHandled key es (r, t) = (r ≡ ok tt) × Handled key es t.trace

  awaited-OneHandled :
      (key : ObjectKey) (es : List Effect) (r : Result Bool) (t : Run W)
      → Waited key rounds (deletion_requested key ∷ es) (r, t)
      → OneHandled key es (and_then (unless_gone x) r t)
  awaited-OneHandled key es (ok true) t (n, bound, h) =
      (refl, subst (Handled key es) (sym h) (gone n es bound))
  awaited-OneHandled key es (ok false) t (n, bound, h) = (
    refl,
    subst (Handled key es) (ap (event "Warning" "ModuleDeletionTimeout" ∷◌) (sym h))
        (timed_out n es bound),
  )
  awaited-OneHandled key es (err _) t h = elim h [ ]

  delete_module-OneHandled :
      (m : Module) (s : Run W) → OneHandled (object_key m.metadata) s.trace (delete_module x m s)
  delete_module-OneHandled m s =
      sent (x.client.delete_module (object_key m.metadata) s.world).0
        (x.client.delete_module (object_key m.metadata) s.world).1
    where
      key : ObjectKey
      key = object_key m.metadata

      sent :
          (r : Result (Unit {0})) (w : W)
          → OneHandled key s.trace (
              deletion_sent x key r
                (record { world = w; trace = deletion_requested key ∷ s.trace }))
      sent (err e) w = (refl, refused s.trace)
      sent (ok _) w =
          let now = x.client.now w in
          awaited-OneHandled key s.trace _ _ (
            await_gone-Waited rounds (now.0 + deletion_timeout) key
              (record { world = now.1; trace = deletion_requested key ∷ s.trace }))

  next-AllHandled :
      (m : Module) (ms : List Module) (es : List Effect) (f : Exec (Run W) (Unit {0}))
      → ((s : Run W) → ((f s).0 ≡ ok tt) × AllHandled ms s.trace (f s).1.trace)
      → (r : Result (Unit {0})) (t : Run W) → OneHandled (object_key m.metadata) es (r, t)
      → ((and_then (λ _. f) r t).0 ≡ ok tt) × AllHandled (m ∷ ms) es (and_then (λ _. f) r t).1.trace
  next-AllHandled m ms es f more (ok _) t h = ((more t).0, next m ms es t.trace _ h.1 (more t).1)
  next-AllHandled m ms es f more (err _) t h = cc

  pub delete_modules-AllHandled :
      (ms : List Module) (s : Run W)
      → ((delete_modules x ms s).0 ≡ ok tt) × AllHandled ms s.trace (delete_modules x ms s).1.trace
  unfolding delete_modules
  delete_modules-AllHandled [] s = (refl, nothing_left s.trace)
  delete_modules-AllHandled (m ∷ ms) s =
      next-AllHandled m ms s.trace (delete_modules x ms) (delete_modules-AllHandled ms)
        (delete_module x m s).0 (delete_module x m s).1 (delete_module-OneHandled m s)
