-- ===== src/Exec.antt =====
-- Code with effects: a function on a state that returns a value or an error. What was done before
-- an error stays done, so the state comes back on both paths.
pub mod Keeps
use forkspacer.Base.{◌≡◌, ◌⊎◌, inl, inr, refl, ap, ◌∙◌}
use forkspacer.Go.{Error, Result, ok, err}

abbrev pub Exec : Type 0 → Type 0 → Type 0
Exec S A = S → Result A × S

module _ {S A : Type 0} where
  abbrev pub pure : A → Exec S A
  pure a s = (ok a, s)

  abbrev pub raise : Error → Exec S A
  raise e s = (err e, s)

  abbrev pub lift : Result A → Exec S A
  lift r s = (r, s)

  -- `v, err := m()`: go on whether there is an error or not
  abbrev pub attempt : Exec S A → Exec S (Result A)
  attempt m s = let (r, t) = m s in (ok r, t)

  -- `if err := m(); err != nil { return f(err) }`
  abbrev pub map_err : (Error → Error) → Exec S A → Exec S A
  map_err f m s = let (r, t) = m s in (elim r [ ok a ↦ ok a | err e ↦ err (f e) ], t)

module _ {S A B : Type 0} where
  -- `defer cleanup()`, where the errors of the clean-up are only logged
  abbrev pub finally : Exec S A → Exec S B → Exec S A
  finally m cleanup s = let (r, t) = m s in (r, (cleanup t).1)

  abbrev pub and_then : (A → Exec S B) → Result A → Exec S B
  and_then f (ok a) s = f a s
  and_then f (err e) s = (err e, s)

  infixl 5 ◌>>=◌ ◌>>◌
  abbrev pub ◌>>=◌ : Exec S A → (A → Exec S B) → Exec S B
  ◌>>=◌ m f s = let (r, t) = m s in and_then f r t

  abbrev pub ◌>>◌ : Exec S A → Exec S B → Exec S B
  m >> k = m >>= λ _. k

  -- The first of two actions that succeed together succeeds, and the second goes on from there.
  pub bind-ok :
      (m : Exec S A) (f : A → Exec S B) (s : S) (b : B) (t : S)
      → (m >>= f) s ≡ (ok b, t)
      → (a : A) × (u : S) × (m s ≡ (ok a, u)) × (f a u ≡ (ok b, t))
  bind-ok m f s b t h = split (m s).0 (m s).1 refl h
    where
      split :
          (r : Result A) (u : S)
          → m s ≡ (r, u)
          → and_then f r u ≡ (ok b, t)
          → (a : A) × (v : S) × (m s ≡ (ok a, v)) × (f a v ≡ (ok b, t))
      split (ok a) u p q = (a, u, p, q)
      split (err e) u p q = cc

  -- An error of two actions is that of the first, or of the second after the first has succeeded.
  pub bind-err :
      (m : Exec S A) (f : A → Exec S B) (s : S) (e : Error) (t : S)
      → (m >>= f) s ≡ (err e, t)
      → (m s ≡ (err e, t)) ⊎ ((a : A) × (u : S) × (m s ≡ (ok a, u)) × (f a u ≡ (err e, t)))
  bind-err m f s e t h = split (m s).0 (m s).1 refl h
    where
      split :
          (r : Result A) (u : S)
          → m s ≡ (r, u)
          → and_then f r u ≡ (err e, t)
          → (m s ≡ (err e, t)) ⊎ ((a : A) × (v : S) × (m s ≡ (ok a, v)) × (f a v ≡ (err e, t)))
      split (ok a) u p q = inr (a, u, p, q)
      split (err x) u p q = inl cc

-- The value of a success.
pub ok_value :
    {A S : Type 0} (a b : A) (s t : S) → ◌≡◌ {A = Result A × S} (ok a, s) (ok b, t) → a ≡ b
ok_value {A} {S} a b s t = ap (λ (x : Result A × S). elim x.0 [ ok c ↦ c | err e ↦ a ])

-- An action whose error is wrapped succeeds only if the action does.
pub map_err_ok :
    {A S : Type 0} (f : Error → Error) (m : Exec S A) (s t : S) (a : A)
    → map_err f m s ≡ (ok a, t)
    → m s ≡ (ok a, t)
map_err_ok {A} {S} f m s t a h = split (m s).0 (m s).1 refl h
  where
    split :
        (r : Result A) (u : S)
        → m s ≡ (r, u)
        → ◌≡◌ {A = Result A × S} (elim r [ ok b ↦ ok b | err e ↦ err (f e) ], u) (ok a, t)
        → m s ≡ (ok a, t)
    split (ok b) u p q = p ∙ q
    split (err e) u p q = cc

-- Three actions in a row that succeed.
pub three-ok :
    {S : Type 0} (a b c : Exec S (Unit {0})) (s t : S)
    → (a >> b >> c) s ≡ (ok tt, t)
    → (u v : S) × (a s ≡ (ok tt, u)) × (b u ≡ (ok tt, v)) × (c v ≡ (ok tt, t))
three-ok a b c s t h =
    let last = bind-ok (a >> b) (λ _. c) s tt t h in
    let first = bind-ok a (λ _. b) s last.0 last.1 last.2 in
    (first.1, last.1, first.2, first.3, last.3)

pub three-run :
    {S : Type 0} (a b c : Exec S (Unit {0})) (s u v : S) (r : Result (Unit {0}) × S)
    → a s ≡ (ok tt, u)
    → b u ≡ (ok tt, v)
    → c v ≡ r
    → (a >> b >> c) s ≡ r
three-run {S} a b c s u v r p q e =
    ap (λ (x : Result (Unit {0}) × S). after (after x b) c) p
    ∙ ap (λ (x : Result (Unit {0}) × S). after x c) q
    ∙ e
  where
    after : Result (Unit {0}) × S → Exec S (Unit {0}) → Result (Unit {0}) × S
    after x k = and_then {A = Unit {0}} {B = Unit {0}} (λ _. k) x.0 x.1
