-- ===== src/Controller/Retry.antt =====
-- client-go's `retry.RetryOnConflict`. The reconcilers take it as a parameter; what they rely on is
-- that the function is called once, and again only while it fails with a conflict, and that the
-- result is that of its last call.
use forkspacer.Base.{
  Bool, ℕ, zero, suc, ◌≡◌, refl, subst, true, false, Bool-cases, inl, inr, if◌then◌else◌,
}
use forkspacer.Go.{Result, ok, err, Error, is_conflict}
use forkspacer.Exec.{Exec}

abbrev conflicted : {A : Type 0} → Result A → Bool
conflicted (ok _) = false
conflicted (err e) = is_conflict e

module _ {S A : Type 0} where
  pub data Attempts (m : Exec S A) : S → Result A × S → Type 0 where
    last : (s : S) (r : Result A × S) → m s ≡ r → Attempts m s r
    again :
        (s t : S) (e : Error) (r : Result A × S)
        → m s ≡ (err e, t)
        → is_conflict e ≡ true
        → Attempts m t r
        → Attempts m s r

  -- A relation between the state before and what comes after that every call keeps, and that a
  -- failed call composes with, is kept by the retried function.
  pub retried :
      (m : Exec S A) (P : S → Result A × S → Type 0)
      → ((s : S) → P s (m s))
      → ((s t : S) (e : Error) (r : Result A × S) → P s (err e, t) → P t r → P s r)
      → (s : S) (r : Result A × S) → Attempts m s r
      → P s r
  retried m P step join s r (last _ _ e) = subst (P s) e (step s)
  retried m P step join s r (again _ t e _ p c more) =
      join s t e r (subst (P s) p (step s)) (retried m P step join t r more)

  -- An implementation: at most `n + 1` calls.
  unfoldable pub retry_times : ℕ → Exec S A → Exec S A
  retry_times zero m s = m s
  retry_times (suc n) m s =
      let more = retry_times n m (m s).1 in if conflicted (m s).0 then more else m s

  conflict_error :
      (r : Result A) (t : S)
      → conflicted r ≡ true
      → (e : Error) × (◌≡◌ {A = Result A × S} (r, t) (err e, t)) × (is_conflict e ≡ true)
  conflict_error (ok _) t h = cc
  conflict_error (err e) t h = (e, refl, h)

  pub retry_times-Attempts : (n : ℕ) (m : Exec S A) (s : S) → Attempts m s (retry_times n m s)
  unfolding retry_times
  retry_times-Attempts zero m s = last s (m s) refl
  retry_times-Attempts (suc n) m s = elim (Bool-cases (conflicted (m s).0)) [
    | inr e ↦ rw e (last s (m s) refl)
    | inl e ↦
        let c = conflict_error (m s).0 (m s).1 e in
        rw e (again s (m s).1 c.0 _ c.1 c.2 (retry_times-Attempts n m (m s).1))
  ]
