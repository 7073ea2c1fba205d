-- ===== src/Exec/Keeps.antt =====
-- Code that leaves a part of its state alone, whatever it returns.
use forkspacer.Base.{Bool, true, false, ◌≡◌, ◌∙◌, if◌then◌else◌}
use forkspacer.Go.{Result, ok, err}
use forkspacer.Exec.{Exec, ◌>>=◌, and_then}

module _ {S T : Type 0} (view : S → T) where
  abbrev pub Keeps : {A : Type 0} → Exec S A → Type 0
  Keeps m = (s : S) → view (m s).1 ≡ view s

  pub bind-Keeps :
      {A B : Type 0} (m : Exec S A) (f : A → Exec S B)
      → Keeps m
      → ((a : A) → Keeps (f a))
      → Keeps (m >>= f)
  bind-Keeps {A} m f q k s = go (m s).0 (m s).1 (q s)
    where
      go : (r : Result A) (t : S) → view t ≡ view s → view (and_then f r t).1 ≡ view s
      go (ok a) t h = k a t ∙ h
      go (err e) t h = h

  pub if-Keeps :
      {A : Type 0} (b : Bool) (m k : Exec S A) → Keeps m → Keeps k → Keeps (if b then m else k)
  if-Keeps true m k p q = p
  if-Keeps false m k p q = q
