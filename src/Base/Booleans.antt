-- ===== src/Base/Booleans.antt =====
-- Boolean tests on the native numbers, the conditional, and the equality test of a decidable type.
use Prim.Native.Nat.{ℕ, compare, Ordering}
use Prim.Native.String.{String}
use mathlib.Core.Path.{◌≡◌, refl, sym, ◌∙◌}
use mathlib.Core.Logic.{◌⊎◌, inl, inr, ◌↔◌}
use mathlib.Core.Bool.{Bool, true, false, false≢true}
use text.Mathlib.Text.{◌==◌}
use text.Mathlib.TextEquality.{eq_iff}

abbrev pub ltb : ℕ → ℕ → Bool
ltb a b = elim (compare a b) [ Ordering.lt ↦ true | _ ↦ false ]

abbrev pub leb : ℕ → ℕ → Bool
leb a b = elim (compare a b) [ Ordering.gt ↦ false | _ ↦ true ]

infix 1 if◌then◌else◌
abbrev pub if◌then◌else◌ {ℓ} : {A : Type ℓ} → Bool → A → A → A
if true then x else y = x
if false then x else y = y

pub Bool-cases : (b : Bool) → (b ≡ true) ⊎ (b ≡ false)
Bool-cases true = inl refl
Bool-cases false = inr refl

module _ {ℓ} {A : Type ℓ} where
  abbrev of_dec : Dec A → Bool
  of_dec (yes _) = true
  of_dec (no _) = false

module _ {ℓ} {A : Type ℓ} (dec : Discrete A) where
  -- the test that `==`, or `cmp.Equal`, makes on the values of a Go type
  unfoldable pub equal : A → A → Bool
  equal a b = of_dec (dec a b)

  pub equal_iff : (a b : A) → (equal a b ≡ true) ↔ (a ≡ b)
  unfolding equal
  equal_iff a b = elim (dec a b) as (λ d. (of_dec d ≡ true) ↔ (a ≡ b)) [
    | yes p ↦ ((λ _. p), (λ _. refl))
    | no n ↦ ((λ h. absurd (false≢true h)), (λ p. absurd (n p)))
  ]

-- equality of texts is decided by the native comparison
string_dec : (s t : String) → (b : Bool) → (s == t) ≡ b → Dec (s ≡ t)
string_dec s t true e = yes ((eq_iff s t).0 e)
string_dec s t false e = no (λ p. false≢true (sym e ∙ (eq_iff s t).1 p))

unfoldable pub String-discrete : Discrete String
unfolding string_dec
String-discrete s t = string_dec s t (s == t) refl

abbrev pub nat_eq : ℕ → ℕ → Bool
nat_eq a b = elim (compare a b) [ Ordering.eq ↦ true | _ ↦ false ]
