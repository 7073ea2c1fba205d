-- ===== src/Go/Int.antt =====
-- Go's signed integers. The program only compares them, so no width is written out.
use forkspacer.Base.{ℕ, Bool, true, false, ltb, ◌≡◌, ◌↔◌, ◌+◌, ◌≤◌, arith}

-- `negsuc n` is -(n + 1).
pub data ℤ : Type 0 where
  pos : ℕ → ℤ
  negsuc : ℕ → ℤ

abbrev pub ltb_ℤ : ℤ → ℤ → Bool
ltb_ℤ (pos a) (pos b) = ltb a b
ltb_ℤ (pos a) (negsuc b) = false
ltb_ℤ (negsuc a) (pos b) = true
ltb_ℤ (negsuc a) (negsuc b) = ltb b a

-- the order, as the comparison of the parts of two differences
abbrev pub pos_part : ℤ → ℕ
pos_part (pos n) = n
pos_part (negsuc n) = 0

abbrev pub neg_part : ℤ → ℕ
neg_part (pos n) = 0
neg_part (negsuc n) = n + 1

infix 50 ◌≤ℤ◌
abbrev pub ◌≤ℤ◌ : ℤ → ℤ → Type 0
a ≤ℤ b = pos_part a + neg_part b ≤ pos_part b + neg_part a

pub ltb-ℤ_iff : (a b : ℤ) → (ltb_ℤ a b ≡ false) ↔ (b ≤ℤ a)
ltb-ℤ_iff (pos a) (pos b) = (λ h. ground arith, λ h. ground arith)
ltb-ℤ_iff (pos a) (negsuc b) = (λ h. ground arith, λ h. ground arith)
ltb-ℤ_iff (negsuc a) (pos b) = (λ h. ground arith, λ h. ground arith)
ltb-ℤ_iff (negsuc a) (negsuc b) = (λ h. ground arith, λ h. ground arith)
