-- ===== src/Webhook/Field.antt =====
-- field.Error and field.ErrorList. The offending values that Go puts into an error are left out.
use forkspacer.Base.{
  String, ◌≡◌, refl, ◌↔◌, Bool, true, false, not, List, [], ◌∷◌, ◌++◌, equal, equal_iff, arith,
}

pub data Kind : Type 0 where
  required invalid internal : Kind

pub record FieldError : Type 0 where
  pub kind : Kind
  pub path : List String
  pub detail : String

abbrev pub ErrorList : Type 0
ErrorList = List FieldError

-- `len(allErrs) == 0`
abbrev pub none_found : ErrorList → Bool
none_found [] = true
none_found (_ ∷ _) = false

-- `if bad { allErrs = append(allErrs, e) }`
abbrev pub when : Bool → FieldError → ErrorList
when true e = e ∷ []
when false e = []

pub none_found-append :
    (xs ys : ErrorList)
    → (none_found (xs ++ ys) ≡ true) ↔ ((none_found xs ≡ true) × (none_found ys ≡ true))
none_found-append [] ys = ((λ h. (refl, h)), (λ h. h.1))
none_found-append (x ∷ xs) ys = ((λ h. cc), (λ h. cc))

pub none_found-append_four :
    (a b c d : ErrorList)
    → (none_found (a ++ b ++ c ++ d) ≡ true) ↔ (
        (none_found a ≡ true)
        × (none_found b ≡ true)
        × (none_found c ≡ true)
        × (none_found d ≡ true))
none_found-append_four a b c d =
    let outer = none_found-append (a ++ b ++ c) d in
    let middle = none_found-append (a ++ b) c in
    let inner = none_found-append a b in
    (
      (λ h.
          let m = middle.0 (outer.0 h).0 in let i = inner.0 m.0 in (i.0, i.1, m.1, (outer.0 h).1)),
      (λ h. outer.1 (middle.1 (inner.1 (h.0, h.1), h.2), h.3)),
    )

-- A field may not change: the comparison reports nothing exactly when the values are equal.
pub kept_iff {ℓ} :
    {A : Type ℓ} (dec : Discrete A) (a b : A) (e : FieldError)
    → (none_found (when (not (equal dec a b)) e) ≡ true) ↔ (a ≡ b)
kept_iff dec a b e =
    ((λ h. (equal_iff dec a b).0 (ground arith)), (λ h. rw ((equal_iff dec a b).1 h)))
