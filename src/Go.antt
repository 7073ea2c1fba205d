-- ===== src/Go.antt =====
-- Go's error values and (value, error) results, and signed integers.
-- An error is what the program can ask of it: its class and its text. `fmt.Errorf` with `%w` keeps
-- the class of the error that it wraps, with `%v` it does not.
pub mod Int
use Prim.Native.String
use forkspacer.Base.{String, ◌≡◌, refl, Bool, true, false, List, [], ◌∷◌}

-- fmt.Sprint of texts
abbrev pub concat : List String → String
concat [] = ""
concat (s ∷ ss) = String.◌++◌ s (concat ss)

-- what `IsNotFound`, `IsConflict`, `IsAlreadyExists` and `errors.As(ErrWorkspaceNotReady)` tell
-- apart
pub data Class : Type 0 where
  not_found conflict already_exists workspace_not_ready other : Class

pub record Error : Type 0 where
  pub class : Class
  pub text : String

abbrev pub errorf : String → Error
errorf t = record { class = other; text = t }

-- `fmt.Errorf("prefix: %w", err)`
abbrev pub wrap_w : String → Error → Error
wrap_w prefix e = record e { text = concat (prefix ∷ ": " ∷ e.text ∷ []) }

-- `fmt.Errorf("prefix: %v", err)`
abbrev pub wrap_v : String → Error → Error
wrap_v prefix e = errorf (concat (prefix ∷ ": " ∷ e.text ∷ []))

abbrev pub is_not_found : Error → Bool
is_not_found e = elim e.class [ not_found ↦ true | _ ↦ false ]

abbrev pub is_conflict : Error → Bool
is_conflict e = elim e.class [ conflict ↦ true | _ ↦ false ]

abbrev pub is_already_exists : Error → Bool
is_already_exists e = elim e.class [ already_exists ↦ true | _ ↦ false ]

abbrev pub is_workspace_not_ready : Error → Bool
is_workspace_not_ready e = elim e.class [ workspace_not_ready ↦ true | _ ↦ false ]

pub data Result {ℓ} (A : Type ℓ) : Type ℓ where
  ok : A → Result A
  err : Error → Result A

abbrev pub map_error {ℓ} : {A : Type ℓ} → (Error → Error) → Result A → Result A
map_error f (ok a) = ok a
map_error f (err e) = err (f e)

infixl 5 ◌>>=◌
abbrev pub ◌>>=◌ {ℓ κ} : {A : Type ℓ} {B : Type κ} → Result A → (A → Result B) → Result B
ok value >>= next = next value
err reason >>= next = err reason

abbrev pub is_ok {ℓ} : {A : Type ℓ} → Result A → Bool
is_ok (ok _) = true
is_ok (err _) = false

-- The first of two calls that succeed together succeeds with a value on which the second does.
pub bind-ok {ℓ κ} :
    {A : Type ℓ} {B : Type κ} (first : Result A) (next : A → Result B) {out : B}
    → (first >>= next) ≡ ok out
    → (mid : A) × (first ≡ ok mid) × (next mid ≡ ok out)
bind-ok (err reason) next done = cc
bind-ok (ok mid) next done = (mid, refl, done)
