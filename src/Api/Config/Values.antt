-- ===== src/Api/Config/Values.antt =====
-- When the validator of one config item accepts a value, and which value it gives.
use forkspacer.Base.{
  String, ◌≡◌, refl, ◌↔◌, Bool, true, false, Option, none, some, List, Bool-cases, ◌⊎◌, inl, inr,
  contains, arith,
}
use forkspacer.Go.{ok}
use forkspacer.Go.Int.{ℤ, ◌≤ℤ◌, ltb-ℤ_iff}
use forkspacer.Api.Any.{Any, bool, int, float64, text, texts}
use forkspacer.Api.Module.{
  ConfigItemSpecInteger, ConfigItemSpecBoolean, ConfigItemSpecString, ConfigItemSpecOption,
  ConfigItemSpecMultipleOptions,
}
use forkspacer.Api.Config.{
  Codec, validate_integer, validate_boolean, validate_string, validate_option,
  validate_multiple_options, below_min, above_max, all_in, is_empty, match_with, matches,
}

abbrev pub AtLeast : Option ℤ → ℤ → Type 0
AtLeast none v = Unit
AtLeast (some m) v = m ≤ℤ v

abbrev pub AtMost : Option ℤ → ℤ → Type 0
AtMost none v = Unit
AtMost (some m) v = v ≤ℤ m

below_min_iff : (m : Option ℤ) (v : ℤ) → (below_min m v ≡ false) ↔ AtLeast m v
below_min_iff none v = ((λ _. tt), (λ _. refl))
below_min_iff (some m) v = ltb-ℤ_iff v m

above_max_iff : (m : Option ℤ) (v : ℤ) → (above_max m v ≡ false) ↔ AtMost m v
above_max_iff none v = ((λ _. tt), (λ _. refl))
above_max_iff (some m) v = ltb-ℤ_iff m v

module _ {F : Type 0} (c : Codec F) where
  -- the integer that a dynamic value stands for
  abbrev pub Reads : Any F → ℤ → Type 0
  Reads (int n) v = n ≡ v
  Reads (float64 f) v = c.to_int f ≡ v
  Reads _ v = ⊥

  abbrev pub IntegerSpec : ConfigItemSpecInteger → Option (Any F) → ℤ → Type 0
  IntegerSpec spec none v = (spec.required ≡ false) × (spec.default ≡ v)
  IntegerSpec spec (some input) v =
      (spec.editable ≡ true) × Reads input v × AtLeast spec.min v × AtMost spec.max v

  pub integer_sound :
      (spec : ConfigItemSpecInteger) (input : Option (Any F)) (v : ℤ)
      → validate_integer c spec input ≡ ok v
      → IntegerSpec spec input v
  unfolding validate_integer
  integer_sound spec none v h = ground arith
  integer_sound spec (some (int n)) v h =
      ground (arith, below_min_iff spec.min n, above_max_iff spec.max n)
  integer_sound spec (some (float64 f)) v h =
      ground (arith, below_min_iff spec.min (c.to_int f), above_max_iff spec.max (c.to_int f))
  integer_sound spec (some _) v h = ground arith

  pub integer_complete :
      (spec : ConfigItemSpecInteger) (input : Option (Any F)) (v : ℤ)
      → IntegerSpec spec input v
      → validate_integer c spec input ≡ ok v
  unfolding validate_integer
  integer_complete spec none v h = ground arith
  integer_complete spec (some (int n)) v h =
      ground (arith, below_min_iff spec.min n, above_max_iff spec.max n)
  integer_complete spec (some (float64 f)) v h =
      ground (arith, below_min_iff spec.min (c.to_int f), above_max_iff spec.max (c.to_int f))
  integer_complete spec (some _) v h = ground arith

-- What each kind of item accepts, and the value that it then has.
module _ {F : Type 0} where
  abbrev pub BooleanSpec : ConfigItemSpecBoolean → Option (Any F) → Bool → Type 0
  BooleanSpec spec none v = (spec.required ≡ false) × (spec.default ≡ v)
  BooleanSpec spec (some input) v = (spec.editable ≡ true) × (input ≡ bool v)

  abbrev pub OptionSpec : ConfigItemSpecOption → Option (Any F) → String → Type 0
  OptionSpec spec none v = (spec.required ≡ false) × (spec.default ≡ v)
  OptionSpec spec (some input) v =
      (spec.editable ≡ true) × (input ≡ text v) × (contains spec.values v ≡ true)

  abbrev pub MultipleOptionsSpec :
      ConfigItemSpecMultipleOptions → Option (Any F) → List String → Type 0
  MultipleOptionsSpec spec none v = (spec.required ≡ false) × (spec.default ≡ v)
  MultipleOptionsSpec spec (some input) v =
      (spec.editable ≡ true)
      × (input ≡ texts v)
      × ((spec.required ≡ false) ⊎ (is_empty v ≡ false))
      × (all_in spec.values v ≡ true)

  pub boolean_sound :
      (spec : ConfigItemSpecBoolean) (input : Option (Any F)) (v : Bool)
      → validate_boolean spec input ≡ ok v
      → BooleanSpec spec input v
  unfolding validate_boolean
  boolean_sound spec none v h = ground arith
  boolean_sound spec (some (bool b)) v h = ground arith
  boolean_sound spec (some _) v h = ground arith

  pub boolean_complete :
      (spec : ConfigItemSpecBoolean) (input : Option (Any F)) (v : Bool)
      → BooleanSpec spec input v
      → validate_boolean spec input ≡ ok v
  unfolding validate_boolean
  boolean_complete spec none v h = ground arith
  boolean_complete spec (some (bool b)) v h = ground arith
  boolean_complete spec (some _) v h = ground arith

  pub option_sound :
      (spec : ConfigItemSpecOption) (input : Option (Any F)) (v : String)
      → validate_option spec input ≡ ok v
      → OptionSpec spec input v
  unfolding validate_option
  option_sound spec none v h = ground arith
  option_sound spec (some (text s)) v h = ground arith
  option_sound spec (some _) v h = ground arith

  pub option_complete :
      (spec : ConfigItemSpecOption) (input : Option (Any F)) (v : String)
      → OptionSpec spec input v
      → validate_option spec input ≡ ok v
  unfolding validate_option
  option_complete spec none v h = ground arith
  option_complete spec (some (text s)) v h = ground arith
  option_complete spec (some _) v h = ground arith

  pub multiple_options_sound :
      (spec : ConfigItemSpecMultipleOptions) (input : Option (Any F)) (v : List String)
      → validate_multiple_options spec input ≡ ok v
      → MultipleOptionsSpec spec input v
  unfolding validate_multiple_options
  multiple_options_sound spec none v h = ground arith
  multiple_options_sound spec (some (texts os)) v h = ground arith
  multiple_options_sound spec (some _) v h = ground arith

  pub multiple_options_complete :
      (spec : ConfigItemSpecMultipleOptions) (input : Option (Any F)) (v : List String)
      → MultipleOptionsSpec spec input v
      → validate_multiple_options spec input ≡ ok v
  unfolding validate_multiple_options
  multiple_options_complete spec none v h = ground arith
  multiple_options_complete spec (some (texts os)) v h = ground arith
  multiple_options_complete spec (some _) v h = ground arith

match_with_sound :
    (r : Option (String → Bool)) (s v : String)
    → match_with r s ≡ ok v
    → (s ≡ v) × (accepts : String → Bool) × (r ≡ some accepts) × (accepts v ≡ true)
match_with_sound none s v h = cc
match_with_sound (some accepts) s v h = elim (Bool-cases (accepts s)) [
  | inl e ↦ let p : s ≡ v = ground arith in (p, accepts, refl, rw (← p) e)
  | inr e ↦ ground arith
]

module _ {F : Type 0} (c : Codec F) where
  abbrev pub Accepts : Option String → String → Type 0
  Accepts none v = Unit
  Accepts (some pattern) v =
      (accepts : String → Bool) × (c.compile pattern ≡ some accepts) × (accepts v ≡ true)

  abbrev pub StringSpec : ConfigItemSpecString → Option (Any F) → String → Type 0
  StringSpec spec none v = (spec.required ≡ false) × (spec.default ≡ v)
  StringSpec spec (some input) v = (spec.editable ≡ true) × (input ≡ text v) × Accepts spec.regex v

  matches_sound :
      (regex : Option String) (s v : String) → matches c regex s ≡ ok v → (s ≡ v) × Accepts regex v
  matches_sound none s v h = ground arith
  matches_sound (some p) s v h =
      let m = match_with_sound (c.compile p) s v h in (m.0, (m.1, m.2, m.3))

  matches_complete :
      (regex : Option String) (v : String) → Accepts regex v → matches c regex v ≡ ok v
  matches_complete none v h = refl
  matches_complete (some p) v h = rw (h.1, match_with) (rw h.2)

  pub string_sound :
      (spec : ConfigItemSpecString) (input : Option (Any F)) (v : String)
      → validate_string c spec input ≡ ok v
      → StringSpec spec input v
  unfolding validate_string
  string_sound spec none v h = ground arith
  string_sound spec (some (text s)) v h = ground (arith, matches_sound spec.regex s v)
  string_sound spec (some _) v h = ground arith

  pub string_complete :
      (spec : ConfigItemSpecString) (input : Option (Any F)) (v : String)
      → StringSpec spec input v
      → validate_string c spec input ≡ ok v
  unfolding validate_string
  string_complete spec none v h = ground arith
  string_complete spec (some (text s)) v h = ground (arith, matches_complete spec.regex v)
  string_complete spec (some _) v h = ground arith
