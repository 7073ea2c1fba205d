-- ===== src/Api/Config.antt =====
-- The validators of the config items, and `GetValidatedConfig`, of api/v1/module_types.go.
-- Error texts leave out the numbers and lists that the source prints into them.
pub mod Values
pub mod Items
pub mod Output
use forkspacer.Base.{
  String, Bool, true, false, not, Option, none, some, List, [], ◌∷◌, Assoc, lookup, insert,
  contains, ◌&&◌, if◌then◌else◌,
}
use forkspacer.Go.{Result, ok, err, Error, errorf, wrap_w, concat, map_error, ◌>>=◌}
use forkspacer.Go.Int.{ℤ, ltb_ℤ}
use forkspacer.Api.Any.{Any, bool, int, float64, text, texts}
use forkspacer.Api.Module.{
  ConfigItemSpecInteger, ConfigItemSpecBoolean, ConfigItemSpecString, ConfigItemSpecOption,
  ConfigItemSpecMultipleOptions, ConfigItem, Module, RawExtension,
}

-- What the validators use of Go's library: the conversion `int(v)` of a float, `regexp.Compile`
-- with `MatchString` (`none`: no valid pattern), and `json.Unmarshal` into a map (`none`: an
-- error).
pub record Codec (F : Type 0) : Type 0 where
  pub to_int : F → ℤ
  pub compile : String → Option (String → Bool)
  pub unmarshal : String → Option (Assoc (Any F))

abbrev below_min : Option ℤ → ℤ → Bool
below_min none v = false
below_min (some m) v = ltb_ℤ v m

abbrev above_max : Option ℤ → ℤ → Bool
above_max none v = false
above_max (some m) v = ltb_ℤ m v

abbrev all_in : List String → List String → Bool
all_in values [] = true
all_in values (v ∷ vs) = let rest = all_in values vs in if contains values v then rest else false

abbrev is_empty {ℓ} : {A : Type ℓ} → List A → Bool
is_empty [] = true
is_empty (_ ∷ _) = false

module _ {F : Type 0} (c : Codec F) where
  -- the type switch on `(*input).(type)`
  abbrev as_int : Any F → Result ℤ
  as_int (int v) = ok v
  as_int (float64 f) = ok (c.to_int f)
  as_int _ = err (errorf "input is not an integer")

  unfoldable pub validate_integer : ConfigItemSpecInteger → Option (Any F) → Result ℤ
  validate_integer spec none =
      if spec.required
      then err (errorf "a value is required for this integer field")
      else ok spec.default
  validate_integer spec (some input) =
      if not spec.editable
      then err (errorf "this integer field is not editable")
      else as_int input >>= λ v.
          if below_min spec.min v
          then err (errorf "value is less than minimum")
          else if above_max spec.max v
          then err (errorf "value is greater than maximum")
          else ok v

abbrev as_bool : {F : Type 0} → Any F → Result Bool
as_bool (bool b) = ok b
as_bool _ = err (errorf "input is not a boolean")

abbrev as_string : {F : Type 0} → Any F → Result String
as_string (text s) = ok s
as_string _ = err (errorf "input is not a string")

abbrev as_strings : {F : Type 0} → Any F → Result (List String)
as_strings (texts ss) = ok ss
as_strings _ = err (errorf "input is not an string array")

pub validate_boolean : {F : Type 0} → ConfigItemSpecBoolean → Option (Any F) → Result Bool
validate_boolean spec none =
    if spec.required
    then err (errorf "a value is required for this boolean field")
    else ok spec.default
validate_boolean spec (some input) =
    if not spec.editable then err (errorf "this boolean field is not editable") else as_bool input

-- `regexp.Compile` and `MatchString`
abbrev match_with : Option (String → Bool) → String → Result String
match_with none v = err (errorf "invalid regex pattern")
match_with (some accepts) v =
    if accepts v
    then ok v
    else err (errorf (concat ("value '" ∷ v ∷ "' does not match the required regex pattern" ∷ [])))

module _ {F : Type 0} (c : Codec F) where
  abbrev matches : Option String → String → Result String
  matches none v = ok v
  matches (some pattern) v = match_with (c.compile pattern) v

  pub validate_string : ConfigItemSpecString → Option (Any F) → Result String
  validate_string spec none =
      if spec.required
      then err (errorf "a value is required for this string field")
      else ok spec.default
  validate_string spec (some input) =
      if not spec.editable
      then err (errorf "this string field is not editable")
      else as_string input >>= matches spec.regex

pub validate_option : {F : Type 0} → ConfigItemSpecOption → Option (Any F) → Result String
validate_option spec none =
    if spec.required
    then err (errorf "a value is required for this option field")
    else ok spec.default
validate_option spec (some input) =
    if not spec.editable
    then err (errorf "this option field is not editable")
    else as_string input >>= λ val.
        if contains spec.values val
        then ok val
        else err (errorf (concat ("invalid value '" ∷ val ∷ "'" ∷ [])))

pub validate_multiple_options :
    {F : Type 0} → ConfigItemSpecMultipleOptions → Option (Any F) → Result (List String)
validate_multiple_options spec none =
    if spec.required
    then err (errorf "a value is required for this multiple options field")
    else ok spec.default
validate_multiple_options spec (some input) =
    if not spec.editable
    then err (errorf "this multiple options field is not editable")
    else as_strings input >>= λ val.
        if is_empty val && spec.required
        then err (errorf "a value is required for this multiple options field")
        else if all_in spec.values val
        then ok val
        else err (errorf "invalid option")

module _ {F : Type 0} (c : Codec F) where
  abbrev failed_for : String → String → Error → Error
  failed_for kind alias =
      wrap_w (concat ("failed to validate " ∷ kind ∷ " config for alias " ∷ alias ∷ []))

  -- the chain of `if config.X != nil` in the loop, over the five fields of an item
  validate_kind :
      String
      → Option ConfigItemSpecInteger
      → Option ConfigItemSpecBoolean
      → Option ConfigItemSpecString
      → Option ConfigItemSpecOption
      → Option ConfigItemSpecMultipleOptions
      → Option (Any F)
      → Result (Any F)
  validate_kind alias (some spec) _ _ _ _ val =
      map_error (failed_for "integer" alias) (validate_integer c spec val) >>= λ v. ok (int v)
  validate_kind alias none (some spec) _ _ _ val =
      map_error (failed_for "boolean" alias) (validate_boolean spec val) >>= λ v. ok (bool v)
  validate_kind alias none none (some spec) _ _ val =
      map_error (failed_for "string" alias) (validate_string c spec val) >>= λ v. ok (text v)
  validate_kind alias none none none (some spec) _ val =
      map_error (failed_for "option" alias) (validate_option spec val) >>= λ v. ok (text v)
  validate_kind alias none none none none (some spec) val =
      map_error (failed_for "multiple options" alias) (validate_multiple_options spec val) >>= λ v.
      ok (texts v)
  validate_kind alias none none none none none val =
      err (errorf (concat ("unknown config type for alias " ∷ alias ∷ [])))

  -- the body of the loop, for one item and its input
  pub validate_item : ConfigItem → Option (Any F) → Result (Any F)
  unfolding validate_kind
  validate_item item =
      validate_kind item.alias item.integer item.boolean item.string item.option
        item.multiple_options

  -- `json.Unmarshal(m.Spec.Config.Raw, &inputConfig)`, if there is a config
  unfoldable pub input_config : Option RawExtension → Result (Assoc (Any F))
  input_config none = ok []
  input_config (some config) = elim config.raw [
    | none ↦ ok []
    | some raw ↦ elim (c.unmarshal raw) [
      | none ↦ err (errorf "failed to unmarshal module config")
      | some input ↦ ok input
    ]
  ]

  -- the loop over `m.Config`, with the output map so far
  pub validate_items : Assoc (Any F) → List ConfigItem → Assoc (Any F) → Result (Assoc (Any F))
  unfolding validate_item lookup insert
  validate_items input [] output = ok output
  validate_items input (item ∷ items) output = validate_item item (lookup item.alias input) >>= λ v.
      validate_items input items (insert item.alias v output)

  unfoldable pub get_validated_config : Module → Result (Assoc (Any F))
  unfolding validate_items input_config
  get_validated_config m = input_config m.spec.config >>= λ input. validate_items input m.config []
