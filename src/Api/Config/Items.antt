-- ===== src/Api/Config/Items.antt =====
-- A config item has one of five kinds, and its value meets the specification of that kind.
use forkspacer.Base.{String, ◌≡◌, refl, ◌↔◌, Bool, Option, none, some, List, arith}
use forkspacer.Go.{Result, ok, err, Error, ◌>>=◌, map_error}
use forkspacer.Go.Int.{ℤ}
use forkspacer.Api.Any.{Any, int, bool, text, texts}
use forkspacer.Api.Module.{
  ConfigItemSpecInteger, ConfigItemSpecBoolean, ConfigItemSpecString, ConfigItemSpecOption,
  ConfigItemSpecMultipleOptions, ConfigItem,
}
use forkspacer.Api.Config.{
  Codec, validate_integer, validate_boolean, validate_string, validate_option,
  validate_multiple_options, validate_kind, validate_item,
}
use forkspacer.Api.Config.Values.{
  IntegerSpec, integer_sound, integer_complete, BooleanSpec, boolean_sound, boolean_complete,
  StringSpec, string_sound, string_complete, OptionSpec, option_sound, option_complete,
  MultipleOptionsSpec, multiple_options_sound, multiple_options_complete,
}

-- The values that a decoded JSON document can hold: no `int` and no `[]string`.
abbrev pub IsDecoded : {F : Type 0} → Any F → Type 0
IsDecoded (int _) = ⊥
IsDecoded (texts _) = ⊥
IsDecoded _ = Unit

-- A step that relabels errors and values keeps what its success means.
relabel_sound :
    {A : Type 0} {B : Type 0} (f : Error → Error) (g : A → B) (r : Result A) (b : B)
    → (map_error f r >>= λ a. ok (g a)) ≡ ok b
    → (a : A) × (b ≡ g a) × (r ≡ ok a)
relabel_sound f g (ok a) b h = (a, ground arith, refl)
relabel_sound f g (err e) b h = cc

module _ {F : Type 0} (c : Codec F) where
  abbrev KindSpec :
      Option ConfigItemSpecInteger
      → Option ConfigItemSpecBoolean
      → Option ConfigItemSpecString
      → Option ConfigItemSpecOption
      → Option ConfigItemSpecMultipleOptions
      → Option (Any F)
      → Any F
      → Type 0
  KindSpec (some spec) _ _ _ _ val v = (n : ℤ) × (v ≡ int n) × IntegerSpec c spec val n
  KindSpec none (some spec) _ _ _ val v = (b : Bool) × (v ≡ bool b) × BooleanSpec spec val b
  KindSpec none none (some spec) _ _ val v = (s : String) × (v ≡ text s) × StringSpec c spec val s
  KindSpec none none none (some spec) _ val v = (s : String) × (v ≡ text s) × OptionSpec spec val s
  KindSpec none none none none (some spec) val v =
      (ss : List String) × (v ≡ texts ss) × MultipleOptionsSpec spec val ss
  KindSpec none none none none none val v = ⊥

  abbrev pub ItemSpec : ConfigItem → Option (Any F) → Any F → Type 0
  ItemSpec item = KindSpec item.integer item.boolean item.string item.option item.multiple_options

  kind_sound :
      (alias : String) (i : Option ConfigItemSpecInteger) (b : Option ConfigItemSpecBoolean)
      (s : Option ConfigItemSpecString) (o : Option ConfigItemSpecOption)
      (m : Option ConfigItemSpecMultipleOptions) (val : Option (Any F)) (v : Any F)
      → validate_kind c alias i b s o m val ≡ ok v
      → KindSpec i b s o m val v
  unfolding validate_kind
  kind_sound alias (some spec) _ _ _ _ val v h =
      let r = relabel_sound _ int (validate_integer c spec val) v h in
      (r.0, r.1, integer_sound c spec val r.0 r.2)
  kind_sound alias none (some spec) _ _ _ val v h =
      let r = relabel_sound _ bool (validate_boolean spec val) v h in
      (r.0, r.1, boolean_sound spec val r.0 r.2)
  kind_sound alias none none (some spec) _ _ val v h =
      let r = relabel_sound _ text (validate_string c spec val) v h in
      (r.0, r.1, string_sound c spec val r.0 r.2)
  kind_sound alias none none none (some spec) _ val v h =
      let r = relabel_sound _ text (validate_option spec val) v h in
      (r.0, r.1, option_sound spec val r.0 r.2)
  kind_sound alias none none none none (some spec) val v h =
      let r = relabel_sound _ texts (validate_multiple_options spec val) v h in
      (r.0, r.1, multiple_options_sound spec val r.0 r.2)
  kind_sound alias none none none none none val v h = cc

  kind_complete :
      (alias : String) (i : Option ConfigItemSpecInteger) (b : Option ConfigItemSpecBoolean)
      (s : Option ConfigItemSpecString) (o : Option ConfigItemSpecOption)
      (m : Option ConfigItemSpecMultipleOptions) (val : Option (Any F)) (v : Any F)
      → KindSpec i b s o m val v
      → validate_kind c alias i b s o m val ≡ ok v
  unfolding validate_kind
  kind_complete alias (some spec) _ _ _ _ val v h =
      ground (arith, integer_complete c spec val h.0 h.2)
  kind_complete alias none (some spec) _ _ _ val v h =
      ground (arith, boolean_complete spec val h.0 h.2)
  kind_complete alias none none (some spec) _ _ val v h =
      ground (arith, string_complete c spec val h.0 h.2)
  kind_complete alias none none none (some spec) _ val v h =
      ground (arith, option_complete spec val h.0 h.2)
  kind_complete alias none none none none (some spec) val v h =
      ground (arith, multiple_options_complete spec val h.0 h.2)
  kind_complete alias none none none none none val v h = absurd h

  -- The validator of an item accepts an input with a value exactly when the specification of the
  -- item's kind relates them: without an input the default of an item that is not required; with
  -- one, the value of the kind's type that an editable item reads from it, in the range, matching
  -- the pattern, or among the options. An item of no kind accepts nothing.
  pub validate_item_iff :
      (item : ConfigItem) (val : Option (Any F)) (v : Any F)
      → (validate_item c item val ≡ ok v) ↔ ItemSpec item val v
  unfolding validate_item
  validate_item_iff item val v =
      (kind_sound item.alias _ _ _ _ _ val v, kind_complete item.alias _ _ _ _ _ val v)

  not-IsDecoded-texts : (v : Any F) (ss : List String) → v ≡ texts ss → IsDecoded v → ⊥
  not-IsDecoded-texts (texts _) ss e d = d
  not-IsDecoded-texts _ ss e d = cc

  kind_decoded :
      (i : Option ConfigItemSpecInteger) (b : Option ConfigItemSpecBoolean)
      (s : Option ConfigItemSpecString) (o : Option ConfigItemSpecOption)
      (m : Option ConfigItemSpecMultipleOptions) (spec : ConfigItemSpecMultipleOptions)
      (v w : Any F)
      → i ≡ none
      → b ≡ none
      → s ≡ none
      → o ≡ none
      → m ≡ some spec
      → IsDecoded v
      → KindSpec i b s o m (some v) w
      → ⊥
  kind_decoded none none none none (some _) spec v w i b s o m d h =
      not-IsDecoded-texts v h.0 h.2.1 d
  kind_decoded none none none none none spec v w i b s o m d h = h
  kind_decoded none none none (some _) _ spec v w i b s o m d h = cc
  kind_decoded none none (some _) _ _ spec v w i b s o m d h = cc
  kind_decoded none (some _) _ _ _ spec v w i b s o m d h = cc
  kind_decoded (some _) _ _ _ _ spec v w i b s o m d h = cc

  -- A multiple-options item allows no value that JSON decoding makes.
  pub item_decoded :
      (item : ConfigItem) (spec : ConfigItemSpecMultipleOptions) (v w : Any F)
      → item.integer ≡ none
      → item.boolean ≡ none
      → item.string ≡ none
      → item.option ≡ none
      → item.multiple_options ≡ some spec
      → IsDecoded v
      → ItemSpec item (some v) w
      → ⊥
  item_decoded item = kind_decoded _ _ _ _ _
