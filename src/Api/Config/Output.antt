-- ===== src/Api/Config/Output.antt =====
-- `GetValidatedConfig` as a whole: when it succeeds, and what its output holds.
use forkspacer.Base.{
  String, ◌≡◌, ◌≢◌, refl, ◌∙◌, ◌↔◌, false, none, some, List, [], ◌∷◌, ◌++◌, arith, Assoc, lookup,
  insert, lookup-insert, eq_iff, All,
}
use text.Mathlib.TextPositions.{eq_refl}
use forkspacer.Go.{Result, ok, err, bind-ok, is_ok}
use forkspacer.Api.Any.{Any}
use forkspacer.Api.Module.{ConfigItem, ConfigItemSpecMultipleOptions, Module}
use forkspacer.Api.Config.{Codec, validate_item, validate_items, input_config, get_validated_config}
use forkspacer.Api.Config.Items.{ItemSpec, validate_item_iff, IsDecoded, item_decoded}

abbrev pub HasAlias : String → ConfigItem → Type 0
HasAlias a item = item.alias ≡ a

module _ {F : Type 0} (c : Codec F) (input : Assoc (Any F)) where
  -- The key of an item that comes last under its alias keeps the value of that item.
  validate_items-other :
      (items : List ConfigItem) (a : String) (out result : Assoc (Any F))
      → All (λ item. item.alias ≢ a) items
      → validate_items c input items out ≡ ok result
      → lookup a result ≡ lookup a out
  unfolding validate_items
  validate_items-other [] a out result h e = ground arith
  validate_items-other (item ∷ items) a out result h e =
      let step = bind-ok (validate_item c item (lookup item.alias input)) _ e in
      validate_items-other items a (insert item.alias step.0 out) result h.1 step.2
      ∙ ground (arith, lookup-insert item.alias a step.0 out, eq_iff item.alias a)

  pub validate_items-last :
      (before : List ConfigItem) (item : ConfigItem) (after : List ConfigItem)
      (out result : Assoc (Any F))
      → All (λ other. other.alias ≢ item.alias) after
      → validate_items c input (before ++ item ∷ after) out ≡ ok result
      → (v : Any F) × ItemSpec c item (lookup item.alias input) v
        × (lookup item.alias result ≡ some v)
  unfolding validate_items
  validate_items-last [] item after out result h e =
      let step = bind-ok (validate_item c item (lookup item.alias input)) _ e in
      (
        step.0,
        (validate_item_iff c item (lookup item.alias input) step.0).0 step.1,
        validate_items-other after item.alias (insert item.alias step.0 out) result h step.2
            ∙ ground (arith, lookup-insert item.alias item.alias step.0 out, eq_refl item.alias),
      )
  validate_items-last (first ∷ before) item after out result h e =
      let step = bind-ok (validate_item c first (lookup first.alias input)) _ e in
      validate_items-last before item after (insert first.alias step.0 out) result h step.2

  -- It succeeds if every item has a value that its specification allows.
  pub validate_items-total :
      (items : List ConfigItem) (out : Assoc (Any F))
      → All (λ item. (v : Any F) × ItemSpec c item (lookup item.alias input) v) items
      → (result : Assoc (Any F)) × (validate_items c input items out ≡ ok result)
  unfolding validate_items
  validate_items-total [] out h = (out, refl)
  validate_items-total (item ∷ items) out h =
      let rest = validate_items-total items (insert item.alias h.0.0 out) h.1 in
      (rest.0, rw ((validate_item_iff c item (lookup item.alias input) h.0.0).1 h.0.1) rest.1)

  pub validate_items-All :
      (items : List ConfigItem) (out result : Assoc (Any F))
      → validate_items c input items out ≡ ok result
      → All (λ item. (v : Any F) × ItemSpec c item (lookup item.alias input) v) items
  unfolding validate_items
  validate_items-All [] out result e = tt
  validate_items-All (item ∷ items) out result e =
      let step = bind-ok (validate_item c item (lookup item.alias input)) _ e in
      (
        (step.0, (validate_item_iff c item (lookup item.alias input) step.0).0 step.1),
        validate_items-All items (insert item.alias step.0 out) result step.2,
      )

All-middle :
    {A : Type 0} (P : A → Type 0) (xs : List A) (y : A) (zs : List A) → All P (xs ++ y ∷ zs) → P y
All-middle P [] y zs h = h.0
All-middle P (x ∷ xs) y zs h = All-middle P xs y zs h.1

module _ {F : Type 0} (c : Codec F) (m : Module) where
  abbrev pub Valid : Assoc (Any F) → Type 0
  Valid input = All (λ item. (v : Any F) × ItemSpec c item (lookup item.alias input) v) m.config

  -- `GetValidatedConfig` succeeds exactly when the raw config decodes (or is absent) and every
  -- config item has a value that its specification allows for the input under its alias.
  pub get_validated_config_iff :
      ((out : Assoc (Any F)) × (get_validated_config c m ≡ ok out))
      ↔ ((input : Assoc (Any F)) × (input_config c m.spec.config ≡ ok input) × Valid input)
  unfolding get_validated_config
  get_validated_config_iff = (
    (λ h.
        let step = bind-ok (input_config c m.spec.config) _ h.1 in
        (step.0, step.1, validate_items-All c step.0 m.config [] h.0 step.2)),
    (λ h. let done = validate_items-total c h.0 m.config [] h.2 in (done.0, rw h.1 done.1)),
  )

  -- In the output of `GetValidatedConfig` the key of a config item that no later item shares holds
  -- a value that the item's specification allows for the input under that alias.
  pub get_validated_config-last :
      (before : List ConfigItem) (item : ConfigItem) (after : List ConfigItem)
      (input out : Assoc (Any F))
      → m.config ≡ before ++ item ∷ after
      → All (λ other. other.alias ≢ item.alias) after
      → input_config c m.spec.config ≡ ok input
      → get_validated_config c m ≡ ok out
      → (v : Any F) × ItemSpec c item (lookup item.alias input) v × (lookup item.alias out ≡ some v)
  unfolding get_validated_config
  get_validated_config-last before item after input out split last decoded h =
      validate_items-last c input before item after [] out last (rw (← split) (rw decoded at h))

  -- A multiple-options item whose alias occurs in the decoded config makes `GetValidatedConfig`
  -- fail, whatever value stands there: JSON decoding makes no `[]string`.
  pub get_validated_config-multiple_options :
      (before : List ConfigItem) (item : ConfigItem) (after : List ConfigItem)
      (spec : ConfigItemSpecMultipleOptions) (input : Assoc (Any F)) (v : Any F)
      → m.config ≡ before ++ item ∷ after
      → item.integer ≡ none
      → item.boolean ≡ none
      → item.string ≡ none
      → item.option ≡ none
      → item.multiple_options ≡ some spec
      → input_config c m.spec.config ≡ ok input
      → lookup item.alias input ≡ some v
      → IsDecoded v
      → is_ok (get_validated_config c m) ≡ false
  get_validated_config-multiple_options before item after spec input v split i b s o mo decoded
        found json =
      failed (get_validated_config c m) refl
    where
      failed : (r : Result (Assoc (Any F))) → get_validated_config c m ≡ r → is_ok r ≡ false
      failed (err e) h = refl
      failed (ok out) h =
          let valid = get_validated_config_iff.0 (out, h) in
          let same : valid.0 ≡ input = ground (arith, valid.1) in
          let at : (w : Any F) × ItemSpec c item (lookup item.alias input) w =
            All-middle (λ x. (w : Any F) × ItemSpec c x (lookup x.alias input) w) before item after
              (rw split at (rw same at valid.2)) in
          absurd (item_decoded c item spec v at.0 i b s o mo json (rw found at at.1))
