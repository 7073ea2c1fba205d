-- ===== src/Api/Render/Laws.antt =====
-- What rendering keeps, and when it succeeds.
use forkspacer.Base.{String, ◌≡◌, refl, subst, Bool, false, List, arith}
use forkspacer.Go.{ok, bind-ok}
use forkspacer.Go.Int.{ℤ}
use forkspacer.Api.Any.{
  Any, null, bool, int, float64, text, texts, array, object, Items, nil, cons, Fields, end, field,
}
use forkspacer.Api.Render.{
  Engine, TemplateData, has_template, render_text, render_interface, render_items, render_fields,
}

-- No text of the value is a template.
abbrev mutual
  pub IsPlain : {F : Type 0} → Any F → Type 0
  IsPlain (object fs) = PlainFields fs
  IsPlain (array xs) = PlainItems xs
  IsPlain (text s) = has_template s ≡ false
  IsPlain _ = Unit

  pub PlainItems : {F : Type 0} → Items F → Type 0
  PlainItems nil = Unit
  PlainItems (cons x xs) = IsPlain x × PlainItems xs

  pub PlainFields : {F : Type 0} → Fields F → Type 0
  PlainFields end = Unit
  PlainFields (field k x fs) = IsPlain x × PlainFields fs

module _ {F : Type 0} (e : Engine F) (d : TemplateData F) where
  mutual
    unfolding render_interface render_items render_fields render_text

    plain_lem : (v : Any F) → IsPlain v → render_interface e d v ≡ ok v
    plain_lem (object fs) h = rw (plain_fields_lem fs h)
    plain_lem (array xs) h = rw (plain_items_lem xs h)
    plain_lem (text s) h = rw h
    plain_lem null h = refl
    plain_lem (bool b) h = refl
    plain_lem (int n) h = refl
    plain_lem (float64 f) h = refl
    plain_lem (texts ss) h = refl

    plain_items_lem : (xs : Items F) → PlainItems xs → render_items e d xs ≡ ok xs
    plain_items_lem nil h = refl
    plain_items_lem (cons x xs) h = rw (plain_lem x h.0) (rw (plain_items_lem xs h.1))

    plain_fields_lem : (fs : Fields F) → PlainFields fs → render_fields e d fs ≡ ok fs
    plain_fields_lem end h = refl
    plain_fields_lem (field k x fs) h = rw (plain_lem x h.0) (rw (plain_fields_lem fs h.1))

  -- A value in which no text holds both template brackets is rendered to itself.
  pub render_interface-plain : (v : Any F) → IsPlain v → render_interface e d v ≡ ok v
  render_interface-plain v h = plain_lem v h

-- The second value has the structure of the first: it may differ only where the first has a text.
mutual
  pub data SameShape {F : Type 0} : Any F → Any F → Type 0 where
    at_text : (s : String) (w : Any F) → SameShape (text s) w
    at_null : SameShape null null
    at_bool : (b : Bool) → SameShape (bool b) (bool b)
    at_int : (n : ℤ) → SameShape (int n) (int n)
    at_float : (f : F) → SameShape (float64 f) (float64 f)
    at_texts : (ss : List String) → SameShape (texts ss) (texts ss)
    in_array : {xs ys : Items F} → SameItems xs ys → SameShape (array xs) (array ys)
    in_object : {fs gs : Fields F} → SameFields fs gs → SameShape (object fs) (object gs)

  pub data SameItems {F : Type 0} : Items F → Items F → Type 0 where
    no_items : SameItems nil nil
    next_item :
        {x y : Any F} {xs ys : Items F}
        → SameShape x y
        → SameItems xs ys
        → SameItems (cons x xs) (cons y ys)

  pub data SameFields {F : Type 0} : Fields F → Fields F → Type 0 where
    no_fields : SameFields end end
    next_field :
        (k : String) {x y : Any F} {fs gs : Fields F}
        → SameShape x y
        → SameFields fs gs
        → SameFields (field k x fs) (field k y gs)

ok-injective : {A : Type 0} {a b : A} → ok a ≡ ok b → a ≡ b
ok-injective h = ground arith

module _ {F : Type 0} (e : Engine F) (d : TemplateData F) where
  mutual
    unfolding render_interface render_items render_fields

    shape_lem : (v w : Any F) → render_interface e d v ≡ ok w → SameShape v w
    shape_lem (object fs) w h =
        let step = bind-ok (render_fields e d fs) _ h in
        subst (SameShape (object fs)) (ok-injective step.2)
          (in_object (shape_fields_lem fs step.0 step.1))
    shape_lem (array xs) w h =
        let step = bind-ok (render_items e d xs) _ h in
        subst (SameShape (array xs)) (ok-injective step.2)
          (in_array (shape_items_lem xs step.0 step.1))
    shape_lem (text s) w h = at_text s w
    shape_lem null w h = subst (SameShape null) (ok-injective h) at_null
    shape_lem (bool b) w h = subst (SameShape (bool b)) (ok-injective h) (at_bool b)
    shape_lem (int n) w h = subst (SameShape (int n)) (ok-injective h) (at_int n)
    shape_lem (float64 f) w h = subst (SameShape (float64 f)) (ok-injective h) (at_float f)
    shape_lem (texts ss) w h = subst (SameShape (texts ss)) (ok-injective h) (at_texts ss)

    shape_items_lem : (xs ys : Items F) → render_items e d xs ≡ ok ys → SameItems xs ys
    shape_items_lem nil ys h = subst (SameItems nil) (ok-injective h) no_items
    shape_items_lem (cons x xs) ys h =
        let first = bind-ok (render_interface e d x) _ h in
        let rest = bind-ok (render_items e d xs) _ first.2 in
        subst (SameItems (cons x xs)) (ok-injective rest.2)
          (next_item (shape_lem x first.0 first.1) (shape_items_lem xs rest.0 rest.1))

    shape_fields_lem : (fs gs : Fields F) → render_fields e d fs ≡ ok gs → SameFields fs gs
    shape_fields_lem end gs h = subst (SameFields end) (ok-injective h) no_fields
    shape_fields_lem (field k x fs) gs h =
        let first = bind-ok (render_interface e d x) _ h in
        let rest = bind-ok (render_fields e d fs) _ first.2 in
        subst (SameFields (field k x fs)) (ok-injective rest.2)
          (next_field k (shape_lem x first.0 first.1) (shape_fields_lem fs rest.0 rest.1))

  -- A successful rendering keeps the structure of the value: only a text may become another value;
  -- keys, their order, the lengths of arrays and all values of other types stay.
  pub render_interface-SameShape : (v w : Any F) → render_interface e d v ≡ ok w → SameShape v w
  render_interface-SameShape v w h = shape_lem v w h
