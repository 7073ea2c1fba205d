-- ===== src/Api/Any.antt =====
-- Go's `any`: the dynamic values that JSON decoding and the config validators make. A JSON number
-- decodes to a `float64`, an array to a `[]any`; an `int` and a `[]string` come from Go code only.
-- The type of floats is a parameter.
use forkspacer.Base.{String, Bool, List}
use forkspacer.Go.Int.{ℤ}

mutual
  pub data Any (F : Type 0) : Type 0 where
    null : Any F
    bool : Bool → Any F
    int : ℤ → Any F
    float64 : F → Any F
    text : String → Any F
    texts : List String → Any F
    array : Items F → Any F
    object : Fields F → Any F

  pub data Items (F : Type 0) : Type 0 where
    nil : Items F
    cons : Any F → Items F → Items F

  pub data Fields (F : Type 0) : Type 0 where
    end : Fields F
    field : String → Any F → Fields F → Fields F
