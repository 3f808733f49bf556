-- ===== src/Value.antt =====
-- The dynamic values of the program, Go's `any` as JSON and TOML decoding produce it: `map[string]any`
-- is `Fields`, `[]any` is `Items`.
use opencode_advance.Prelude.{ℤ, String, Bool, true, false}

mutual
  pub data Value : Type 0 where
    absent : Value
    boolean : Bool → Value
    number : ℤ → Value
    text : String → Value
    table : Fields → Value
    array : Items → Value

  pub data Fields : Type 0 where
    no_more : Fields
    entry : String → Value → Fields → Fields

  pub data Items : Type 0 where
    no_item : Items
    item : Value → Items → Items

-- len(m) == 0
abbrev pub no_fields : Fields → Bool
no_fields no_more = true
no_fields (entry key value others) = false
