-- ===== src/Render/Fields.antt =====
-- Go's map[string]any on `Fields`: reading and writing a key.
use opencode_advance.Prelude.{
  String, ◌≡◌, inl, inr, Option, none, some, arith, refl, ap, eq_iff, str_eq, if◌then◌else◌,
  Bool-cases,
}
use opencode_advance.Value.{Value, Fields, no_more, entry}

-- m[key], with the missing key as `none`
unfoldable pub get_field : String → Fields → Option Value
get_field key no_more = none
get_field key (entry held value others) =
    if str_eq held key then some value else get_field key others

-- m[key] = value
unfoldable pub put_field : String → Value → Fields → Fields
put_field key value no_more = entry key value no_more
put_field key value (entry held old others) =
    if str_eq held key then entry held value others else entry held old (put_field key value others)

pub get_field-put_field :
    (m : Fields) (written read : String) (value : Value)
    → get_field read (put_field written value m)
      ≡ (if str_eq written read then some value else get_field read m)
unfolding get_field put_field
get_field-put_field no_more written read value = refl
get_field-put_field (entry held old others) written read value = ground (
  arith,
  eq_iff written read,
  eq_iff held written,
  eq_iff held read,
  get_field-put_field others written read value,
)

-- Writing what is there changes nothing.
pub put_field-get_field :
    (m : Fields) (key : String) (value : Value)
    → get_field key m ≡ some value
    → put_field key value m ≡ m
unfolding get_field put_field
put_field-get_field no_more key value h = absurd (ground (arith, h))
put_field-get_field (entry held old others) key value h = elim (Bool-cases (str_eq held key)) [
  | inl e ↦ rw e (ground (arith, e, h))
  | inr n ↦ rw n (ap (entry held old) (put_field-get_field others key value (ground (arith, n, h))))
]
