-- ===== src/Render/Merge/Keys.antt =====
-- What a merge of objects must give, key by key, and that `mergeMap` gives it.
use opencode_advance.Prelude.{
  String, ◌≡◌, inl, inr, Option, none, some, arith, subst, sym, str_eq, Bool-cases,
}
use opencode_advance.Value.{Value, Fields, no_more, entry}
use opencode_advance.Render.Fields.{get_field}
use opencode_advance.Render.Merge.{merge_map, merge_value}
use opencode_advance.Render.Merge.Laws.{IsMap, IsMapValue, overridden, get_field-merge_map}

-- What a key holds after a merge, from what it is declared and what it held before.
pub data KeyMerged : Option Value → Option Value → Option Value → Type 0 where
  kept : {held : Option Value} → KeyMerged none held held
  written :
      {v : Value} {held : Option Value}
      → ((s d : Fields) → v ≡ Value.table s → held ≡ some (Value.table d) → ⊥)
      → KeyMerged (some v) held (some v)
  merged :
      {s d o : Fields}
      → ((key : String) → KeyMerged (get_field key s) (get_field key d) (get_field key o))
      → KeyMerged (some (Value.table s)) (some (Value.table d)) (some (Value.table o))

-- The same for every key of an object.
abbrev pub IsMerged : Fields → Fields → Fields → Type 0
IsMerged src dst out =
    (key : String) → KeyMerged (get_field key src) (get_field key dst) (get_field key out)

mutual
  unfolding merge_map IsMap get_field

  field-KeyMerged :
      (src : Fields)
      → IsMap src
      → (key : String) (held : Option Value)
      → KeyMerged (get_field key src) held (overridden (get_field key src) held)
  field-KeyMerged no_more d key held = KeyMerged.kept
  field-KeyMerged (entry k v rest) (_, mapped, d) key held = elim (Bool-cases (str_eq k key)) [
    | inl same ↦ rw same (value-KeyMerged v mapped held)
    | inr other ↦ rw other (field-KeyMerged rest d key held)
  ]

  value-KeyMerged :
      (v : Value)
      → IsMapValue v
      → (held : Option Value) → KeyMerged (some v) held (some (merge_value v held))
  value-KeyMerged (Value.table s) d (some (Value.table t)) = KeyMerged.merged (λ key.
      subst (KeyMerged (get_field key s) (get_field key t)) (sym (get_field-merge_map s t key d))
        (field-KeyMerged s d key (get_field key t)))
  value-KeyMerged (Value.table s) d none = KeyMerged.written (λ _ _ _ e. ground (arith, e))
  value-KeyMerged (Value.table s) d (some Value.absent) =
      KeyMerged.written (λ _ _ _ e. ground (arith, e))
  value-KeyMerged (Value.table s) d (some (Value.boolean b)) =
      KeyMerged.written (λ _ _ _ e. ground (arith, e))
  value-KeyMerged (Value.table s) d (some (Value.number n)) =
      KeyMerged.written (λ _ _ _ e. ground (arith, e))
  value-KeyMerged (Value.table s) d (some (Value.text t)) =
      KeyMerged.written (λ _ _ _ e. ground (arith, e))
  value-KeyMerged (Value.table s) d (some (Value.array xs)) =
      KeyMerged.written (λ _ _ _ e. ground (arith, e))
  value-KeyMerged Value.absent d held = KeyMerged.written (λ _ _ e _. ground (arith, e))
  value-KeyMerged (Value.boolean b) d held = KeyMerged.written (λ _ _ e _. ground (arith, e))
  value-KeyMerged (Value.number n) d held = KeyMerged.written (λ _ _ e _. ground (arith, e))
  value-KeyMerged (Value.text t) d held = KeyMerged.written (λ _ _ e _. ground (arith, e))
  value-KeyMerged (Value.array xs) d held = KeyMerged.written (λ _ _ e _. ground (arith, e))

-- After mergeMap a key that is not declared holds what it held; a key whose declared and existing
-- values are both objects holds the merge of these, key by key in the same way, at any depth; and
-- every other declared key holds the declared value. The keys of each declared object are distinct.
pub merge_map-IsMerged : (src dst : Fields) → IsMap src → IsMerged src dst (merge_map src dst)
merge_map-IsMerged src dst d key =
    subst (KeyMerged (get_field key src) (get_field key dst))
      (sym (get_field-merge_map src dst key d)) (field-KeyMerged src d key (get_field key dst))
