-- ===== src/Render/Merge/Laws.antt =====
-- `mergeMap`: what each key holds after a merge, and that merging again changes nothing.
use opencode_advance.Prelude.{
  String, ◌≡◌, inl, inr, false, Option, none, some, arith, refl, ap, subst, ◌∙◌, eq_iff, eq_refl,
  str_eq, if◌then◌else◌, Bool-cases,
}
use opencode_advance.Value.{Value, Fields, no_more, entry}
use opencode_advance.Render.Fields.{get_field, put_field, get_field-put_field, put_field-get_field}
use opencode_advance.Render.Merge.{merge_map, merge_value}

-- The keys of an object, and of the objects in it, are distinct, as in a Go map.
unfoldable mutual
  pub IsMap : Fields → Type 0
  IsMap no_more = Unit
  IsMap (entry key value rest) = (get_field key rest ≡ none) × IsMapValue value × IsMap rest

  pub IsMapValue : Value → Type 0
  IsMapValue (Value.table fields) = IsMap fields
  IsMapValue value = Unit

-- The value of a key after a merge, from the declared and the existing one.
abbrev pub overridden : Option Value → Option Value → Option Value
overridden none held = held
overridden (some value) held = some (merge_value value held)

-- After a merge a key that is declared holds the declared value, merged into the existing one where
-- both are objects, and every other key holds what it held; the declared keys are distinct.
pub get_field-merge_map :
    (src dst : Fields) (key : String)
    → IsMap src
    → get_field key (merge_map src dst) ≡ overridden (get_field key src) (get_field key dst)
unfolding merge_map IsMap get_field
get_field-merge_map no_more dst key d = refl
get_field-merge_map (entry k v rest) dst key (fresh, _, d) =
    get_field-merge_map rest (put_field k (merge_value v (get_field k dst)) dst) key d
    ∙ step (get_field-put_field dst k key (merge_value v (get_field k dst)))
  where
    step :
        get_field key (put_field k (merge_value v (get_field k dst)) dst)
          ≡ (if str_eq k key then some (merge_value v (get_field k dst)) else get_field key dst)
        → overridden
            (get_field key rest)
            (get_field key (put_field k (merge_value v (get_field k dst)) dst))
          ≡ overridden (if str_eq k key then some v else get_field key rest) (get_field key dst)
    step e = elim (Bool-cases (str_eq k key)) [
      | inl same ↦
          let k≡key = (eq_iff k key).0 same in
          rw same (
            rw (subst (λ z. get_field z rest ≡ none) k≡key fresh)
              (e ∙ rw same (ap (λ z. some (merge_value v (get_field z dst))) k≡key)))
      | inr other ↦ rw other (ap (overridden (get_field key rest)) (e ∙ rw other refl))
    ]

-- A value that merging `v` into leaves as it is.
abbrev Settled : Value → Value → Type 0
Settled v held = merge_value v (some held) ≡ held

-- If each declared key holds a value that its merge leaves as it is, the merge changes nothing.
merge_map-Settled :
    (src m : Fields)
    → IsMap src
    → ((key : String) (v : Value)
        → get_field key src ≡ some v
        → (held : Value) × (get_field key m ≡ some held) × Settled v held)
    → merge_map src m ≡ m
unfolding merge_map IsMap get_field
merge_map-Settled no_more m d h = refl
merge_map-Settled (entry k v rest) m (fresh, _, d) h =
    let (held, there, settled) = h k v (rw (eq_refl k) refl) in
    ap (merge_map rest) (
      ap (λ z. put_field k (merge_value v z) m) there
      ∙ ap (λ z. put_field k z m) settled
      ∙ put_field-get_field m k held there)
    ∙ merge_map-Settled rest m d λ key v' e. h key v' (rw (other key v' e) e)
  where
    other : (key : String) (v' : Value) → get_field key rest ≡ some v' → str_eq k key ≡ false
    other key v' e = elim (Bool-cases (str_eq k key)) [
      | inl same ↦
          absurd
            (ground (arith, subst (λ z. get_field z rest ≡ none) ((eq_iff k key).0 same) fresh, e))
      | inr n ↦ n
    ]

some_inj : {v w : Value} → some v ≡ some w → v ≡ w
some_inj {v} e = ap (value_or v) e
  where
    value_or : Value → Option Value → Value
    value_or d none = d
    value_or d (some w) = w

-- The values of all keys are settled in themselves, and where they were merged.
abbrev AllSettled : Fields → Type 0
AllSettled src =
    (key : String) (v : Value)
    → get_field key src ≡ some v
    → (held : Option Value) → Settled v v × Settled v (merge_value v held)

module _ (src : Fields) (d : IsMap src) (all : AllSettled src) where
  merge_map_settled : (dst : Fields) → merge_map src (merge_map src dst) ≡ merge_map src dst
  merge_map_settled dst = merge_map-Settled src (merge_map src dst) d λ key v e. (
    merge_value v (get_field key dst),
    get_field-merge_map src dst key d ∙ ap (λ z. overridden z (get_field key dst)) e,
    (all key v e (get_field key dst)).1,
  )

  self-Settled : Settled (Value.table src) (Value.table src)
  unfolding merge_map
  self-Settled =
      ap Value.table (merge_map-Settled src src d λ key v e. (v, e, (all key v e none).0))

  table-Settled :
      (held : Option Value) → Settled (Value.table src) (merge_value (Value.table src) held)
  unfolding merge_map
  table-Settled (some (Value.table dst)) = ap Value.table (merge_map_settled dst)
  table-Settled none = self-Settled
  table-Settled (some Value.absent) = self-Settled
  table-Settled (some (Value.boolean b)) = self-Settled
  table-Settled (some (Value.number n)) = self-Settled
  table-Settled (some (Value.text t)) = self-Settled
  table-Settled (some (Value.array xs)) = self-Settled

-- The value of a declared key, merged into anything, is settled; so is the value by itself.
mutual
  unfolding merge_map IsMap get_field

  all-Settled :
      (src : Fields)
      → IsMap src
      → (key : String) (v : Value) → get_field key src ≡ some v
      → (held : Option Value) → Settled v v × Settled v (merge_value v held)
  all-Settled no_more d key v e held = absurd (ground (arith, e))
  all-Settled (entry k u rest) (_, mapped, d) key v e held = elim (Bool-cases (str_eq k key)) [
    | inl same ↦
        subst (λ z. Settled z z × Settled z (merge_value z held))
          (some_inj (subst (λ t. (if t then some u else get_field key rest) ≡ some v) same e))
          (value-Settled u mapped held)
    | inr n ↦
        all-Settled rest d key v
          (subst (λ t. (if t then some u else get_field key rest) ≡ some v) n e) held
  ]

  value-Settled :
      (v : Value)
      → IsMapValue v
      → (held : Option Value) → Settled v v × Settled v (merge_value v held)
  value-Settled (Value.table src) d held =
      (self-Settled src d (all-Settled src d), table-Settled src d (all-Settled src d) held)
  value-Settled Value.absent d held = (refl, refl)
  value-Settled (Value.boolean b) d held = (refl, refl)
  value-Settled (Value.number n) d held = (refl, refl)
  value-Settled (Value.text t) d held = (refl, refl)
  value-Settled (Value.array xs) d held = (refl, refl)

-- Merging what was just merged changes nothing, at any depth; the keys of each declared object are
-- distinct.
pub merge_map_idem :
    (src dst : Fields) → IsMap src → merge_map src (merge_map src dst) ≡ merge_map src dst
merge_map_idem src dst d = merge_map_settled src d (all-Settled src d) dst
