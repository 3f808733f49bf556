-- ===== src/Render/Array/Keeps.antt =====
-- What `MergeArray` does to the existing entries, one after the other, and to the document.
use opencode_advance.Prelude.{
  ℕ, ◌+◌, String, ◌≡◌, ◌⊎◌, inl, inr, Bool, true, false, ◌&&◌, Option, some, List, [], ◌∷◌, ◌++◌,
  arith, refl, ap, sym, ◌∙◌, eq_iff, eq_refl, Bool-cases, length, Memᴰ, is_blank, str_eq,
}
use opencode_advance.Value.{Value, Fields}
use opencode_advance.Render.Fields.{get_field, put_field, get_field-put_field}
use opencode_advance.Render.Merge.{Decoded}
use opencode_advance.Render.Array.{
  canonical_path, matches_worktree, is_stale_worktree, in_set, keep_entries, array_of,
  existing_entries, ArrayResult, ArrayOutcome, merge_entries, merge_array_into, merge_array,
}

module _ (home : Option String) (data_home : String) (exists : String → Bool) where
  -- A list has an entry with the canonical path of `e`.
  abbrev pub HasSame : String → List String → Type 0
  HasSame e declared =
      (d : String) × Memᴰ d declared
      × (canonical_path home data_home exists d ≡ canonical_path home data_home exists e)

  -- From the existing entries, in their order, the ones that stay, and how many are pruned.
  pub data Passes (strip : Bool) (declared : List String)
      : List String → List String → ℕ → Type 0 where
    done : Passes strip declared [] [] 0
    repeated :
        {es kept : List String} {n : ℕ} (e : String)
        → HasSame e declared
        → Passes strip declared es kept n
        → Passes strip declared (e ∷ es) kept n
    pruned :
        {es kept : List String} {n : ℕ} (e : String)
        → (HasSame e declared → ⊥)
        → strip ≡ true
        → matches_worktree home data_home exists e ≡ true
        → exists e ≡ false
        → Passes strip declared es kept n
        → Passes strip declared (e ∷ es) kept (n + 1)
    stays :
        {es kept : List String} {n : ℕ} (e : String)
        → (HasSame e declared → ⊥)
        → (strip ≡ false) ⊎ (matches_worktree home data_home exists e ≡ false) ⊎ (exists e ≡ true)
        → Passes strip declared es kept n
        → Passes strip declared (e ∷ es) (e ∷ kept) n

  in_set-HasSame :
      (e : String) (declared : List String)
      → in_set home data_home exists (canonical_path home data_home exists e) declared ≡ true
      → HasSame e declared
  in_set-HasSame e [] h = absurd (ground (arith, h))
  in_set-HasSame e (d ∷ ds) h =
      elim (Bool-cases (
        str_eq (canonical_path home data_home exists d) (canonical_path home data_home exists e))) [
          | inl same ↦ (d, Memᴰ.head refl, (eq_iff _ _).0 same)
          | inr other ↦
              let (d', m, same) = in_set-HasSame e ds (ground (arith, h, other)) in
              (d', Memᴰ.tail m, same)
        ]

  HasSame-in_set :
      (e : String) (declared : List String)
      → HasSame e declared
      → in_set home data_home exists (canonical_path home data_home exists e) declared ≡ true
  HasSame-in_set e [] (d, m, same) = elim m [ ]
  HasSame-in_set e (x ∷ ds) (d, Memᴰ.head h, same) =
      rw ((eq_iff _ _).1 (ap (canonical_path home data_home exists) (sym h) ∙ same)) refl
  HasSame-in_set e (x ∷ ds) (d, Memᴰ.tail m, same) =
      ground (arith, HasSame-in_set e ds (d, m, same))

  not_same :
      (e : String) (declared : List String)
      → in_set home data_home exists (canonical_path home data_home exists e) declared ≡ false
      → HasSame e declared
      → ⊥
  not_same e declared n h = ground (arith, n, HasSame-in_set e declared h)

  keep_entries-Passes :
      (strip : Bool) (declared es : List String)
      → let r = keep_entries home data_home exists strip declared es in
        Passes strip declared es r.0 r.1
  unfolding keep_entries is_stale_worktree
  keep_entries-Passes strip declared [] = Passes.done
  keep_entries-Passes strip declared (e ∷ es) =
      elim (Bool-cases
        (in_set home data_home exists (canonical_path home data_home exists e) declared)) [
          | inl d ↦ rw d (
              Passes.repeated e (in_set-HasSame e declared d)
                (keep_entries-Passes strip declared es))
          | inr n ↦ elim (Bool-cases (strip && is_stale_worktree home data_home exists e)) [
            | inl s ↦ rw n (
                rw s (
                  Passes.pruned e (not_same e declared n) (ground (arith, s)) (ground (arith, s))
                    (ground (arith, s)) (keep_entries-Passes strip declared es)))
            | inr k ↦ rw n (
                rw k (
                  Passes.stays e (not_same e declared n) (ground (arith, k))
                    (keep_entries-Passes strip declared es)))
          ]
        ]

  module _ (unmarshal : String → Decoded) (array_path : String) (declared : List String)
      (strip : Bool) where
    -- What a merge gives: the document has, under the path, the declared entries and after them the
    -- existing ones that stay, and holds under every other key what it held; and the counts.
    pub record IsMergedArray (doc : Fields) (es : List String) (r : ArrayResult) : Type 0 where
      pub preserved : List String
      pub passed : Passes strip declared es preserved r.pruned_count
      pub array :
          get_field array_path r.document ≡ some (Value.array (array_of (declared ++ preserved)))
      pub others :
          (key : String) → (key ≡ array_path) ⊎ (get_field key r.document ≡ get_field key doc)
      pub counted : r.preserved_count ≡ length preserved

    put_field-others :
        (doc : Fields) (value : Value) (key : String)
        → (key ≡ array_path) ⊎ (get_field key (put_field array_path value doc) ≡ get_field key doc)
    put_field-others doc value key = elim (Bool-cases (str_eq array_path key)) [
      | inl same ↦ inl (sym ((eq_iff array_path key).0 same))
      | inr other ↦ inr (get_field-put_field doc array_path key value ∙ rw other refl)
    ]

    merge_entries-IsMergedArray :
        (doc : Fields) (es : List String)
        → (r : ArrayResult) × (merge_entries home data_home exists doc array_path declared strip
              (some es)
            ≡ ArrayOutcome.merged r)
          × IsMergedArray doc es r
    merge_entries-IsMergedArray doc es =
        let kept = (keep_entries home data_home exists strip declared es).0 in
        let value = Value.array (array_of (declared ++ kept)) in
        (
          _,
          refl,
          record {
            preserved = kept;
            passed = keep_entries-Passes strip declared es;
            array =
                get_field-put_field doc array_path array_path value ∙ rw (eq_refl array_path) refl;
            others = put_field-others doc value;
            counted = refl;
          },
        )

    -- Where a file decodes to an object whose value under the path is missing or an array, MergeArray
    -- succeeds. Under the path the new document has the declared entries and after them, in their
    -- order and with their repetitions, the existing texts that stay; its other keys are as before.
    -- An existing text that has the canonical path of a declared one goes. Of the others, one that
    -- matches the pattern of worktrees and does not exist is pruned, if pruning is asked for, and all
    -- the rest stay. The counts are those of the pruned ones and of the ones that stay.
    pub merge_array-IsMergedArray :
        (root : String) (doc : Fields) (es : List String)
        → is_blank root ≡ false
        → unmarshal root ≡ Decoded.object doc
        → existing_entries (get_field array_path doc) ≡ some es
        → (r : ArrayResult) × (merge_array home data_home exists unmarshal root array_path declared
              strip
            ≡ ArrayOutcome.merged r)
          × IsMergedArray doc es r
    unfolding merge_array
    merge_array-IsMergedArray root doc es b u e =
        let (r, m, is) = merge_entries-IsMergedArray doc es in
        (
          r,
          rw b (
              ap (merge_array_into home data_home exists array_path declared strip) u
              ∙ ap (merge_entries home data_home exists doc array_path declared strip) e
              ∙ m),
          is,
        )
