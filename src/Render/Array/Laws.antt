-- ===== src/Render/Array/Laws.antt =====
-- What `MergeArray` keeps, and that merging again changes nothing.
use opencode_advance.Prelude.{
  String, ◌≡◌, inl, inr, Bool, true, false, ◌&&◌, Option, none, some, List, [], ◌∷◌, ◌++◌, arith,
  refl, ap, subst, ◌∙◌, eq_refl, Bool-cases, All, length, Memᴰ, mem-append_left, is_blank,
}
use opencode_advance.Value.{Value, Fields, no_more}
use opencode_advance.Render.Fields.{get_field, get_field-put_field, put_field-get_field}
use opencode_advance.Render.Merge.{Decoded}
use opencode_advance.Render.Array.{
  canonical_path, is_stale_worktree, in_set, keep_entries, count_added, text_items, array_of,
  existing_entries, ArrayResult, ArrayOutcome, merge_entries, merge_array_into, merge_array,
}

text_items-array_of : (xs : List String) → text_items (array_of xs) ≡ xs
unfolding text_items array_of
text_items-array_of [] = refl
text_items-array_of (x ∷ xs) = ap (λ ys. x ∷ ys) (text_items-array_of xs)

module _ (home : Option String) (data_home : String) (exists : String → Bool) where
  -- An existing entry stays: no declared entry has its canonical path, and it is not pruned.
  abbrev pub IsKept : Bool → List String → String → Type 0
  IsKept strip declared e =
      (in_set home data_home exists (canonical_path home data_home exists e) declared ≡ false)
      × ((strip && is_stale_worktree home data_home exists e) ≡ false)

  keep_entries-IsKept :
      (strip : Bool) (declared es : List String)
      → All (IsKept strip declared) (keep_entries home data_home exists strip declared es).0
  unfolding keep_entries
  keep_entries-IsKept strip declared [] = tt
  keep_entries-IsKept strip declared (e ∷ es) =
      elim (Bool-cases
        (in_set home data_home exists (canonical_path home data_home exists e) declared)) [
          | inl d ↦ rw d (keep_entries-IsKept strip declared es)
          | inr n ↦ elim (Bool-cases (strip && is_stale_worktree home data_home exists e)) [
            | inl s ↦ rw n (rw s (keep_entries-IsKept strip declared es))
            | inr k ↦ rw n (rw k ((n, k), keep_entries-IsKept strip declared es))
          ]
        ]

  keep_entries-kept :
      (strip : Bool) (declared es : List String)
      → All (IsKept strip declared) es
      → keep_entries home data_home exists strip declared es ≡ (es, 0)
  unfolding keep_entries
  keep_entries-kept strip declared [] h = refl
  keep_entries-kept strip declared (e ∷ es) h =
      rw (h.0.0) (rw (h.0.1) (ap (λ r. (e ∷ r.0, r.1)) (keep_entries-kept strip declared es h.1)))

  in_set-mem :
      (x : String) (xs : List String)
      → Memᴰ x xs
      → in_set home data_home exists (canonical_path home data_home exists x) xs ≡ true
  in_set-mem x [] m = elim m [ ]
  in_set-mem x (y ∷ ys) (Memᴰ.head e) =
      rw e (rw (eq_refl (canonical_path home data_home exists y)) refl)
  in_set-mem x (y ∷ ys) (Memᴰ.tail m) = ground (arith, in_set-mem x ys m)

  -- Declared entries in front of the existing ones are dropped.
  keep_entries-declared :
      (strip : Bool) (declared ds es : List String)
      → ((d : String) → Memᴰ d ds → Memᴰ d declared)
      → keep_entries home data_home exists strip declared (ds ++ es)
        ≡ keep_entries home data_home exists strip declared es
  unfolding keep_entries
  keep_entries-declared strip declared [] es h = refl
  keep_entries-declared strip declared (d ∷ ds) es h =
      rw (in_set-mem d declared (h d (Memᴰ.head refl)))
        (keep_entries-declared strip declared ds es (λ x m. h x (Memᴰ.tail m)))

  count_added-none :
      (existing ds : List String)
      → ((d : String) → Memᴰ d ds → Memᴰ d existing)
      → count_added home data_home exists existing ds ≡ 0
  unfolding count_added
  count_added-none existing [] h = refl
  count_added-none existing (d ∷ ds) h =
      rw (in_set-mem d existing (h d (Memᴰ.head refl)))
        (count_added-none existing ds (λ x m. h x (Memᴰ.tail m)))

  module _ (unmarshal : String → Decoded) (array_path : String) (declared : List String)
      (strip : Bool) where
    -- What a result's document holds.
    abbrev Wrote : ArrayResult → Type 0
    Wrote r =
        (kept : List String) × All (IsKept strip declared) kept
        × (get_field array_path r.document ≡ some (Value.array (array_of (declared ++ kept))))
        × (length kept ≡ r.preserved_count)

    abbrev result_or : ArrayResult → ArrayOutcome → ArrayResult
    result_or d (ArrayOutcome.refused e) = d
    result_or d (ArrayOutcome.merged r) = r

    merge_entries-Wrote :
        (doc : Fields) (found : Option (List String)) (r : ArrayResult)
        → merge_entries home data_home exists doc array_path declared strip found
          ≡ ArrayOutcome.merged r
        → Wrote r
    merge_entries-Wrote doc none r h = absurd (ground (arith, h))
    merge_entries-Wrote doc (some es) r h =
        let kept = (keep_entries home data_home exists strip declared es).0 in
        subst Wrote (ap (result_or r) h) (
          kept,
          keep_entries-IsKept strip declared es,
          get_field-put_field doc array_path array_path (Value.array (array_of (declared ++ kept)))
              ∙ rw (eq_refl array_path) refl,
          refl,
        )

    merge_array_into-Wrote :
        (decoded : Decoded) (r : ArrayResult)
        → merge_array_into home data_home exists array_path declared strip decoded
          ≡ ArrayOutcome.merged r
        → Wrote r
    merge_array_into-Wrote (Decoded.invalid e) r h = absurd (ground (arith, h))
    merge_array_into-Wrote Decoded.nil_map r h = merge_entries-Wrote no_more (some []) r h
    merge_array_into-Wrote (Decoded.object doc) r h =
        merge_entries-Wrote doc (existing_entries (get_field array_path doc)) r h

    merge_again :
        (doc : Fields) (kept : List String)
        → All (IsKept strip declared) kept
        → get_field array_path doc ≡ some (Value.array (array_of (declared ++ kept)))
        → merge_entries home data_home exists doc array_path declared strip
            (existing_entries (get_field array_path doc))
          ≡ ArrayOutcome.merged (record {
            document = doc;
            pruned_count = 0;
            added_count = 0;
            preserved_count = length kept;
          })
    merge_again doc kept k g =
        let es = declared ++ kept in
        rw g (
          rw (text_items-array_of es) (
            rw
              (keep_entries-declared strip declared declared kept (λ d m. m)
                ∙ keep_entries-kept strip declared kept k)
              (λ i. ArrayOutcome.merged (record {
                document = put_field-get_field doc array_path (Value.array (array_of es)) g i;
                pruned_count = 0;
                added_count =
                    count_added-none es declared (λ d m. mem-append_left declared kept m) i;
                preserved_count = length kept;
              }))))

    -- When a file decodes to the document that MergeArray wrote, merging the same entries again
    -- writes the same document, prunes nothing and adds nothing, while the same files exist.
    pub merge_array_idem :
        (root again : String) (result : ArrayResult)
        → is_blank again ≡ false
        → merge_array home data_home exists unmarshal root array_path declared strip
          ≡ ArrayOutcome.merged result
        → unmarshal again ≡ Decoded.object result.document
        → merge_array home data_home exists unmarshal again array_path declared strip
          ≡ ArrayOutcome.merged (record result { pruned_count = 0; added_count = 0 })
    unfolding merge_array
    merge_array_idem root again result b h u =
        let (kept, k, g, n) = merge_array_into-Wrote _ result h in
        rw b (
          ap (merge_array_into home data_home exists array_path declared strip) u
          ∙ merge_again result.document kept k g
          ∙ ap
              (λ m.
                ArrayOutcome.merged
                  (record result { pruned_count = 0; added_count = 0; preserved_count = m }))
              n)
