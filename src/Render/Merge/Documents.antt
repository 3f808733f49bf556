-- ===== src/Render/Merge/Documents.antt =====
-- `MergeObject` on whole documents, and `MergeMCP`.
use opencode_advance.Prelude.{
  String, ◌≡◌, ◌≢◌, inl, inr, false, Option, none, some, List, [], ◌∷◌, refl, ap, sym, subst, ◌∙◌,
  eq_iff, str_eq, if◌then◌else◌, Bool-cases, All, HasDistinctKeys, lookup,
}
use opencode_advance.Value.{Value, Fields}
use opencode_advance.Render.Fields.{get_field, put_field, get_field-put_field}
use opencode_advance.Render.Merge.{
  merge_map, Decoded, Merged, decode, merge_decoded, merge_object, put_fragments, section_of,
  write_mcp, merge_mcp_into, merge_mcp,
}
use opencode_advance.Render.Merge.Laws.{IsMap, merge_map_idem}

not_equal : (s t : String) → t ≢ s → str_eq s t ≡ false
not_equal s t ne = elim (Bool-cases (str_eq s t)) [
  | inl e ↦ absurd (ne (sym ((eq_iff s t).0 e)))
  | inr n ↦ n
]

lookup-absent : (k : String) (m : List (String × Fields)) → All (λ e. k ≢ e.0) m → lookup k m ≡ none
unfolding lookup
lookup-absent k [] h = refl
lookup-absent k ((held, value) ∷ others) h = rw (not_equal held k h.0) (lookup-absent k others h.1)

-- The fragment of a name after the merge.
abbrev pub chosen : Option Fields → Option Value → Option Value
chosen none held = held
chosen (some fragment) held = some (Value.table fragment)

module _ (unmarshal : String → Decoded) where
  get_field-put_fragments :
      (declared : List (String × Fields)) (mcp : Fields) (name : String)
      → HasDistinctKeys declared
      → get_field name (put_fragments unmarshal declared mcp)
        ≡ chosen (lookup name declared) (get_field name mcp)
  unfolding put_fragments lookup
  get_field-put_fragments [] mcp name d = refl
  get_field-put_fragments ((k, f) ∷ rest) mcp name d =
      get_field-put_fragments rest (put_field k (Value.table f) mcp) name d.1
      ∙ step (get_field-put_field mcp k name (Value.table f))
    where
      step :
          get_field name (put_field k (Value.table f) mcp)
            ≡ (if str_eq k name then some (Value.table f) else get_field name mcp)
          → chosen (lookup name rest) (get_field name (put_field k (Value.table f) mcp))
            ≡ chosen (if str_eq k name then some f else lookup name rest) (get_field name mcp)
      step e = elim (Bool-cases (str_eq k name)) [
        | inl same ↦ rw same (
            rw
              (subst (λ z. lookup z rest ≡ none) ((eq_iff k name).0 same)
                (lookup-absent k rest d.0))
              (e ∙ rw same refl))
        | inr other ↦ rw other (ap (chosen (lookup name rest)) (e ∙ rw other refl))
      ]

  -- What a document holds after MergeMCP.
  pub record IsMergedMcp (declared : List (String × Fields)) (root mcp out : Fields) : Type 0 where
    pub others : (key : String) → key ≢ "mcp" → get_field key out ≡ get_field key root
    pub servers : Fields
    pub section : get_field "mcp" out ≡ some (Value.table servers)
    pub each :
        (name : String)
        → get_field name servers ≡ chosen (lookup name declared) (get_field name mcp)

  -- MergeMCP into a file that decodes to an object, whose .mcp is an object or missing, gives an
  -- object with the same values under all other keys, in which .mcp holds each declared fragment
  -- under its name and each other entry as it was; the declared names are distinct.
  pub merge_mcp_lem :
      (existing : String) (declared : List (String × Fields)) (root mcp : Fields)
      → HasDistinctKeys declared
      → decode unmarshal existing ≡ Decoded.object root
      → section_of unmarshal (get_field "mcp" root) ≡ some mcp
      → (out : Fields) × (merge_mcp unmarshal existing declared ≡ Merged.document (Value.table out))
        × IsMergedMcp declared root mcp out
  unfolding merge_mcp
  merge_mcp_lem existing declared root mcp d e s =
      let servers = put_fragments unmarshal declared mcp in
      let out = put_field "mcp" (Value.table servers) root in
      (
        out,
        ap (merge_mcp_into unmarshal declared) e ∙ ap (write_mcp unmarshal declared root) s,
        record {
          others = λ key ne.
              get_field-put_field root "mcp" key (Value.table servers)
              ∙ rw (not_equal "mcp" key ne) refl;
          servers = servers;
          section = get_field-put_field root "mcp" "mcp" (Value.table servers);
          each = λ name. get_field-put_fragments declared mcp name d;
        },
      )

  -- When a file decodes to an object, and another to the object that MergeObject makes of it,
  -- merging the same values into the other file gives the same document again; the keys of every
  -- declared object are distinct.
  pub merge_object_idem :
      (existing again : String) (declared root : Fields)
      → IsMap declared
      → decode unmarshal existing ≡ Decoded.object root
      → decode unmarshal again ≡ Decoded.object (merge_map declared root)
      → merge_object unmarshal again declared ≡ merge_object unmarshal existing declared
  unfolding merge_object
  merge_object_idem existing again declared root d e f =
      ap (merge_decoded unmarshal declared) f
      ∙ ap (λ m. Merged.document (Value.table m)) (merge_map_idem declared root d)
      ∙ sym (ap (merge_decoded unmarshal declared) e)
