-- ===== src/Render/Merge/Examples.antt =====
-- Merges of concrete documents.
use opencode_advance.Prelude.{
  String, pos, ◌≡◌, some, List, [], ◌∷◌, refl, HasDistinctKeys, str_eq, if◌then◌else◌,
}
use opencode_advance.Value.{Value, Fields, no_more, entry}
use opencode_advance.Render.Fields.{get_field, put_field}
use opencode_advance.Render.Merge.{merge_map, Decoded, Merged, merge_object, merge_mcp, section_of}
use opencode_advance.Render.Merge.Laws.{IsMap, merge_map_idem}
use opencode_advance.Render.Merge.Keys.{IsMerged, merge_map-IsMerged}
use opencode_advance.Render.Merge.Documents.{IsMergedMcp, merge_mcp_lem, merge_object_idem}

abbrev existing : Fields
existing = entry "theme" (Value.text "dark") (
    entry "lsp"
      (Value.table
        (entry "go" (Value.number (pos 1)) (entry "mine" (Value.number (pos 2)) no_more)))
      no_more)

abbrev declared : Fields
declared =
    entry "lsp" (Value.table (entry "go" (Value.number (pos 3)) no_more))
      (entry "share" (Value.text "auto") no_more)

abbrev merged : Fields
merged = entry "theme" (Value.text "dark") (
    entry "lsp"
      (Value.table
        (entry "go" (Value.number (pos 3)) (entry "mine" (Value.number (pos 2)) no_more)))
      (entry "share" (Value.text "auto") no_more))

merge_run : merge_map declared existing ≡ merged
unfolding merge_map put_field get_field
merge_run = refl

declared-IsMap : IsMap declared
unfolding IsMap get_field
declared-IsMap = (refl, (refl, tt, tt), (refl, tt, tt))

-- A decoder that knows three files.
abbrev read : String → Decoded
read text =
    if str_eq text "old"
    then Decoded.object existing
    else if str_eq text "new"
    then Decoded.object (merge_map declared existing)
    else Decoded.nil_map

merge_map-IsMerged_example : IsMerged declared existing (merge_map declared existing)
merge_map-IsMerged_example = merge_map-IsMerged declared existing declared-IsMap

merge_map_idem_example :
    merge_map declared (merge_map declared existing) ≡ merge_map declared existing
merge_map_idem_example = merge_map_idem declared existing declared-IsMap

merge_object_idem_example : merge_object read "new" declared ≡ merge_object read "old" declared
merge_object_idem_example =
    merge_object_idem read "old" "new" declared existing declared-IsMap refl refl

abbrev fragments : List (String × Fields)
fragments = ("vision", entry "url" (Value.text "http://127.0.0.1:6275/mcp") no_more) ∷ []

fragments-HasDistinctKeys : HasDistinctKeys fragments
fragments-HasDistinctKeys = (tt, tt)

no_section : section_of read (get_field "mcp" existing) ≡ some no_more
unfolding get_field
no_section = refl

merge_mcp_lem_example :
    (out : Fields) × (merge_mcp read "old" fragments ≡ Merged.document (Value.table out))
    × IsMergedMcp read fragments existing no_more out
merge_mcp_lem_example =
    merge_mcp_lem read "old" fragments existing no_more fragments-HasDistinctKeys refl no_section
