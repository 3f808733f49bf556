-- ===== src/Render/Array/Examples.antt =====
-- Merging arrays of paths.
use opencode_advance.Prelude.{
  String, ◌≡◌, Bool, true, false, Option, some, [], ◌∷◌, refl, str_eq, if◌then◌else◌, clean_path,
}
use opencode_advance.Value.{Value, Fields, no_more, entry}
use opencode_advance.Render.Fields.{get_field, put_field}
use opencode_advance.Render.Merge.{Decoded}
use opencode_advance.Render.Array.{
  canonical_path, matches_worktree, is_stale_worktree, keep_entries, count_added, text_items,
  array_of, existing_entries, ArrayResult, ArrayOutcome, merge_array,
}
use opencode_advance.Render.Array.Laws.{merge_array_idem}
use opencode_advance.Render.Array.Keeps.{IsMergedArray, merge_array-IsMergedArray}

abbrev home : Option String
home = some "/h"

abbrev data_home : String
data_home = "/h/.local/share"

abbrev nothing_there : String → Bool
nothing_there path = false

pattern_runs :
    (matches_worktree home data_home nothing_there
        "/h/.local/share/opencode/worktree/0af/change/fix-1/x"
      ≡ true)
    × (matches_worktree home data_home nothing_there
          "/h/.local/share/opencode/worktree/0af/change/fix-1"
        ≡ true)
    × (matches_worktree home data_home nothing_there
          "/h/.local/share/opencode/worktree/0ag/change/fix-1"
        ≡ false)
    × (canonical_path home data_home nothing_there "~/a/../b/" ≡ "/h/b")
    × (canonical_path home data_home nothing_there "../b" ≡ "../b")
unfolding matches_worktree canonical_path clean_path
pattern_runs = (refl, refl, refl, refl, refl)

abbrev old : Fields
old =
    entry "plugin"
      (Value.array
        (array_of ("/h/a" ∷ "/h/.local/share/opencode/worktree/0af/change/fix-1/x" ∷ "/u" ∷ [])))
      no_more

abbrev new : Fields
new = entry "plugin" (Value.array (array_of ("~/a" ∷ "/n" ∷ "/u" ∷ []))) no_more

abbrev read : String → Decoded
read text = if str_eq text "old" then Decoded.object old else Decoded.object new

abbrev result : ArrayResult
result = record { document = new; pruned_count = 1; added_count = 1; preserved_count = 1 }

merge_run :
    merge_array home data_home nothing_there read "old" "plugin" ("~/a" ∷ "/n" ∷ []) true
    ≡ ArrayOutcome.merged result
unfolding merge_array keep_entries count_added canonical_path is_stale_worktree matches_worktree
    clean_path text_items array_of get_field put_field
merge_run = refl

merge_array_idem_example :
    merge_array home data_home nothing_there read "new" "plugin" ("~/a" ∷ "/n" ∷ []) true
    ≡ ArrayOutcome.merged (record result { pruned_count = 0; added_count = 0 })
merge_array_idem_example =
    merge_array_idem home data_home nothing_there read "plugin" ("~/a" ∷ "/n" ∷ []) true "old" "new"
      result refl merge_run refl

old_items :
    existing_entries (get_field "plugin" old)
    ≡ some ("/h/a" ∷ "/h/.local/share/opencode/worktree/0af/change/fix-1/x" ∷ "/u" ∷ [])
unfolding get_field text_items array_of
old_items = refl

merge_array-IsMergedArray_example :
    (r : ArrayResult) × (merge_array home data_home nothing_there read "old" "plugin"
        ("~/a" ∷ "/n" ∷ [])
        true
      ≡ ArrayOutcome.merged r)
    × IsMergedArray home data_home nothing_there read "plugin"
        ("~/a" ∷ "/n" ∷ [])
        true
        old
        ("/h/a" ∷ "/h/.local/share/opencode/worktree/0af/change/fix-1/x" ∷ "/u" ∷ [])
        r
merge_array-IsMergedArray_example =
    merge_array-IsMergedArray home data_home nothing_there read "plugin" ("~/a" ∷ "/n" ∷ []) true
      "old" old ("/h/a" ∷ "/h/.local/share/opencode/worktree/0af/change/fix-1/x" ∷ "/u" ∷ []) refl
      refl old_items
