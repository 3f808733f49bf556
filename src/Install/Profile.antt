-- ===== src/Install/Profile.antt =====
-- internal/install/shellprofile.go: the managed block of a start-up file. The text of the block is in
-- `Template`.
pub mod Roundtrip
pub mod Template
use opencode_advance.Prelude.{
  ℕ, ◌+◌, ℤ, pos, String, Bool, true, false, ◌&&◌, not, Option, none, some, List, [], ◌∷◌, ◌<>◌,
  is_blank, str_eq, split_lines, show, is_some, if◌then◌else◌, Result,
}
use Prim.Native.Char.{Char, code}
use opencode_advance.Install.Cut.{cut, ends_in_newline, trim_newlines, drop_newline}
use opencode_advance.Render.Disk.{Disk, System, Reading, read}
use opencode_advance.Render.Atomic.{Write, write_atomic}

abbrev pub sentinel_start : String
sentinel_start = "# >>> OCA Managed Block >>>"

abbrev pub sentinel_end : String
sentinel_end = "# <<< OCA Managed Block <<<"

abbrev pub past_end : Option (String × String) → Result String
past_end none = Result.fail "malformed managed block: start sentinel found but no end sentinel"
past_end (some (block, after)) =
    if is_some (cut sentinel_start after)
    then Result.fail "multiple managed blocks found in file; expected at most one"
    else Result.done (trim_newlines block)

abbrev pub past_start : Option (String × String) → Result String
past_start none = Result.done ""
past_start (some (before, after)) = past_end (cut sentinel_end (drop_newline after))

-- func extractBlock
unfoldable pub extract_block : String → Result String
unfolding cut trim_newlines
extract_block content = past_start (cut sentinel_start content)

-- func ReadBlock
abbrev pub block_read : Reading × Disk → Result String × Disk
block_read (Reading.missing, d) = (Result.done "", d)
block_read (Reading.broken e, d) = (Result.fail e, d)
block_read (Reading.found content, d) = (extract_block content, d)

pub read_block : System → String → Disk → Result String × Disk
unfolding extract_block read
read_block sys path d = block_read (read sys path d)

-- The block between its sentinels.
abbrev pub marked : String → String
marked block = sentinel_start <> ("\n" <> (block <> ("\n" <> sentinel_end)))

abbrev pub append_block : String → String → String
append_block content block =
    if is_blank content
    then marked block <> "\n"
    else if ends_in_newline content
    then content <> (marked block <> "\n")
    else (content <> "\n") <> (marked block <> "\n")

-- The end sentinel is looked for from the start sentinel on.
abbrev pub replace_block : String → String → String → Option (String × String) → String
replace_block content block before none = content
replace_block content block before (some (old, after)) = before <> (marked block <> after)

abbrev pub replace_or_append : String → String → Option (String × String) → String
replace_or_append content block none = append_block content block
replace_or_append content block (some (before, after)) =
    replace_block content block before (cut sentinel_end (sentinel_start <> after))

-- func replaceOrAppendBlock
unfoldable pub replace_or_append_block : String → String → String
unfolding cut ends_in_newline
replace_or_append_block content block = replace_or_append content block (cut sentinel_start content)

abbrev labelled_write : String → Write → Option String × Disk
labelled_write path w = elim w.failure [
  | none ↦ (none, w.disk)
  | some e ↦ (some ("write " <> (path <> (": " <> e))), w.disk)
]

abbrev block_written : System → String → String → Reading × Disk → Option String × Disk
block_written sys path block (Reading.broken e, d) = (some ("read " <> (path <> (": " <> e))), d)
block_written sys path block (Reading.missing, d) =
    labelled_write path (write_atomic sys path (replace_or_append_block "" block) 420 (pos 5) d)
block_written sys path block (Reading.found content, d) =
    labelled_write path
      (write_atomic sys path (replace_or_append_block content block) 420 (pos 5) d)

-- func WriteBlock
pub write_block : System → String → String → Disk → Option String × Disk
unfolding read write_atomic replace_or_append_block
write_block sys path block d = block_written sys path block (read sys path d)

-- The end of the file without the block.
abbrev pub tidy : String → String
tidy content = if is_blank content then content else trim_newlines content <> "\n"

abbrev pub removed_to_end : String → Option (String × String) → Option String
removed_to_end before none = none
removed_to_end before (some (old, after)) = some (tidy (before <> drop_newline after))

abbrev pub removed : Option (String × String) → Option String
removed none = none
removed (some (before, after)) = removed_to_end before (cut sentinel_end (sentinel_start <> after))

-- What RemoveBlock writes, or none where it writes nothing.
unfoldable pub remove_text : String → Option String
unfolding cut trim_newlines
remove_text content = removed (cut sentinel_start content)

abbrev removed_write : System → String → Option String → Disk → Option String × Disk
removed_write sys path none d = (none, d)
removed_write sys path (some content) d =
    labelled_write path (write_atomic sys path content 420 (pos 5) d)

abbrev block_removed : System → String → Reading × Disk → Option String × Disk
block_removed sys path (Reading.missing, d) = (none, d)
block_removed sys path (Reading.broken e, d) = (some ("read " <> (path <> (": " <> e))), d)
block_removed sys path (Reading.found content, d) = removed_write sys path (remove_text content) d

-- func RemoveBlock
pub remove_block : System → String → Disk → Option String × Disk
unfolding read write_atomic remove_text
remove_block sys path d = block_removed sys path (read sys path d)

-- type BlockDiff
pub record BlockDiff : Type 0 where
  pub has_block : Bool
  pub matches : Bool
  pub diff : String

abbrev line_diff : String → String → ℕ → String → String
line_diff sign label i line =
    if is_blank line
    then ""
    else sign <> (" " <> (label <> ("[" <> (show i <> ("]: " <> (line <> "\n"))))))

abbrev pair_diff : String → String → ℕ → String → String → String
pair_diff label_a label_b i a b =
    if str_eq a b then "" else line_diff "-" label_a i a <> line_diff "+" label_b i b

-- The loop of unifiedDiff; a line that is missing counts as empty.
lines_diff : String → String → ℕ → List String → List String → String
lines_diff label_a label_b i [] [] = ""
lines_diff label_a label_b i (a ∷ as') [] =
    pair_diff label_a label_b i a "" <> lines_diff label_a label_b (i + 1) as' []
lines_diff label_a label_b i [] (b ∷ bs) =
    pair_diff label_a label_b i "" b <> lines_diff label_a label_b (i + 1) [] bs
lines_diff label_a label_b i (a ∷ as') (b ∷ bs) =
    pair_diff label_a label_b i a b <> lines_diff label_a label_b (i + 1) as' bs

-- func unifiedDiff
pub unified_diff : String → String → String → String → String
unfolding lines_diff split_lines
unified_diff label_a label_b a b = lines_diff label_a label_b 1 (split_lines a) (split_lines b)

abbrev pub compare_block : String → String → BlockDiff
compare_block expected actual =
    if is_blank actual
    then record { has_block = false; matches = false; diff = "" }
    else if str_eq actual expected
    then record { has_block = true; matches = true; diff = "" }
    else record {
      has_block = true;
      matches = false;
      diff = unified_diff "expected" "actual" expected actual;
    }

abbrev diffed : String → Result String × Disk → Result BlockDiff × Disk
diffed expected (Result.fail e, d) = (Result.fail e, d)
diffed expected (Result.done actual, d) = (Result.done (compare_block expected actual), d)

-- func DiffBlock
pub diff_block : System → String → String → Disk → Result BlockDiff × Disk
unfolding read_block unified_diff
diff_block sys path expected d = diffed expected (read_block sys path d)

abbrev edited : Result BlockDiff × Disk → Result Bool × Disk
edited (Result.fail e, d) = (Result.fail e, d)
edited (Result.done diff, d) = (Result.done (diff.has_block && not diff.matches), d)

-- func IsEdited
pub is_edited : System → String → String → Disk → Result Bool × Disk
unfolding diff_block
is_edited sys path expected d = edited (diff_block sys path expected d)
