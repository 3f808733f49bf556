-- ===== src/Render/Array.antt =====
-- internal/render/array_merge.go, and MergeWatcherIgnore of internal/render/merge.go: merging a list
-- of declared texts into an array of a decoded document. The home directory, the data directory and
-- the existence of files are parameters.

pub mod Laws
pub mod Keeps
mod Examples
use Prim.Native.String.{len}
use Prim.Native.Char.{Char, code}
use opencode_advance.Prelude.{
  ℕ, suc, ◌+◌, String, Bool, true, false, ◌&&◌, ◌||◌, not, Option, none, some, List, [], ◌∷◌, ◌++◌,
  is_blank, leb, ◌==◌, ◌<>◌, drop_bytes, starts_with, contains_text, str_eq, clean_path,
  if◌then◌else◌, length, Message, literal, sprintf, str,
}
use opencode_advance.Value.{Value, Fields, no_more, Items, no_item, item}
use opencode_advance.Render.Fields.{get_field, put_field}
use opencode_advance.Render.Merge.{Decoded, Merged, section_of}

-- Any of the characters that `ok` accepts, at least one, and then `next` on the rest of the text.
one_or_more : (Char → Bool) → (String → Bool) → Bool → String → Bool
one_or_more ok next some_read String.[] = false
one_or_more ok next some_read (String.◌∷◌ c s) =
    let more = one_or_more ok next true s in
    if ok c then more else some_read && next (String.◌∷◌ c s)

-- The same, where the text may end.
one_or_more_to_end : (Char → Bool) → (String → Bool) → Bool → String → Bool
one_or_more_to_end ok next some_read String.[] = some_read
one_or_more_to_end ok next some_read (String.◌∷◌ c s) =
    let more = one_or_more_to_end ok next true s in
    if ok c then more else some_read && next (String.◌∷◌ c s)

abbrev in_range : ℕ → Char → ℕ → Bool
in_range low c high = leb low (code c) && leb (code c) high

-- [0-9a-f] and [A-Za-z0-9_-]
abbrev is_hex : Char → Bool
is_hex c = in_range 48 c 57 || in_range 97 c 102

abbrev is_name : Char → Bool
is_name c =
    in_range 65 c 90
    || (in_range 97 c 122 || (in_range 48 c 57 || ((code c == 95) || (code c == 45))))

no_newline : String → Bool
no_newline String.[] = true
no_newline (String.◌∷◌ c s) = not (code c == 10) && no_newline s

-- After a literal.
abbrev after_text : String → (String → Bool) → String → Bool
after_text prefix next s = starts_with s prefix && next (drop_bytes (len prefix) s)

-- The texts of an array; other items are passed over.
unfoldable pub text_items : Items → List String
text_items no_item = []
text_items (item (Value.text s) rest) = s ∷ text_items rest
text_items (item value rest) = text_items rest

unfoldable pub array_of : List String → Items
array_of [] = no_item
array_of (s ∷ rest) = item (Value.text s) (array_of rest)

-- The existing entries of an array; `none` if the value is no array.
abbrev pub existing_entries : Option Value → Option (List String)
existing_entries none = some []
existing_entries (some (Value.array items)) = some (text_items items)
existing_entries (some value) = none

-- type MergeArrayResult, with the document in place of its bytes
pub record ArrayResult : Type 0 where
  pub document : Fields
  pub pruned_count : ℕ
  pub added_count : ℕ
  pub preserved_count : ℕ

pub data ArrayOutcome : Type 0 where
  refused : Message → ArrayOutcome
  merged : ArrayResult → ArrayOutcome

module _ (home : Option String) (data_home : String) (exists : String → Bool) where
  -- The match of the pattern of buildWorktreePattern.
  pub matches_worktree : String → Bool
  unfolding one_or_more one_or_more_to_end no_newline
  matches_worktree = after_text (data_home <> "/opencode/worktree/") (
      one_or_more is_hex
        (after_text "/change/" (one_or_more_to_end is_name (after_text "/" no_newline) false))
        false)

  -- func isStaleWorktree
  pub is_stale_worktree : String → Bool
  is_stale_worktree p = matches_worktree p && not (exists p)

  abbrev pub expand_home : Option String → String → String
  expand_home none p = p
  expand_home (some h) p = if starts_with p "~/" && not (is_blank h) then h <> drop_bytes 1 p else p

  -- func canonicalPath
  pub canonical_path : String → String
  canonical_path p =
      let cleaned = clean_path (expand_home home p) in
      if str_eq cleaned ".." || (starts_with cleaned "../" || contains_text cleaned "/../")
      then p
      else cleaned

  -- Membership in a set of canonical paths.
  abbrev pub in_set : String → List String → Bool
  in_set p [] = false
  in_set p (x ∷ xs) = str_eq (canonical_path x) p || in_set p xs

  -- The loop over the existing entries: the entries kept, and the number pruned.
  pub keep_entries : Bool → List String → List String → List String × ℕ
  keep_entries strip declared [] = ([], 0)
  keep_entries strip declared (e ∷ rest) =
      let (kept, pruned) = keep_entries strip declared rest in
      if in_set (canonical_path e) declared
      then (kept, pruned)
      else if strip && is_stale_worktree e
      then (kept, pruned + 1)
      else (e ∷ kept, pruned)

  -- The loop that counts the declared entries which are new.
  pub count_added : List String → List String → ℕ
  count_added existing [] = 0
  count_added existing (d ∷ rest) =
      let more = count_added existing rest in
      if in_set (canonical_path d) existing then more else more + 1

  -- The merge, from the existing entries on.
  abbrev pub merge_entries :
      Fields → String → List String → Bool → Option (List String) → ArrayOutcome
  merge_entries doc array_path declared strip none =
      ArrayOutcome.refused (sprintf "existing .%s is not an array" (str array_path ∷ []))
  merge_entries doc array_path declared strip (some existing) =
      let (preserved, pruned) = keep_entries strip declared existing in
      ArrayOutcome.merged (record {
        document = put_field array_path (Value.array (array_of (declared ++ preserved))) doc;
        pruned_count = pruned;
        added_count = count_added existing declared;
        preserved_count = length preserved;
      })

  abbrev pub merge_array_into : String → List String → Bool → Decoded → ArrayOutcome
  merge_array_into array_path declared strip (Decoded.invalid e) =
      ArrayOutcome.refused (sprintf "parse existing JSON: %w" (str e ∷ []))
  merge_array_into array_path declared strip Decoded.nil_map =
      merge_entries no_more array_path declared strip (some [])
  merge_array_into array_path declared strip (Decoded.object doc) =
      merge_entries doc array_path declared strip (existing_entries (get_field array_path doc))

  module _ (unmarshal : String → Decoded) where
    -- func MergeArray, up to the marshalling of the document
    pub merge_array : String → String → List String → Bool → ArrayOutcome
    merge_array root array_path declared strip =
        merge_array_into array_path declared strip
          (if is_blank root then Decoded.nil_map else unmarshal root)

    abbrev pub write_ignore : Fields → Fields → List String → Option (List String) → Merged
    write_ignore root watcher declared none =
        Merged.failed (literal "existing .watcher.ignore is not an array")
    write_ignore root watcher declared (some existing) = Merged.document (
        Value.table (
          put_field "watcher"
            (Value.table (
              put_field "ignore"
                (Value.array (array_of (declared ++ (keep_entries false declared existing).0)))
                watcher))
            root))

    abbrev pub write_watcher : Fields → List String → Option Fields → Merged
    write_watcher root declared none = Merged.failed (literal "existing .watcher is not an object")
    write_watcher root declared (some watcher) =
        write_ignore root watcher declared (existing_entries (get_field "ignore" watcher))

    abbrev pub merge_ignore_into : List String → Decoded → Merged
    merge_ignore_into declared (Decoded.invalid e) =
        Merged.failed (sprintf "parse existing: %w" (str e ∷ []))
    merge_ignore_into declared (Decoded.object root) =
        write_watcher root declared (section_of unmarshal (get_field "watcher" root))
    merge_ignore_into declared Decoded.nil_map = Merged.panicked

    -- func MergeWatcherIgnore, up to the marshalling of the document
    pub merge_watcher_ignore : String → List String → Merged
    merge_watcher_ignore existing declared =
        merge_ignore_into declared
          (if is_blank existing then Decoded.object no_more else unmarshal existing)
