-- ===== src/Render/Merge.antt =====
-- internal/render/merge.go: the merges into a decoded JSON document. encoding/json is a parameter:
-- `unmarshal` decodes an object, `marshal` is jsonMarshalIndent.
pub mod Laws
pub mod Keys
pub mod Documents
mod Examples
use opencode_advance.Prelude.{
  String, Bool, Option, none, some, List, [], ◌∷◌, is_blank, ◌<>◌, if◌then◌else◌, Message, literal,
  sprintf, str,
}
use opencode_advance.Value.{Value, Fields, no_more, entry}
use opencode_advance.Render.Fields.{get_field, put_field}

-- func mergeMap: `merge_value` is one round of its loop, with the value that the key has.
unfoldable mutual
  pub merge_map : Fields → Fields → Fields
  merge_map no_more dst = dst
  merge_map (entry key value rest) dst =
      merge_map rest (put_field key (merge_value value (get_field key dst)) dst)

  pub merge_value : Value → Option Value → Value
  merge_value (Value.table src) (some (Value.table dst)) = Value.table (merge_map src dst)
  merge_value value held = value

-- What json.Unmarshal leaves in a map: an error, the nil map (of the document `null`), or an object.
pub data Decoded : Type 0 where
  invalid : String → Decoded
  nil_map : Decoded
  object : Fields → Decoded

-- What a merge gives: an error, a panic (a write to the nil map), or a document.
pub data Merged : Type 0 where
  failed : Message → Merged
  panicked : Merged
  document : Value → Merged

module _ (unmarshal : String → Decoded) where
  -- The document of a file; an empty file is an empty object.
  abbrev pub decode : String → Decoded
  decode existing = if is_blank existing then Decoded.object no_more else unmarshal existing

  abbrev pub merge_decoded : Fields → Decoded → Merged
  merge_decoded declared (Decoded.invalid e) =
      Merged.failed (sprintf "parse existing: %w" (str e ∷ []))
  merge_decoded no_more Decoded.nil_map = Merged.document Value.absent
  merge_decoded (entry key value rest) Decoded.nil_map = Merged.panicked
  merge_decoded declared (Decoded.object root) =
      Merged.document (Value.table (merge_map declared root))

  -- func MergeObject, up to the marshalling of the document. Its loop is that of mergeMap.
  unfoldable pub merge_object : String → Fields → Merged
  merge_object existing declared = merge_decoded declared (decode existing)

  -- The loop over the declared fragments of MergeMCP.
  pub put_fragments : List (String × Fields) → Fields → Fields
  put_fragments [] mcp = mcp
  put_fragments ((name, fragment) ∷ rest) mcp =
      put_fragments rest (put_field name (Value.table fragment) mcp)

  -- The object under a key, or an empty one if the key is missing.
  abbrev pub section_of : Option Value → Option Fields
  section_of none = some no_more
  section_of (some (Value.table fields)) = some fields
  section_of (some value) = none

  abbrev pub write_mcp : List (String × Fields) → Fields → Option Fields → Merged
  write_mcp declared root none = Merged.failed (literal "existing .mcp is not an object")
  write_mcp declared root (some mcp) =
      Merged.document
        (Value.table (put_field "mcp" (Value.table (put_fragments declared mcp)) root))

  abbrev pub merge_mcp_into : List (String × Fields) → Decoded → Merged
  merge_mcp_into declared (Decoded.invalid e) =
      Merged.failed (sprintf "parse existing opencode.json: %w" (str e ∷ []))
  merge_mcp_into declared Decoded.nil_map = Merged.panicked
  merge_mcp_into declared (Decoded.object root) =
      write_mcp declared root (section_of (get_field "mcp" root))

  -- func MergeMCP
  pub merge_mcp : String → List (String × Fields) → Merged
  merge_mcp existing declared = merge_mcp_into declared (decode existing)
