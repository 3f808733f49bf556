-- ===== src/Render/Sections/Plans/Converges.antt =====
-- Planning again after a plan was written finds nothing to do.
use opencode_advance.Prelude.{
  String, Bool, true, false, ◌≡◌, refl, ap, ◌∙◌, is_blank, eq_refl, arith, if◌then◌else◌,
}
use opencode_advance.Value.{Value, Fields}
use opencode_advance.Render.Merge.{merge_map, Decoded, Merged, decode, merge_decoded, merge_object}
use opencode_advance.Render.Merge.Laws.{IsMap}
use opencode_advance.Render.Merge.Keys.{IsMerged, merge_map-IsMerged}
use opencode_advance.Render.Merge.Documents.{merge_object_idem}
use opencode_advance.Render.Sections.Plans.{
  Machine, Planned, merged_text, merge_op, one_target, planned_of, plan_object,
}

-- encoding/json decodes the text of the object to this object, and the text is not empty.
pub record IsCodec (m : Machine) (o : Fields) : Type 0 where
  pub decodes : m.unmarshal (merged_text m (Value.table o)) ≡ Decoded.object o
  pub full : is_blank (merged_text m (Value.table o)) ≡ false

-- The first plan prints the merged document, and the plan over what it wrote does nothing.
pub record Converges (m : Machine) (source reason : String) (declared root : Fields)
    (before : String) : Type 0 where
  pub out : Fields
  pub merged : IsMerged declared root out
  pub after : String
  pub printed : after ≡ merged_text m (Value.table out)
  pub first :
      plan_object m source reason declared before
      ≡ Planned.planned (one_target m source reason before after)
  pub second :
      plan_object m source reason declared after
      ≡ Planned.planned (one_target m source reason after after)
  pub idle : merge_op after after ≡ "noop"

if-blank : (b : Bool) (x y : Decoded) → b ≡ false → (if b then x else y) ≡ y
if-blank false x y e = refl
if-blank true x y e = absurd (ground (arith, e))

idle-merge_op : (after : String) → is_blank after ≡ false → merge_op after after ≡ "noop"
idle-merge_op after e = rw (e, eq_refl after)

-- Where opencode.json is missing, empty or holds an object, the plan of a section has as its content
-- the text of the merged document: the section merged key by key into that object. And where this
-- content was written, the plan of the same section has the operation noop
-- with the same content. The conditions are that encoding/json decodes what it printed of the merged
-- document, and that the keys of every declared object are distinct.
pub plan_object-Converges :
    (m : Machine) (source reason : String) (declared root : Fields) (before : String)
    → IsCodec m (merge_map declared root)
    → IsMap declared
    → decode m.unmarshal before ≡ Decoded.object root
    → Converges m source reason declared root before
unfolding plan_object merge_object
plan_object-Converges m source reason declared root before codec d e =
    let out = merge_map declared root in
    let after = merged_text m (Value.table out) in
    let again : decode m.unmarshal after ≡ Decoded.object out =
      if-blank (is_blank after) _ (m.unmarshal after) (codec.full) ∙ codec.decodes in
    let once : merge_object m.unmarshal before declared ≡ Merged.document (Value.table out) =
      ap (merge_decoded m.unmarshal declared) e in
    record {
      out = out;
      merged = merge_map-IsMerged declared root d;
      after = after;
      printed = refl;
      first = ap (planned_of m source reason before) once;
      second =
          ap (planned_of m source reason after)
            (merge_object_idem m.unmarshal before after declared root d e again ∙ once);
      idle = idle-merge_op after (codec.full);
    }
