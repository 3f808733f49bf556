-- ===== src/Render/Sections/Examples.antt =====
-- A formatter is merged into a file with another one.
use opencode_advance.Prelude.{false, refl, [], ◌∷◌, str_eq, if◌then◌else◌}
use opencode_advance.Value.{Value, Fields, no_more, entry}
use opencode_advance.Config.Sections.Types.{Formatter}
use opencode_advance.Render.Merge.{Decoded, merge_map}
use opencode_advance.Render.Merge.Laws.{IsMap}
use opencode_advance.Render.Sections.{translate_formatters_to_opencode}
use opencode_advance.Render.Sections.Maps.{translate_formatters_to_opencode-IsMap}
use opencode_advance.Render.Sections.Plans.{Machine}
use opencode_advance.Render.Sections.Plans.Converges.{IsCodec, Converges, plan_object-Converges}

abbrev gofmt : Formatter
gofmt = record {
  command = "gofmt" ∷ [];
  extensions = ".go" ∷ [];
  disabled = false;
  environment = [];
  extra = no_more;
}

abbrev declared : Fields
declared = translate_formatters_to_opencode (("gofmt", gofmt) ∷ [])

abbrev root : Fields
root = entry "formatter" (Value.table (entry "ruff" (Value.table no_more) no_more)) no_more

-- "old" is the text of the object, "new\n" that of the merged one.
abbrev machine : Machine
machine = record {
  unmarshal = λ text.
      if str_eq text "old" then Decoded.object root else Decoded.object (merge_map declared root);
  marshal = λ v. "new";
  opencode_json = "/c/opencode.json";
  lock_path = "/l/apply.lock";
}

declared-IsMap : IsMap declared
unfolding IsMap
declared-IsMap = translate_formatters_to_opencode-IsMap (("gofmt", gofmt) ∷ []) (tt, tt)

machine-IsCodec : IsCodec machine (merge_map declared root)
machine-IsCodec = record { decodes = refl; full = refl }

plan_object-Converges_example : Converges machine "stack.toml" "merge" declared root "old"
plan_object-Converges_example =
    plan_object-Converges machine "stack.toml" "merge" declared root "old" machine-IsCodec
      declared-IsMap refl
