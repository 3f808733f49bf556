-- ===== src/Render/Sections/Plans.antt =====
-- internal/render: the plans of the sections that are merged into opencode.json.
pub mod Converges
use opencode_advance.Prelude.{
  ℕ, ltb, String, Bool, true, false, ◌&&◌, not, Option, none, some, List, [], ◌∷◌, ◌<>◌, is_blank,
  str_eq, sort_entries, if◌then◌else◌, Message, literal, sprintf, str,
}
use opencode_advance.Value.{Value, Fields, no_more, entry}
use opencode_advance.Config.Sections.Types.{Plugin, Lsp, Formatter, Command, enabled_or_absent}
use opencode_advance.Render.Disk.{Disk, System, Reading, read}
use opencode_advance.Render.Apply.{TargetOp, Plan}
use opencode_advance.Render.Merge.{Decoded, Merged, merge_object}
use opencode_advance.Render.Array.{merge_watcher_ignore}
use opencode_advance.Render.Sections.{
  translate_formatters_to_opencode, translate_commands_to_opencode, translate_lsp_to_opencode,
}

-- encoding/json: decoding an object, and jsonMarshalIndent; and the paths of the machine.
pub record Machine : Type 0 where
  pub unmarshal : String → Decoded
  pub marshal : Value → String
  pub opencode_json : String
  pub lock_path : String

-- What PlanX returns: an error, a panic, or a plan.
pub data Planned : Type 0 where
  failed : String → Planned
  refused : Message → Planned
  panicked : Planned
  planned : Plan → Planned

-- The bytes that MergeObject returns for a document.
abbrev pub merged_text : Machine → Value → String
merged_text m v = m.marshal v <> "\n"

abbrev pub merge_op : String → String → String
merge_op before after = if not (is_blank before) && str_eq before after then "noop" else "merge"

abbrev pub one_target : Machine → String → String → String → String → Plan
one_target m source reason before after = record {
  source = source;
  lock_path = m.lock_path;
  targets =
      record {
        name = "opencode.json";
        path = m.opencode_json;
        op = merge_op before after;
        before = before;
        after = after;
        mode = 420;
        backup_path = "";
        suppress_backup = false;
        reason = reason;
      }
      ∷ [];
}

abbrev pub planned_of : Machine → String → String → String → Merged → Planned
planned_of m source reason before (Merged.failed e) = Planned.refused e
planned_of m source reason before Merged.panicked = Planned.panicked
planned_of m source reason before (Merged.document v) =
    Planned.planned (one_target m source reason before (merged_text m v))

-- The body that PlanFormatters, PlanCommands and PlanLSP share, after the file is read.
unfoldable pub plan_object : Machine → String → String → Fields → String → Planned
unfolding merge_object
plan_object m source reason declared before =
    planned_of m source reason before (merge_object m.unmarshal before declared)

abbrev pub after_read : String → (String → Planned) → Reading × Disk → Planned × Disk
after_read path k (Reading.missing, d) = (k "", d)
after_read path k (Reading.found content, d) = (k content, d)
after_read path k (Reading.broken e, d) = (Planned.failed ("read " <> (path <> (": " <> e))), d)

-- func readIfExists, and what follows it
abbrev pub read_if_exists : System → String → (String → Planned) → Disk → Planned × Disk
read_if_exists sys path k d = after_read path k (read sys path d)

module _ (sys : System) (m : Machine) (source : String) where
  -- func PlanFormatters
  pub plan_formatters : List (String × Formatter) → Disk → Planned × Disk
  unfolding read plan_object translate_formatters_to_opencode
  plan_formatters formatters = read_if_exists sys m.opencode_json (
      plan_object m source
        "merge declared formatter entries into .formatter preserving user-added formatters"
        (translate_formatters_to_opencode formatters))

  -- func PlanCommands
  pub plan_commands : List (String × Command) → Disk → Planned × Disk
  unfolding read plan_object translate_commands_to_opencode
  plan_commands commands = read_if_exists sys m.opencode_json (
      plan_object m source
        "merge declared command entries into .command preserving user-added commands"
        (translate_commands_to_opencode commands))

  -- func PlanLSP
  pub plan_lsp : Option (List (String × Lsp)) → Disk → Planned × Disk
  unfolding read plan_object translate_lsp_to_opencode
  plan_lsp servers = read_if_exists sys m.opencode_json (
      plan_object m source "merge declared LSP server entries into .lsp preserving per-server keys"
        (translate_lsp_to_opencode servers))

  -- func PlanWatcher; the last three parameters are those of MergeArray.
  pub plan_watcher : Option String → String → (String → Bool) → List String → Disk → Planned × Disk
  unfolding read
  plan_watcher home data_home exists ignore = read_if_exists sys m.opencode_json (λ before.
      planned_of m source
        "merge declared watcher.ignore entries into .watcher preserving user-added entries" before
        (merge_watcher_ignore home data_home exists m.unmarshal before ignore))
