-- ===== src/Render/Sections.antt =====
-- internal/render: the translations of the sections [formatters], [commands] and [lsp] of the stack
-- (formatters.go, commands.go, lsp.go), the list of instructions (instructions.go) and the entry of a
-- plugin (plugin.go).
pub mod Maps
pub mod Plans
mod Examples
use opencode_advance.Prelude.{
  String, Bool, true, false, ◌&&◌, ◌||◌, not, Option, none, some, List, [], ◌∷◌, ◌++◌, is_blank,
  is_empty, str_eq, ends_with, starts_with, drop_bytes, join_path, sort_entries, if◌then◌else◌,
}
use opencode_advance.Value.{Value, Fields, no_more, entry, Items, no_item, item}
use opencode_advance.Config.Sections.Types.{Plugin, Lsp, Formatter, Command, enabled_or_absent}
use opencode_advance.Config.Sections.{is_npm_source, is_local_source}
use opencode_advance.Render.Fields.{put_field}

-- func stringSliceToAny
unfoldable pub string_slice_to_any : List String → Items
string_slice_to_any [] = no_item
string_slice_to_any (s ∷ rest) = item (Value.text s) (string_slice_to_any rest)

-- func stringMapToAny
unfoldable pub string_map_to_any : List (String × String) → Fields
string_map_to_any [] = no_more
string_map_to_any ((key, s) ∷ rest) = put_field key (Value.text s) (string_map_to_any rest)

-- A loop that copies a map, such as the field Extra.
unfoldable pub put_all : Fields → Fields → Fields
unfolding put_field
put_all no_more m = m
put_all (entry key value rest) m = put_all rest (put_field key value m)

abbrev pub put_if : Bool → String → Value → Fields → Fields
put_if b key value m = if b then put_field key value m else m

-- A round of the loop of translateFormattersToOpencode.
unfoldable pub translate_formatter : Formatter → Fields
unfolding put_all string_slice_to_any string_map_to_any
translate_formatter f =
    let m =
      put_if (not (is_empty f.command)) "command" (Value.array (string_slice_to_any f.command))
        no_more in
    let m =
      put_if (not (is_empty f.extensions)) "extensions"
        (Value.array (string_slice_to_any f.extensions)) m in
    let m = put_if f.disabled "disabled" (Value.boolean true) m in
    let m =
      put_if (not (is_empty f.environment)) "environment"
        (Value.table (string_map_to_any f.environment)) m in
    put_all f.extra m

abbrev put_subtask : Option Bool → Fields → Fields
put_subtask none m = m
put_subtask (some b) m = put_field "subtask" (Value.boolean b) m

-- A round of the loop of translateCommandsToOpencode.
unfoldable pub translate_command : Command → Fields
unfolding put_all
translate_command c =
    let m =
      put_field "template" (Value.text c.template)
        (put_field "description" (Value.text c.description) no_more) in
    let m = put_if (not (is_blank c.agent)) "agent" (Value.text c.agent) m in
    let m = put_if (not (is_blank c.model)) "model" (Value.text c.model) m in
    put_all c.extra (put_subtask c.subtask m)

-- A round of the loop of translateLSPToOpencode.
unfoldable pub translate_lsp_server : Lsp → Fields
unfolding put_all string_slice_to_any
translate_lsp_server l =
    let m =
      put_if (not (is_empty l.command)) "command" (Value.array (string_slice_to_any l.command))
        no_more in
    let m =
      put_if (not (is_empty l.extensions)) "extensions"
        (Value.array (string_slice_to_any l.extensions)) m in
    put_all l.extra (put_if l.disabled "disabled" (Value.boolean true) m)

-- A loop over a section: each entry is translated.
unfoldable pub translate_each {ℓ} : {A : Type ℓ} → (A → Fields) → List (String × A) → Fields
unfolding put_field
translate_each f [] = no_more
translate_each f ((name, x) ∷ rest) = put_field name (Value.table (f x)) (translate_each f rest)

abbrev pub under : String → Fields → Fields
under key m = entry key (Value.table m) no_more

-- func translateFormattersToOpencode; the nil map is the empty one, as PlanFormatters takes it.
unfoldable pub translate_formatters_to_opencode : List (String × Formatter) → Fields
unfolding translate_formatter translate_each
translate_formatters_to_opencode [] = no_more
translate_formatters_to_opencode (f ∷ fs) =
    under "formatter" (translate_each translate_formatter (f ∷ fs))

-- func translateCommandsToOpencode, likewise
unfoldable pub translate_commands_to_opencode : List (String × Command) → Fields
unfolding translate_command translate_each
translate_commands_to_opencode [] = no_more
translate_commands_to_opencode (c ∷ cs) =
    under "command" (translate_each translate_command (c ∷ cs))

-- func translateLSPToOpencode; none is the nil section.
unfoldable pub translate_lsp_to_opencode : Option (List (String × Lsp)) → Fields
unfolding translate_lsp_server translate_each
translate_lsp_to_opencode none = no_more
translate_lsp_to_opencode (some servers) = under "lsp" (translate_each translate_lsp_server servers)

-- func anyProvides
provides_category : String → List String → Bool
provides_category category [] = false
provides_category category (p ∷ ps) = str_eq p category || provides_category category ps

pub any_provides : String → List (String × Plugin) → Bool
unfolding provides_category
any_provides category [] = false
any_provides category ((name, plugin) ∷ rest) =
    provides_category category plugin.provides || any_provides category rest

kept_instructions : Bool → List String → List String
kept_instructions suppress [] = []
kept_instructions suppress (path ∷ paths) =
    let rest = kept_instructions suppress paths in
    if suppress && ends_with path "ADV_INSTRUCTIONS.md" then rest else path ∷ rest

plugin_instructions : Bool → List (String × Plugin) → List String
unfolding kept_instructions
plugin_instructions suppress [] = []
plugin_instructions suppress ((name, plugin) ∷ rest) =
    let later = plugin_instructions suppress rest in
    if enabled_or_absent plugin.enabled
    then kept_instructions suppress plugin.instructions ++ later
    else later

-- func RenderInstructionsList, on the order of [instructions] and the plugins
pub render_instructions_list : List String → List (String × Plugin) → List String
unfolding any_provides plugin_instructions
render_instructions_list order plugins =
    order ++ plugin_instructions (any_provides "adv-instructions" plugins) (sort_entries plugins)

-- func RenderPluginFragment, with RenderLiteral of internal/plugin
abbrev pub render_plugin_fragment : Plugin → String
render_plugin_fragment p =
    if is_npm_source p
    then if starts_with p.source "npm:" then drop_bytes 4 p.source else p.source
    else if is_local_source p
    then if not (is_blank p.path)
      then join_path (drop_bytes 6 p.source ∷ p.path ∷ [])
      else join_path (drop_bytes 6 p.source ∷ "dist" ∷ "index.js" ∷ [])
    else p.path
