-- ===== src/Config/Sections.antt =====
-- internal/config/validate.go: the validators of the sections other than [mcp] and [temporal]. Go
-- ranges over a map in no fixed order; here the order is that of the list of entries.
pub mod Types
pub mod Skills
pub mod Examples
use opencode_advance.Prelude.{
  ℕ, zero, suc, ◌+◌, ◌*◌, ◌^◌, ℤ, pos, ltb_ℤ, eqb_ℤ, String, Bool, true, false, ◌&&◌, ◌||◌, not,
  Option, none, some, List, [], ◌∷◌, ◌++◌, is_blank, is_empty, ◌<>◌, literal, sprintf, int, str,
  str_eq, starts_with, if◌then◌else◌, sort_entries, show,
}
use opencode_advance.Value.{no_fields}
use opencode_advance.Config.Errors.{ValidationErrors, one_error}
use opencode_advance.Config.Servers.{required_missing}
use Types.{
  Plugin, ProviderModel, Provider, PermissionsSection, Lsp, Formatter, Command, AutoupdateValue,
  WatchdogConfig, SessionSection, ShellSection, UpdateProbeSection,
}

-- The loops over a map or a slice append the errors of each element.
module _ {ℓ} {A : Type ℓ} where
  unfoldable pub each_entry : (String → A → ValidationErrors) → List (String × A) → ValidationErrors
  each_entry check [] = []
  each_entry check ((name, a) ∷ rest) = check name a ++ each_entry check rest

  unfoldable pub each_index : (ℕ → A → ValidationErrors) → ℕ → List A → ValidationErrors
  each_index check i [] = []
  each_index check i (a ∷ rest) = check i a ++ each_index check (suc i) rest

abbrev pub index_path : String → ℕ → String
index_path path i = path <> ("[" <> (show i <> "]"))

-- An error for an empty entry.
abbrev pub blank_entry : String → String → ℕ → String → ValidationErrors
blank_entry path message i entry =
    if is_blank entry then one_error (index_path path i) (literal message) else []

-- func (p ProvidesCategory) IsValid
abbrev pub valid_category : String → Bool
valid_category p =
    str_eq p "adv-commands"
    || (str_eq p "adv-agents"
        || (str_eq p "adv-skills"
            || (str_eq p "adv-overlays"
                || (str_eq p "adv-instructions" || str_eq p "adv-temporal"))))

-- func (p Plugin) IsNPMSource, IsLocalSource
abbrev pub is_npm_source : Plugin → Bool
is_npm_source p = starts_with p.source "npm:"

abbrev pub is_local_source : Plugin → Bool
is_local_source p = starts_with p.source "local:"

unfoldable pub check_provides : String → ℕ → String → ValidationErrors
check_provides path i p =
    if valid_category p
    then []
    else one_error (path <> (".provides[" <> (show i <> "]"))) (
        sprintf
          "unknown category %q (allowed: adv-commands, adv-agents, adv-skills, adv-overlays, adv-instructions, adv-temporal)"
          (str p ∷ []))

unfoldable pub check_plugin : String → Plugin → ValidationErrors
check_plugin name plugin =
    let path = "plugins." <> name in
    if is_blank plugin.source
    then required_missing (path <> ".source")
    else (if is_npm_source plugin || is_local_source plugin
        then []
        else (if is_blank plugin.checkout
            then one_error (path <> ".checkout") (literal "required for git source")
            else [])
          ++ (if is_blank plugin.path
              then one_error (path <> ".path") (literal "required for git source")
              else []))
      ++ each_index (check_provides path) 0 plugin.provides

-- func validatePlugins
unfoldable pub validate_plugins : List (String × Plugin) → ValidationErrors
validate_plugins plugins = each_entry check_plugin plugins

-- func validateInstructions; `none` is the nil order.
pub validate_instructions : Option (List String) → ValidationErrors
validate_instructions none = []
validate_instructions (some order) =
    (if is_empty order
      then one_error "instructions.order" (literal "must be non-empty when declared")
      else [])
    ++ each_index (blank_entry "instructions.order" "entry must not be empty") 0 order

pub check_model : String → String → ProviderModel → ValidationErrors
check_model path mname model =
    let mpath = path <> (".models." <> mname) in
    (if is_blank model.name && no_fields model.variants
      then one_error mpath (literal "model must have at least one of: name, variants")
      else [])
    ++ ((if ltb_ℤ model.context (pos 0)
          then one_error (mpath <> ".context")
              (sprintf "context must be non-negative, got %d" (int model.context ∷ []))
          else [])
        ++ ((if ltb_ℤ model.output (pos 0)
              then one_error (mpath <> ".output")
                  (sprintf "output must be non-negative, got %d" (int model.output ∷ []))
              else [])
            ++ (each_index
                  (blank_entry (mpath <> ".inputs") "inputs entries must not be empty strings") 0
                  model.inputs
                ++ each_index
                    (blank_entry (mpath <> ".outputs") "outputs entries must not be empty strings")
                    0 model.outputs)))

pub check_provider : String → Provider → ValidationErrors
check_provider pname prov =
    let path = "providers." <> pname in
    if is_empty prov.models && no_fields prov.extra
    then one_error path (literal "provider must have at least one models entry or known fields")
    else each_entry (check_model path) prov.models

-- func validateProviders
pub validate_providers : List (String × Provider) → ValidationErrors
validate_providers providers = each_entry check_provider providers

-- var validPermissionActions
abbrev pub valid_action : String → Bool
valid_action a = str_eq a "allow" || (str_eq a "ask" || str_eq a "deny")

abbrev pub action_error : String → String → ValidationErrors
action_error path action =
    one_error path (sprintf "unknown action %q (allowed: allow, ask, deny)" (str action ∷ []))

pub check_action : String → String → String → ValidationErrors
check_action prefix path action =
    if valid_action action then [] else action_error (prefix <> path) action

-- func validatePermissions
pub validate_permissions : PermissionsSection → ValidationErrors
validate_permissions p =
    (if not (is_blank p.default) && not (valid_action p.default)
      then action_error "permissions.default" p.default
      else [])
    ++ ((if not (is_blank p.doom_loop) && not (valid_action p.doom_loop)
          then action_error "permissions.doom_loop" p.doom_loop
          else [])
        ++ (each_entry (check_action "permissions.external_directory.") p.external_directory
            ++ each_entry (check_action "permissions.bash.") p.bash))

-- func validateWatcher
pub validate_watcher : List String → ValidationErrors
validate_watcher ignore =
    each_index (blank_entry "watcher.ignore" "ignore entries must not be empty strings") 0 ignore

pub check_lsp : String → Lsp → ValidationErrors
check_lsp lname lsp =
    let path = "lsp." <> lname in
    if not (
      not (is_empty lsp.command)
      || (not (is_empty lsp.extensions) || (lsp.disabled || not (no_fields lsp.extra))))
    then one_error path (
        literal
          "LSP server must have at least one of: command, extensions, disabled, or additional fields")
    else if not lsp.disabled && is_empty lsp.command
    then one_error (path <> ".command")
        (literal "command is required when LSP server is not disabled")
    else []

-- func validateLSP
pub validate_lsp : List (String × Lsp) → ValidationErrors
validate_lsp servers = each_entry check_lsp servers

abbrev pub mem_text : String → List String → Bool
mem_text a [] = false
mem_text a (x ∷ xs) = str_eq a x || mem_text a xs

pub check_skill : String → List String → String → ValidationErrors
check_skill path seen name =
    (if starts_with name "adv-"
      then one_error path (
          sprintf "reserved namespace %q (adv-* skills are managed by the Advance plugin)"
            (str name ∷ []))
      else [])
    ++ (if mem_text name seen
        then one_error path (sprintf "duplicate skill %q" (str name ∷ []))
        else [])

-- The loop over `skills.order`, with the names seen so far.
pub scan_skills : ℕ → List String → List String → ValidationErrors
scan_skills i seen [] = []
scan_skills i seen (name ∷ rest) =
    let path = index_path "skills.order" i in
    (if is_blank name
      then one_error path (literal "entry must not be empty")
      else check_skill path seen name)
    ++ scan_skills (suc i) (if is_blank name then seen else name ∷ seen) rest

-- func validateSkills
pub validate_skills : List String → ValidationErrors
validate_skills order = scan_skills 0 [] order

pub check_formatter : String → Formatter → ValidationErrors
check_formatter name f =
    let path = "formatters." <> name in
    if f.disabled
    then []
    else (if is_empty f.command
        then one_error (path <> ".command")
            (literal "command is required when formatter is not disabled")
        else [])
      ++ (if is_empty f.extensions
          then one_error (path <> ".extensions")
              (literal "extensions is required when formatter is not disabled")
          else [])

-- func validateFormatters
pub validate_formatters : List (String × Formatter) → ValidationErrors
validate_formatters formatters = each_entry check_formatter (sort_entries formatters)

pub check_command : String → Command → ValidationErrors
check_command name cmd =
    let path = "commands." <> name in
    (if is_blank cmd.description then required_missing (path <> ".description") else [])
    ++ (if is_blank cmd.template then required_missing (path <> ".template") else [])

-- func validateCommands
pub validate_commands : List (String × Command) → ValidationErrors
validate_commands commands = each_entry check_command (sort_entries commands)
