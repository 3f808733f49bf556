-- ===== src/Config/Validate.antt =====
-- internal/config: the `Stack` of types.go, and `Validate` of validate.go over all its sections.
pub mod Accepts
pub mod Examples
use opencode_advance.Prelude.{
  String, Bool, true, false, ◌||◌, Option, none, some, List, [], ◌∷◌, ◌++◌, is_blank, literal,
  sprintf, str, str_eq, if◌then◌else◌,
}
use opencode_advance.Value.{Fields, Value}
use opencode_advance.Config.Errors.{ValidationErrors, one_error}
use opencode_advance.Config.Types.{Server, SlotGroup}
use opencode_advance.Config.Servers.{validate_mcp_servers, required_missing}
use opencode_advance.Config.SlotGroups.{validate_mcp_slot_groups}
use opencode_advance.Config.Sections.Types.{
  Meta, Plugin, TemporalSection, Provider, PermissionsSection, Lsp, Formatter, Command,
  AutoupdateValue, SessionSection, ShellSection, UpdateProbeSection,
}
use opencode_advance.Config.Sections.{
  each_entry, validate_plugins, validate_instructions, validate_providers, validate_permissions,
  validate_watcher, validate_lsp, validate_skills, validate_formatters, validate_commands,
}
use opencode_advance.Config.Toggles.{
  validate_open_code, validate_shell, validate_update_probe, validate_session,
}
use opencode_advance.Config.Temporal.{validate_temporal}

-- type Stack, at the sections and fields that validation reads: `share` and `autoupdate` are those
-- of [opencode].
pub record Stack : Type 0 where
  pub meta : Meta
  pub servers : List (String × Server)
  pub slot_groups : List (String × SlotGroup)
  pub plugins : List (String × Plugin)
  pub instructions : Option (List String)
  pub temporal : Option TemporalSection
  pub providers : List (String × Provider)
  pub permissions : PermissionsSection
  pub watcher_ignore : List String
  pub lsp : List (String × Lsp)
  pub skills_order : List String
  pub formatters : List (String × Formatter)
  pub commands : List (String × Command)
  pub share : String
  pub autoupdate : Option AutoupdateValue
  pub session : Option SessionSection
  pub shell : ShellSection
  pub update_probe : UpdateProbeSection
  pub deferred_sections : List (String × Value)

-- var knownSections of parse.go, and its sorted names as `knownSectionNames` joins them
abbrev pub known_section : String → Bool
known_section name =
    str_eq name "meta"
    || (str_eq name "mcp"
        || (str_eq name "plugins"
            || (str_eq name "instructions"
                || (str_eq name "temporal"
                    || (str_eq name "providers"
                        || (str_eq name "agents"
                            || (str_eq name "permissions"
                                || (str_eq name "watcher"
                                    || (str_eq name "lsp"
                                        || (str_eq name "session"
                                            || (str_eq name "discord"
                                                || (str_eq name "skills"
                                                    || (str_eq name "formatters"
                                                        || (str_eq name "commands"
                                                            || (str_eq name "opencode"
                                                            || (str_eq name "shell"
                                                            || str_eq name
                                                            "update_probe"))))))))))))))))

pub check_version : String → ValidationErrors
check_version version =
    if is_blank version
    then required_missing "meta.version"
    else if str_eq version "1.0.0"
    then []
    else one_error "meta.version"
        (sprintf "unsupported schema version %q (expected \"1.0.0\")" (str version ∷ []))

pub check_deferred : String → Value → ValidationErrors
check_deferred name value =
    if known_section name
    then []
    else one_error name (
        sprintf "unknown top-level section %q (typo? allowed: %s)" (
          str name
          ∷ str
              "agents, commands, discord, formatters, instructions, lsp, mcp, meta, opencode, permissions, plugins, providers, session, shell, skills, temporal, update_probe, watcher"
          ∷ []))

-- The stack with the defaults that validation writes into it.
pub normalize : Stack → Stack
normalize s = record s {
  temporal = (validate_temporal s.temporal).1;
  shell = (validate_shell s.shell).1;
  update_probe = (validate_update_probe s.update_probe).1;
}

pub stack_errors : Stack → ValidationErrors
stack_errors s =
    check_version s.meta.version
    ++ (validate_mcp_servers s.servers
        ++ (validate_mcp_slot_groups s.servers s.slot_groups
            ++ (validate_plugins s.plugins
                ++ (validate_instructions s.instructions
                    ++ (validate_providers s.providers
                        ++ (validate_permissions s.permissions
                            ++ (validate_watcher s.watcher_ignore
                                ++ (validate_lsp s.lsp
                                    ++ (validate_skills s.skills_order
                                        ++ (validate_formatters s.formatters
                                            ++ (validate_commands s.commands
                                                ++ (validate_open_code s.share s.autoupdate
                                                    ++ (validate_session s.session
                                                        ++ ((validate_temporal s.temporal).0
                                                            ++ ((validate_shell s.shell).0
                                                            ++ ((validate_update_probe
                                                            s.update_probe).0
                                                            ++ each_entry check_deferred
                                                            s.deferred_sections))))))))))))))))

-- func (s *Stack) Validate: the errors, and the stack as the call leaves it
pub validate : Stack → ValidationErrors × Stack
validate s = (stack_errors s, normalize s)
