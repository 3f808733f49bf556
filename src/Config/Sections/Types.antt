-- ===== src/Config/Sections/Types.antt =====
-- internal/config/types.go: the sections other than [mcp]. `nil` slices and maps are told from
-- empty ones by `Option` where validation does; the private presence flags of the TOML decoder are
-- fields too.
use opencode_advance.Prelude.{ℤ, String, Bool, true, Option, none, some, List}
use opencode_advance.Value.{Fields}

-- type Meta
pub record Meta : Type 0 where
  pub version : String
  pub name : String
  pub description : String

-- type Plugin
pub record Plugin : Type 0 where
  pub source : String
  pub ref : String
  pub checkout : String
  pub subdir : String
  pub build : List String
  pub path : String
  pub sync : String
  pub provides : List String
  pub instructions : List String
  pub enabled : Option Bool

-- func (p Plugin) IsEnabled, and the same reading of the other optional flags
abbrev pub enabled_or_absent : Option Bool → Bool
enabled_or_absent none = true
enabled_or_absent (some b) = b

-- type TemporalSection
pub record TemporalSection : Type 0 where
  pub enabled : Option Bool
  pub address : String
  pub namespace : String
  pub allow_remote : Option Bool
  pub node_path : String

-- type ProviderModel
pub record ProviderModel : Type 0 where
  pub name : String
  pub context : ℤ
  pub output : ℤ
  pub inputs : List String
  pub outputs : List String
  pub options : Fields
  pub variants : Fields
  pub extra : Fields

-- type Provider
pub record Provider : Type 0 where
  pub models : List (String × ProviderModel)
  pub options : Fields
  pub variants : Fields
  pub extra : Fields

-- type PermissionsSection
pub record PermissionsSection : Type 0 where
  pub default : String
  pub doom_loop : String
  pub external_directory : List (String × String)
  pub bash : List (String × String)
  pub extra : Fields

-- type LSP
pub record Lsp : Type 0 where
  pub command : List String
  pub extensions : List String
  pub disabled : Bool
  pub extra : Fields

-- type Formatter
pub record Formatter : Type 0 where
  pub command : List String
  pub extensions : List String
  pub disabled : Bool
  pub environment : List (String × String)
  pub extra : Fields

-- type Command
pub record Command : Type 0 where
  pub description : String
  pub template : String
  pub agent : String
  pub model : String
  pub subtask : Option Bool
  pub extra : Fields

-- type AutoupdateValue; the fields `Bool` and `Str`
pub record AutoupdateValue : Type 0 where
  pub flag : Option Bool
  pub text : Option String

-- type WatchdogConfig; the timeout in nanoseconds
pub record WatchdogConfig : Type 0 where
  pub enabled : Bool
  pub idle_timeout : ℤ
  pub max_bumps : ℤ

-- type SessionSection
pub record SessionSection : Type 0 where
  pub prefix : String
  pub mode : String
  pub reaper : Bool
  pub reaper_threshold : ℤ
  pub theme : String
  pub boot_splash : Bool
  pub watchdog : Option WatchdogConfig
  pub extra : Fields
  pub reaper_set : Bool
  pub boot_splash_set : Bool

-- type ShellSection
pub record ShellSection : Type 0 where
  pub auto_refresh : Option Bool
  pub auto_refresh_notice : String

-- type UpdateProbeSection
pub record UpdateProbeSection : Type 0 where
  pub default : String
  pub timeout_per_plugin_ms : ℤ
  pub timeout_global_ms : ℤ
  pub cache_ttl_minutes : ℤ
  pub timeout_per_plugin_set : Bool
  pub timeout_global_set : Bool
  pub cache_ttl_set : Bool
