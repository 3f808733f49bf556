-- ===== src/Config/Resolve.antt =====
-- internal/config/resolve.go: Stack.Resolve, the tokens of plugins, and the defaults of [session].
pub mod Keeps
pub mod Tokens
pub mod Paths
mod Examples
use opencode_advance.Prelude.{
  ℕ, zero, suc, ◌+◌, ◌-◌, ◌*◌, ℤ, pos, eqb_ℤ, String, Bool, true, false, ◌&&◌, ◌||◌, not, Option,
  none, some, List, [], ◌∷◌, map, is_blank, str_eq, starts_with, contains_text, drop_bytes,
  clean_path, ◌<>◌, ◌==◌, show, if◌then◌else◌, Result,
}
use Prim.Native.String.{count}
use Prim.Native.Char.{Char, code}
use opencode_advance.Config.Types.{Server}
use opencode_advance.Config.Sections.Types.{Plugin, SessionSection, WatchdogConfig}
use opencode_advance.Config.Validate.{Stack}
use opencode_advance.Config.Expand.{Env, Matcher, rewrite, span_until, is_close, expand_all}

-- After the name of a token {name}: the name and the number of characters less one.
abbrev token_name : String × String → Option (ℕ × String)
token_name (name, String.[]) = none
token_name (name, String.◌∷◌ c rest) = if is_blank name then none else some (count name + 1, name)

-- The pattern pluginTokenPattern: what it finds at the start of a text.
unfoldable pub plugin_token_at : String → Option (ℕ × String)
unfolding span_until
plugin_token_at String.[] = none
plugin_token_at (String.◌∷◌ c rest) =
    if code c == 123 then token_name (span_until is_close rest) else none

abbrev is_known : String → Bool
is_known name = str_eq name "checkout" || str_eq name "subdir"

-- unknownTokenIn; the text is empty where every token is known.
unfoldable pub unknown_token_in : ℕ → String → String
unknown_token_in skip String.[] = ""
unknown_token_in (suc skip) (String.◌∷◌ c s) = unknown_token_in skip s
unknown_token_in zero (String.◌∷◌ c s) = elim (plugin_token_at (String.◌∷◌ c s)) [
  | none ↦ unknown_token_in zero s
  | some (taken, name) ↦
      let rest = unknown_token_in taken s in if is_known name then rest else "{" <> (name <> "}")
]

abbrev token_value : String → String → String → String
token_value checkout subdir name =
    if str_eq name "checkout" then checkout else if str_eq name "subdir" then subdir else ""

abbrev pub replaced_token : String → String → Option (ℕ × String) → Option (ℕ × String)
replaced_token checkout subdir none = none
replaced_token checkout subdir (some (taken, name)) =
    let value = token_value checkout subdir name in
    some (taken, if is_blank value then "{" <> (name <> "}") else value)

-- replaceTokens
abbrev pub replace_tokens : String → String → String → String
replace_tokens checkout subdir s =
    rewrite (λ t. replaced_token checkout subdir (plugin_token_at t)) zero s

unfoldable pub unknown_instruction : ℕ → List String → Option String
unfolding unknown_token_in
unknown_instruction i [] = none
unknown_instruction i (instr ∷ rest) =
    let unknown = unknown_token_in 0 instr in
    let later = unknown_instruction (i + 1) rest in
    if is_blank unknown
    then later
    else some ("[plugins.*].instructions[" <> (show i <> ("]: unrecognized token " <> unknown)))

abbrev pub substituted : Env → Plugin → Plugin
substituted env p =
    let replaced = replace_tokens (expand_all env p.checkout) p.subdir in
    record p {
      path = clean_path (replaced p.path);
      sync = replaced p.sync;
      instructions = map (λ instr. clean_path (replaced instr)) p.instructions;
    }

abbrev pub after_instructions : Env → Plugin → Option String → Result Plugin
after_instructions env p (some e) = Result.fail e
after_instructions env p none = Result.done (substituted env p)

-- func expandPluginTokens
unfoldable pub expand_plugin_tokens : Env → Plugin → Result Plugin
unfolding unknown_token_in unknown_instruction rewrite expand_all
expand_plugin_tokens env p =
    let path = unknown_token_in 0 p.path in
    let sync = unknown_token_in 0 p.sync in
    if not (is_blank path)
    then Result.fail
        ("[plugins.*].path: unrecognized token " <> (path <> " (allowed: {checkout}, {subdir})"))
    else if not (is_blank sync)
    then Result.fail
        ("[plugins.*].sync: unrecognized token " <> (sync <> " (allowed: {checkout}, {subdir})"))
    else after_instructions env p (unknown_instruction 0 p.instructions)

abbrev pub or_mode : String → String → String
or_mode s default = if is_blank s then default else s

abbrev or_duration : ℤ → ℤ → ℤ
or_duration n default = if eqb_ℤ n (pos 0) then default else n

abbrev watchdog_defaults : Option WatchdogConfig → Option WatchdogConfig
watchdog_defaults none = none
watchdog_defaults (some w) = some (record w {
  idle_timeout = or_duration w.idle_timeout (pos 300000000000);
  max_bumps = or_duration w.max_bumps (pos 3);
})

-- SessionSection.applyDefaults
unfoldable pub apply_defaults : SessionSection → SessionSection
apply_defaults s = record s {
  mode = or_mode s.mode "project";
  reaper = if s.reaper_set then s.reaper else true;
  reaper_threshold = or_duration s.reaper_threshold (pos 14400000000000);
  theme = or_mode s.theme "obsidian";
  boot_splash = if s.boot_splash_set then s.boot_splash else true;
  watchdog = watchdog_defaults s.watchdog;
}

abbrev resolve_server : Env → Server → Server
resolve_server env srv = record srv {
  command = expand_all env srv.command;
  url = expand_all env srv.url;
  env_file = expand_all env srv.env_file;
  args = map (expand_all env) srv.args;
  env = map (λ (v : String × String). (v.0, expand_all env v.1)) srv.env;
}

-- A plugin whose tokens are not known stays.
abbrev pub or_same : Plugin → Result Plugin → Plugin
or_same p (Result.fail e) = p
or_same p (Result.done q) = q

abbrev session_defaults : Option SessionSection → Option SessionSection
session_defaults none = none
session_defaults (some s) = some (apply_defaults s)

-- Stack.Resolve
pub resolve : Env → Stack → Stack
unfolding expand_all expand_plugin_tokens apply_defaults
resolve env s = record s {
  servers = map (λ (x : String × Server). (x.0, resolve_server env x.1)) s.servers;
  plugins =
      map (λ (x : String × Plugin). (x.0, or_same x.1 (expand_plugin_tokens env x.1))) s.plugins;
  session = session_defaults s.session;
}
