-- ===== src/Config/Toggles.antt =====
-- internal/config/validate.go: `validateOpenCode`, `validateShell`, `validateUpdateProbe` and
-- `validateSession`. The second and the third also write defaults into the section, so they return
-- it beside the errors.
pub mod Examples
use opencode_advance.Prelude.{
  ℤ, pos, ltb_ℤ, eqb_ℤ, String, Bool, true, false, ◌&&◌, ◌||◌, not, Option, none, some, List, [],
  ◌∷◌, ◌++◌, is_blank, ◌<>◌, literal, sprintf, str, str_eq, if◌then◌else◌,
}
use opencode_advance.Config.Errors.{ValidationErrors, one_error}
use opencode_advance.Config.Sections.Types.{
  AutoupdateValue, WatchdogConfig, SessionSection, ShellSection, UpdateProbeSection,
}

-- var validShareValues
abbrev pub valid_share : String → Bool
valid_share s = is_blank s || (str_eq s "manual" || (str_eq s "auto" || str_eq s "disabled"))

pub check_autoupdate : Option AutoupdateValue → ValidationErrors
check_autoupdate none = []
check_autoupdate (some au) = elim au.text [
  | none ↦ []
  | some s ↦
      if not (str_eq s "notify")
      then one_error "opencode.autoupdate"
          (sprintf "unknown value %q (allowed: true, false, \"notify\")" (str s ∷ []))
      else []
]

-- func validateOpenCode, at the fields that it reads
pub validate_open_code : String → Option AutoupdateValue → ValidationErrors
validate_open_code share autoupdate =
    (if not (is_blank share) && not (valid_share share)
      then one_error "opencode.share"
          (sprintf "unknown value %q (allowed: manual, auto, disabled)" (str share ∷ []))
      else [])
    ++ check_autoupdate autoupdate

-- var validShellAutoRefreshNotices
abbrev pub valid_notice : String → Bool
valid_notice s = str_eq s "off" || (str_eq s "once" || str_eq s "every")

abbrev pub default_notice : ShellSection → ShellSection
default_notice s =
    if is_blank s.auto_refresh_notice then record s { auto_refresh_notice = "off" } else s

abbrev pub notice_errors : ShellSection → ValidationErrors
notice_errors s =
    if valid_notice s.auto_refresh_notice
    then []
    else one_error "shell.auto_refresh_notice"
        (sprintf "unknown value %q (allowed: off, once, every)" (str s.auto_refresh_notice ∷ []))

-- func validateShell
unfoldable pub validate_shell : ShellSection → ValidationErrors × ShellSection
validate_shell s = let s' = default_notice s in (notice_errors s', s')

-- var validUpdateProbeModes
abbrev pub valid_probe_mode : String → Bool
valid_probe_mode s = str_eq s "off" || (str_eq s "passive" || str_eq s "warn")

abbrev pub number_error : Bool → ℤ → String → ValidationErrors
number_error present n path =
    if present && not (ltb_ℤ (pos 0) n) then one_error path (literal "must be > 0") else []

abbrev pub or_default : Bool → ℤ → ℤ → ℤ
or_default present n d = if present then n else d

-- The section with its defaults written in.
abbrev pub default_probe : UpdateProbeSection → UpdateProbeSection
default_probe u = record u {
  default = if is_blank u.default then "passive" else u.default;
  timeout_per_plugin_ms = or_default u.timeout_per_plugin_set u.timeout_per_plugin_ms (pos 3000);
  timeout_global_ms = or_default u.timeout_global_set u.timeout_global_ms (pos 10000);
  cache_ttl_minutes = or_default u.cache_ttl_set u.cache_ttl_minutes (pos 5);
}

-- func validateUpdateProbe
unfoldable pub validate_update_probe : UpdateProbeSection → ValidationErrors × UpdateProbeSection
validate_update_probe u =
    let u' = default_probe u in
    (
      (if valid_probe_mode u'.default
            then []
            else one_error "update_probe.default"
                (sprintf "unknown value %q (allowed: off, passive, warn)" (str u'.default ∷ [])))
          ++ (number_error u.timeout_per_plugin_set u.timeout_per_plugin_ms
                "update_probe.timeout_per_plugin_ms"
              ++ (number_error u.timeout_global_set u.timeout_global_ms
                    "update_probe.timeout_global_ms"
                  ++ number_error u.cache_ttl_set u.cache_ttl_minutes
                      "update_probe.cache_ttl_minutes")),
      u',
    )

-- var validSessionModes
abbrev pub valid_mode : String → Bool
valid_mode s = is_blank s || (str_eq s "project" || str_eq s "per-invocation")

-- The checks of [session.watchdog].
pub check_watchdog : Option WatchdogConfig → ValidationErrors
check_watchdog none = []
check_watchdog (some wd) =
    (if ltb_ℤ wd.max_bumps (pos 0)
      then one_error "session.watchdog.max_bumps" (literal "must be >= 0")
      else [])
    ++ ((if ltb_ℤ (pos 0) wd.idle_timeout && ltb_ℤ wd.idle_timeout (pos 1000000000)
          then one_error "session.watchdog.idle_timeout" (literal "must be >= 1s")
          else [])
        ++ (if eqb_ℤ wd.idle_timeout (pos 0) && wd.enabled
            then one_error "session.watchdog.idle_timeout"
                (literal "must be > 0 when watchdog is enabled")
            else []))

-- func validateSession
pub validate_session : Option SessionSection → ValidationErrors
validate_session none = []
validate_session (some s) =
    (if valid_mode s.mode
      then []
      else one_error "session.mode"
          (sprintf "unknown mode %q (allowed: project, per-invocation)" (str s.mode ∷ [])))
    ++ check_watchdog s.watchdog
