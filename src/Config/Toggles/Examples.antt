-- ===== src/Config/Toggles/Examples.antt =====
-- The sections of Toggles, left out.
use opencode_advance.Prelude.{pos, refl, ◌≡◌, false, none, []}
use opencode_advance.Config.Sections.Types.{ShellSection, UpdateProbeSection}
use opencode_advance.Config.Toggles.{
  validate_open_code, validate_session, validate_shell, validate_update_probe, check_autoupdate,
}

abbrev pub no_shell : ShellSection
no_shell = record { auto_refresh = none; auto_refresh_notice = "" }

abbrev pub no_probe : UpdateProbeSection
no_probe = record {
  default = "";
  timeout_per_plugin_ms = pos 0;
  timeout_global_ms = pos 0;
  cache_ttl_minutes = pos 0;
  timeout_per_plugin_set = false;
  timeout_global_set = false;
  cache_ttl_set = false;
}

pub toggles-accepted :
    (validate_open_code "" none ≡ [])
    × (validate_session none ≡ [])
    × ((validate_shell no_shell).0 ≡ [])
    × ((validate_update_probe no_probe).0 ≡ [])
unfolding validate_open_code validate_session validate_shell validate_update_probe check_autoupdate
toggles-accepted = (refl, refl, refl, refl)
