-- ===== src/Config/Temporal.antt =====
-- internal/config/validate.go: `validateTemporal`, which also writes the defaults into the section,
-- and `isLoopbackAddress`.
pub mod Hosts
pub mod Remote
pub mod Examples
use Prim.Native.String.{len}
use Prim.Native.Char.{code}
use opencode_advance.Prelude.{
  ◌-◌, String, Bool, true, false, ◌&&◌, ◌||◌, not, Option, none, some, List, [], ◌∷◌, is_blank,
  literal, str_eq, starts_with, ends_with, ◌==◌, ◌≡◌, refl, drop_bytes, take_bytes, if◌then◌else◌,
}
use opencode_advance.Config.Errors.{ValidationErrors, one_error}
use opencode_advance.Config.Sections.Types.{TemporalSection, enabled_or_absent}

-- addr[:strings.LastIndex(addr, ":")], if there is a colon.
pub before_last_colon : String → Option String
before_last_colon String.[] = none
before_last_colon (String.◌∷◌ c s) = elim (before_last_colon s) [
  | some host ↦ some (String.◌∷◌ c host)
  | none ↦ if code c == b':' then some String.[] else none
]

abbrev pub or_whole : String → Option String → String
or_whole addr none = addr
or_whole addr (some host) = host

-- strings.TrimPrefix and strings.TrimSuffix
abbrev pub trim_prefix : String → String → String
trim_prefix s t = if starts_with s t then drop_bytes (len t) s else s

abbrev pub trim_suffix : String → String → String
trim_suffix s t = if ends_with s t then take_bytes (len s - len t) s else s

pub host_of : String → String
host_of addr = trim_suffix (trim_prefix (or_whole addr (before_last_colon addr)) "[") "]"

pub is_loopback_host : String → Bool
is_loopback_host host =
    if str_eq host "127.0.0.1" || (str_eq host "localhost" || str_eq host "::1")
    then true
    else if starts_with host "127."
    then true
    else if starts_with host "::ffff:"
    then (let mapped = drop_bytes (len "::ffff:") host in
        starts_with mapped "127." || str_eq mapped "127.0.0.1")
    else false

-- func isLoopbackAddress
pub is_loopback_address : String → Bool
is_loopback_address addr = is_loopback_host (host_of addr)

abbrev pub default_to : String → String → String
default_to s d = if is_blank s then d else s

abbrev pub with_defaults : TemporalSection → TemporalSection
with_defaults t = record t {
  address = default_to t.address "127.0.0.1:7233";
  namespace = default_to t.namespace "default";
}

-- t.AllowRemote == nil || !*t.AllowRemote
abbrev pub forbids_remote : Option Bool → Bool
forbids_remote none = true
forbids_remote (some b) = not b

pub check_remote : TemporalSection → ValidationErrors
check_remote t =
    if not (is_loopback_address t.address) && forbids_remote t.allow_remote
    then one_error "temporal.allow_remote" (
        literal
          "must be true when address is non-loopback (security: prevents accidental exposure)")
    else []

-- func validateTemporal
unfoldable pub validate_temporal :
    Option TemporalSection → ValidationErrors × Option TemporalSection
unfolding check_remote
validate_temporal none = ([], none)
validate_temporal (some t) =
    if enabled_or_absent t.enabled
    then (check_remote (with_defaults t), some (with_defaults t))
    else ([], some t)

loopback_tests :
    (is_loopback_address "[::1]:7233" ≡ true)
    × (is_loopback_address "10.0.0.1:7233" ≡ false)
    × (is_loopback_address "127.evil.example:7233" ≡ true)
unfolding is_loopback_address host_of before_last_colon is_loopback_host
loopback_tests = (refl, refl, refl)
