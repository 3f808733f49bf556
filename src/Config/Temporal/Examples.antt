-- ===== src/Config/Temporal/Examples.antt =====
-- The theorems about `validateTemporal` at concrete sections.
use opencode_advance.Prelude.{◌≡◌, ◌↔◌, none, some, [], refl, ◌<>◌}
use opencode_advance.Config.Sections.Types.{TemporalSection}
use opencode_advance.Config.Temporal.{
  before_last_colon, is_loopback_address, validate_temporal, check_remote, is_loopback_host,
  host_of,
}
use opencode_advance.Config.Temporal.Remote.{IsAllowed, validate_temporal_iff, lookalike_accepted}

abbrev remote : TemporalSection
remote = record {
  enabled = none;
  address = "127.evil.example";
  namespace = "";
  allow_remote = none;
  node_path = "";
}

validate_temporal_iff_example : ((validate_temporal (some remote)).0 ≡ []) ↔ IsAllowed (some remote)
validate_temporal_iff_example = validate_temporal_iff (some remote)

abbrev pub local : TemporalSection
local = record { enabled = none; address = ""; namespace = ""; allow_remote = none; node_path = "" }

pub local-accepted : (validate_temporal (some local)).0 ≡ []
unfolding validate_temporal check_remote is_loopback_address before_last_colon is_loopback_host
    host_of
local-accepted = refl

no_colon : before_last_colon ("127." <> "evil.example") ≡ none
unfolding before_last_colon
no_colon = refl

lookalike_accepted_example : (validate_temporal (some remote)).0 ≡ []
lookalike_accepted_example = lookalike_accepted remote "evil.example" refl no_colon refl
