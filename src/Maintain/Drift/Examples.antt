-- ===== src/Maintain/Drift/Examples.antt =====
-- The drift of a concrete plugin.
use opencode_advance.Prelude.{String, pos, ◌≡◌, ◌↔◌, Option, none, List, [], ◌∷◌, refl}
use opencode_advance.Config.Sections.Types.{Plugin}
use opencode_advance.Maintain.Drift.{
  BuildMarker, DriftStatus, MarkerRead, detect_plugin_drift, source_root_of, build_marker,
}
use opencode_advance.Maintain.Drift.Fresh.{HasCurrent, detect_plugin_drift_iff}

abbrev plugin : Plugin
plugin = record {
  source = "git@host:advance.git";
  ref = "trunk";
  checkout = "/src/advance";
  subdir = "plugin";
  build = "pnpm build" ∷ [];
  path = "";
  sync = "";
  provides = [];
  instructions = [];
  enabled = none;
}

abbrev head_is : String → List String → Option String × String
head_is dir args = (none, "c0ffee")

abbrev all_there : String → Option String
all_there path = none

abbrev one_hash : List String → String
one_hash commands = "hash"

-- The marker that a build just wrote.
abbrev marker : BuildMarker
marker = build_marker all_there one_hash "advance" plugin "c0ffee" "trunk" (pos 0)

fresh_run :
    (detect_plugin_drift head_is
      (λ path. MarkerRead.found marker)
      all_there
      one_hash
      "advance"
      plugin).status
    ≡ DriftStatus.fresh
unfolding detect_plugin_drift build_marker
fresh_run = refl

detect_plugin_drift_iff_example :
    ((detect_plugin_drift head_is
        (λ path. MarkerRead.found marker)
        all_there
        one_hash
        "advance"
        plugin).status
      ≡ DriftStatus.fresh)
    ↔ HasCurrent head_is
        (λ path. MarkerRead.found marker)
        all_there
        one_hash
        "advance"
        plugin
        (head_is (source_root_of plugin) ("rev-parse" ∷ "HEAD" ∷ []))
        (MarkerRead.found marker)
detect_plugin_drift_iff_example =
    detect_plugin_drift_iff head_is (λ path. MarkerRead.found marker) all_there one_hash "advance"
      plugin
