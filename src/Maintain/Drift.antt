-- ===== src/Maintain/Drift.antt =====
-- internal/maintain/plugin_drift.go: whether the build of a plugin is that of its HEAD. The file
-- system and git answer through parameters; a marker file is its decoded content.
pub mod Fresh
mod Examples
use opencode_advance.Prelude.{
  ℤ, pos, String, Bool, true, false, ◌&&◌, not, Option, none, some, List, [], ◌∷◌, is_blank,
  ends_with, starts_with, str_eq, if◌then◌else◌, join_path, dir_path, base_path, rel_path, Message,
  literal, sprintf, str,
}
use opencode_advance.Config.Sections.Types.{Plugin}

-- type BuildMarker
pub record BuildMarker : Type 0 where
  pub schema_version : ℤ
  pub plugin : String
  pub source_root : String
  pub git_sha : String
  pub branch : String
  pub built_at : ℤ
  pub dist_index : String
  pub worker_bundle : String
  pub build_command_hash : String

-- type DriftStatus
pub data DriftStatus : Type 0 where
  fresh : DriftStatus
  missing_marker : DriftStatus
  stale : DriftStatus
  unknown : DriftStatus

-- type PluginDriftReport
pub record PluginDriftReport : Type 0 where
  pub plugin : String
  pub status : DriftStatus
  pub source_root : String
  pub marker_path : String
  pub git_sha : String
  pub marker : Option BuildMarker
  pub reason : Message

-- What ReadBuildMarker returns: the marker, os.ErrNotExist or another error.
pub data MarkerRead : Type 0 where
  found : BuildMarker → MarkerRead
  not_exist : MarkerRead
  unreadable : String → MarkerRead

-- func pluginRuntimeRoot
pub plugin_runtime_root : Plugin → String
plugin_runtime_root plugin =
    if not (is_blank plugin.checkout) && not (is_blank plugin.subdir)
    then join_path (plugin.checkout ∷ plugin.subdir ∷ [])
    else if not (is_blank plugin.checkout)
    then plugin.checkout
    else if not (is_blank plugin.path)
    then if ends_with plugin.path ".js" then dir_path (dir_path plugin.path) else plugin.path
    else "."

-- func sourceRoot
pub source_root_of : Plugin → String
source_root_of plugin =
    if not (is_blank plugin.checkout) then plugin.checkout else plugin_runtime_root plugin

-- func BuildMarkerPath
pub build_marker_path : Plugin → String
build_marker_path plugin = join_path (plugin_runtime_root plugin ∷ "dist" ∷ "oca-build.json" ∷ [])

-- func distIndexPath
pub dist_index_path : Plugin → String
dist_index_path plugin =
    if not (is_blank plugin.path) && ends_with plugin.path ".js"
    then plugin.path
    else join_path (plugin_runtime_root plugin ∷ "dist" ∷ "index.js" ∷ [])

-- `stat` is the error of os.Stat, `hash` the hexadecimal SHA-256 of buildCommandHash.
module _ (stat : String → Option String) (hash : List String → String) where
  abbrev pub inside : Option String → String
  inside none = ""
  inside (some rel) = if starts_with rel ".." then "" else rel

  -- func relativeOrEmpty
  pub relative_or_empty : String → String → String
  relative_or_empty root path = elim (stat path) [
    | some e ↦ ""
    | none ↦ inside (rel_path root path)
  ]

  -- func relativeOrBase
  pub relative_or_base : String → String → String
  relative_or_base root path =
      let rel = relative_or_empty root path in if is_blank rel then base_path path else rel

  -- The marker that WriteBuildMarker writes, for the head and the branch that git gives.
  pub build_marker : String → Plugin → String → String → ℤ → BuildMarker
  build_marker name plugin head branch now =
      let root = plugin_runtime_root plugin in
      record {
        schema_version = pos 1;
        plugin = name;
        source_root = source_root_of plugin;
        git_sha = head;
        branch = branch;
        built_at = now;
        dist_index = relative_or_base root (dist_index_path plugin);
        worker_bundle =
            relative_or_empty root (join_path (root ∷ "dist" ∷ "temporal" ∷ "worker.js" ∷ []));
        build_command_hash = hash plugin.build;
      }

  abbrev pub judge_marker : Plugin → String → BuildMarker → DriftStatus × Message
  judge_marker plugin head marker =
      if not (str_eq marker.git_sha head)
      then (
        DriftStatus.stale,
        sprintf "marker git_sha %s does not match HEAD %s" (str marker.git_sha ∷ str head ∷ []),
      )
      else if not (str_eq marker.build_command_hash (hash plugin.build))
      then (DriftStatus.stale, literal "build command hash changed")
      else elim (stat (join_path (plugin_runtime_root plugin ∷ marker.dist_index ∷ []))) [
        | some e ↦ (DriftStatus.stale, sprintf "dist index missing: %v" (str e ∷ []))
        | none ↦ (DriftStatus.fresh, literal "")
      ]

-- `git_output` is gitOutput (its error and its trimmed output), `read_marker` ReadBuildMarker.
module _ (git_output : String → List String → Option String × String)
    (read_marker : String → MarkerRead) (stat : String → Option String)
    (hash : List String → String) where
  abbrev pub start_report : String → Plugin → PluginDriftReport
  start_report name plugin = record {
    plugin = name;
    status = DriftStatus.unknown;
    source_root = source_root_of plugin;
    marker_path = build_marker_path plugin;
    git_sha = "";
    marker = none;
    reason = literal "";
  }

  abbrev pub report_marker : String → Plugin → String → MarkerRead → PluginDriftReport
  report_marker name plugin head MarkerRead.not_exist = record (start_report name plugin) {
    git_sha = head;
    status = DriftStatus.missing_marker;
    reason = literal "build marker missing";
  }
  report_marker name plugin head (MarkerRead.unreadable e) = record (start_report name plugin) {
    git_sha = head;
    status = DriftStatus.unknown;
    reason = literal e;
  }
  report_marker name plugin head (MarkerRead.found marker) =
      let (status, reason) = judge_marker stat hash plugin head marker in
      record (start_report name plugin) {
        git_sha = head;
        marker = some marker;
        status = status;
        reason = reason;
      }

  abbrev pub report_head : String → Plugin → Option String × String → PluginDriftReport
  report_head name plugin (some e, head) = record (start_report name plugin) {
    status = DriftStatus.unknown;
    reason = literal e;
  }
  report_head name plugin (none, head) =
      report_marker name plugin head (read_marker (build_marker_path plugin))

  -- func DetectPluginDrift; its error is always nil.
  pub detect_plugin_drift : String → Plugin → PluginDriftReport
  detect_plugin_drift name plugin =
      report_head name plugin (git_output (source_root_of plugin) ("rev-parse" ∷ "HEAD" ∷ []))
