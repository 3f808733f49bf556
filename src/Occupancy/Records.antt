-- ===== src/Occupancy/Records.antt =====
-- internal/occupancy/occupancy.go: the data, `Parse`, `DiscoverRecords` and `GroupBy`.
use opencode_advance.Prelude.{
  ℕ, ◌+◌, ℤ, pos, eqb_ℤ, String, Bool, false, Option, none, some, List, [], ◌∷◌, ◌++◌, ◌<>◌,
  is_blank, length, lookup, insert, if◌then◌else◌, Result,
}

-- type Liveness
pub data Liveness : Type 0 where
  unknown : Liveness
  active : Liveness
  stale : Liveness

-- Liveness.String
abbrev pub liveness_text : Liveness → String
liveness_text Liveness.active = "active"
liveness_text Liveness.stale = "stale"
liveness_text Liveness.unknown = "unknown"

-- type PaneRecord
pub record PaneRecord : Type 0 where
  pub schema_version : ℤ
  pub session_id : String
  pub directory : String
  pub ts : ℤ
  pub started_at : ℤ
  pub last_seen_at : ℤ
  pub socket : String
  pub pane_id : String
  pub session_name : String
  pub window_id : String
  pub window_name : String
  pub agent : String
  pub git_root : String
  pub git_common_dir : String
  pub project_id : String
  pub worktree_path : String
  pub worktree_branch : String
  pub liveness : Liveness
  pub directory_drift : Bool

-- type rawPane; a json.Number is its text.
pub record RawPane : Type 0 where
  pub schema_version : ℤ
  pub session_id : String
  pub directory : String
  pub ts : String
  pub started_at : String
  pub last_seen_at : String
  pub socket : String
  pub pane_id : String
  pub session_name : String
  pub window_id : String
  pub window_name : String
  pub agent : String
  pub git_root : String
  pub git_common_dir : String
  pub project_id : String
  pub worktree_path : String
  pub worktree_branch : String

-- The number that json.Number.Int64 returns, whatever its error, and json.Unmarshal of a pane.
pub record Decoder : Type 0 where
  pub int64 : String → ℤ
  pub unmarshal : String → Result RawPane

abbrev pub record_of : Decoder → RawPane → PaneRecord
record_of decoder raw = record {
  schema_version = if eqb_ℤ raw.schema_version (pos 0) then pos 1 else raw.schema_version;
  session_id = raw.session_id;
  directory = raw.directory;
  ts = decoder.int64 raw.ts;
  started_at = decoder.int64 raw.started_at;
  last_seen_at = decoder.int64 raw.last_seen_at;
  socket = raw.socket;
  pane_id = raw.pane_id;
  session_name = raw.session_name;
  window_id = raw.window_id;
  window_name = raw.window_name;
  agent = raw.agent;
  git_root = raw.git_root;
  git_common_dir = raw.git_common_dir;
  project_id = raw.project_id;
  worktree_path = raw.worktree_path;
  worktree_branch = raw.worktree_branch;
  liveness = Liveness.unknown;
  directory_drift = false;
}

abbrev pub pane_parsed : Decoder → Result RawPane → List PaneRecord × List String
pane_parsed decoder (Result.fail e) = ([], ("parse pane state: " <> e) ∷ [])
pane_parsed decoder (Result.done raw) = (record_of decoder raw ∷ [], [])

-- func Parse
pub parse : Decoder → String → List PaneRecord × List String
parse decoder text =
    if is_blank text then ([], []) else pane_parsed decoder (decoder.unmarshal text)

-- A path that filepath.WalkDir comes to: its error, a directory or a file with another extension, or
-- a file .json with what os.ReadFile returns.
pub data Visit : Type 0 where
  skipped : Visit
  other : Visit
  json_file : Result String → Visit

abbrev pub after_parse : List PaneRecord × ℕ → List PaneRecord × List String → List PaneRecord × ℕ
after_parse (records, bad) (found, []) = (records ++ found, bad)
after_parse (records, bad) (found, e ∷ es) = (records, bad + length (e ∷ es))

-- The function that is called at each path.
abbrev pub visit : Decoder → List PaneRecord × ℕ → Visit → List PaneRecord × ℕ
visit decoder (records, bad) Visit.skipped = (records, bad + 1)
visit decoder (records, bad) Visit.other = (records, bad)
visit decoder (records, bad) (Visit.json_file (Result.fail e)) = (records, bad + 1)
visit decoder (records, bad) (Visit.json_file (Result.done text)) =
    after_parse (records, bad) (parse decoder text)

pub walk_dir : Decoder → List PaneRecord × ℕ → List Visit → List PaneRecord × ℕ
unfolding parse
walk_dir decoder found [] = found
walk_dir decoder found (v ∷ vs) = walk_dir decoder (visit decoder found v) vs

-- The directory: missing, unreadable, or with what the walk comes to.
pub data StateDir : Type 0 where
  missing : StateDir
  unreadable : String → StateDir
  tree : List Visit → StateDir

-- func DiscoverRecords
pub discover_records : Decoder → StateDir → Result (List PaneRecord × ℕ)
unfolding walk_dir
discover_records decoder StateDir.missing = Result.done ([], 0)
discover_records decoder (StateDir.unreadable e) = Result.fail e
discover_records decoder (StateDir.tree visits) = Result.done (walk_dir decoder ([], 0) visits)

-- type GroupByKey
pub data GroupByKey : Type 0 where
  by_project : GroupByKey
  by_worktree : GroupByKey

abbrev pub or_else : String → String → String
or_else s default = if is_blank s then default else s

-- The id of the group of a record.
abbrev pub group_id : GroupByKey → PaneRecord → String
group_id GroupByKey.by_project r = or_else (or_else r.project_id r.git_root) r.directory
group_id GroupByKey.by_worktree r = or_else r.worktree_path r.directory

abbrev pub held_group : Option (List PaneRecord) → List PaneRecord
held_group none = []
held_group (some rs) = rs

-- func GroupBy; `groups` is the map so far.
pub group_by :
    GroupByKey → List (String × List PaneRecord) → List PaneRecord → List (String × List PaneRecord)
group_by key groups [] = groups
group_by key groups (r ∷ rs) =
    let id = group_id key r in
    group_by key (insert id (held_group (lookup id groups) ++ r ∷ []) groups) rs
