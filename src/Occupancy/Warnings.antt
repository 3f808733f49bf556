-- ===== src/Occupancy/Warnings.antt =====
-- internal/occupancy/occupancy.go: `ClassifyLiveness`, `OccupancyWarnings` and `Reconcile`.
pub mod Counts
use opencode_advance.Prelude.{
  ℕ, ◌+◌, String, Bool, true, false, not, ◌&&◌, Option, none, some, List, [], ◌∷◌, ◌++◌, map,
  is_blank, str_eq, ltb, lookup, insert, if◌then◌else◌,
}
use opencode_advance.Occupancy.Records.{Liveness, PaneRecord, or_else}

-- type ClassifiedRecord
pub record Classified : Type 0 where
  pub pane : PaneRecord
  pub liveness : Liveness

abbrev pub is_live : Option Bool → Bool
is_live none = false
is_live (some b) = b

-- The liveness of a record.
abbrev pub liveness_of : List (String × Bool) → PaneRecord → Liveness
liveness_of live_panes r =
    if is_blank r.pane_id
    then Liveness.unknown
    else if is_live (lookup r.pane_id live_panes)
    then Liveness.active
    else Liveness.stale

-- func ClassifyLiveness, which does not read the time.
abbrev pub classify_liveness : List (String × Bool) → List PaneRecord → List Classified
classify_liveness live_panes = map (λ r. record { pane = r; liveness = liveness_of live_panes r })

-- type OccupancyWarning
pub record Warning : Type 0 where
  pub path : String
  pub active_count : ℕ
  pub sessions : List String

-- type acc of OccupancyWarnings
pub record Acc : Type 0 where
  pub count : ℕ
  pub sessions : List String

abbrev pub is_active : Liveness → Bool
is_active Liveness.active = true
is_active l = false

abbrev pub worktree_of : Classified → String
worktree_of c = or_else c.pane.worktree_path c.pane.directory

abbrev pub held_acc : Option Acc → Acc
held_acc none = record { count = 0; sessions = [] }
held_acc (some a) = a

abbrev pub count_session : String → Acc → Acc
count_session session a = record { count = a.count + 1; sessions = a.sessions ++ session ∷ [] }

-- The first loop of OccupancyWarnings.
unfoldable pub count_active : List (String × Acc) → List Classified → List (String × Acc)
count_active m [] = m
count_active m (c ∷ cs) =
    let wt = worktree_of c in
    count_active
      (if is_active c.liveness
        then insert wt (count_session c.pane.session_id (held_acc (lookup wt m))) m
        else m)
      cs

-- The second loop, over the entries of the map.
unfoldable pub warnings_of : List (String × Acc) → List Warning
warnings_of [] = []
warnings_of ((wt, a) ∷ others) =
    let rest = warnings_of others in
    if ltb 1 a.count
    then record { path = wt; active_count = a.count; sessions = a.sessions } ∷ rest
    else rest

-- func OccupancyWarnings
unfoldable pub occupancy_warnings : List Classified → List Warning
unfolding count_active warnings_of
occupancy_warnings cs = warnings_of (count_active [] cs)

abbrev pub moved_pane : Classified → Option String → Classified
moved_pane c none = c
moved_pane c (some dir) = record c {
  pane = record c.pane {
    directory = dir;
    directory_drift =
        if not (is_blank c.pane.directory) && not (str_eq c.pane.directory dir)
        then true
        else c.pane.directory_drift;
  };
}

-- The round of Reconcile for a record.
abbrev pub enrich : List (String × String) → Classified → Classified
enrich tmux_cwd c =
    if is_blank c.pane.pane_id then c else moved_pane c (lookup c.pane.pane_id tmux_cwd)

-- func Reconcile
unfoldable pub reconcile_records :
    List (String × Bool) → List (String × String) → List PaneRecord → List Classified
reconcile_records live_panes tmux_cwd records =
    map (enrich tmux_cwd) (classify_liveness live_panes records)
