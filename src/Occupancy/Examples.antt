-- ===== src/Occupancy/Examples.antt =====
-- Two sessions at one worktree and one whose pane is gone.
use opencode_advance.Prelude.{
  pos, String, Bool, true, false, ◌≡◌, refl, ◌↔◌, List, [], ◌∷◌, Memᴰ, lookup, insert,
}
use opencode_advance.Occupancy.Records.{Liveness, PaneRecord}
use opencode_advance.Occupancy.Warnings.{
  Classified, Warning, count_active, warnings_of, occupancy_warnings, reconcile_records,
}
use opencode_advance.Occupancy.Warnings.Counts.{Warns, occupancy_warnings_iff}

abbrev pane : String → String → String → PaneRecord
pane session id worktree = record {
  schema_version = pos 2;
  session_id = session;
  directory = "/w/a";
  ts = pos 0;
  started_at = pos 0;
  last_seen_at = pos 0;
  socket = "";
  pane_id = id;
  session_name = "";
  window_id = "";
  window_name = "";
  agent = "";
  git_root = "";
  git_common_dir = "";
  project_id = "";
  worktree_path = worktree;
  worktree_branch = "";
  liveness = Liveness.unknown;
  directory_drift = false;
}

abbrev panes : List PaneRecord
panes = pane "s1" "%1" "/w/a" ∷ pane "s2" "%2" "" ∷ pane "s3" "%3" "/w/a" ∷ []

-- The second pane has moved to /w/b, the third is gone.
abbrev live_panes : List (String × Bool)
live_panes = ("%1", true) ∷ ("%2", true) ∷ []

abbrev moved_panes : List Classified
moved_panes = reconcile_records live_panes (("%2", "/w/b") ∷ []) panes

abbrev still_panes : List Classified
still_panes = reconcile_records live_panes [] panes

abbrev both : Warning
both = record { path = "/w/a"; active_count = 2; sessions = "s1" ∷ "s2" ∷ [] }

still_warning : occupancy_warnings still_panes ≡ both ∷ []
unfolding occupancy_warnings reconcile_records count_active warnings_of lookup insert
still_warning = refl

moved_warning : occupancy_warnings moved_panes ≡ []
unfolding occupancy_warnings reconcile_records count_active warnings_of lookup insert
moved_warning = refl

occupancy_warnings_iff_example : Memᴰ both (occupancy_warnings still_panes) ↔ Warns still_panes both
occupancy_warnings_iff_example = occupancy_warnings_iff still_panes both
