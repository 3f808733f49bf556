-- ===== src/Runtime/Workspaces.antt =====
-- internal/advruntime/workspace_projection.go: sessions with the state of their worktree.
use opencode_advance.Prelude.{
  String, Bool, false, ◌&&◌, ◌||◌, not, Option, none, some, List, [], ◌∷◌, map, is_blank, str_eq,
  starts_with, drop_bytes, ltb, if◌then◌else◌,
}
use Prim.Native.String.{len}

-- type WorktreeWorkspaceState
pub record WorktreeState : Type 0 where
  pub branch : String
  pub path : String
  pub materialized : Bool
  pub change_id : String
  pub status : String
  pub setup_ready : Bool
  pub setup_failure_reason : String
  pub base_ref : String
  pub head_sha : String
  pub source : String

-- type WorkspaceProjection
pub record WorkspaceProjection : Type 0 where
  pub project_id : String
  pub worktrees : List WorktreeState

-- type SessionView
pub record SessionView : Type 0 where
  pub name : String
  pub attached : Bool
  pub path : String

-- type EnrichedSession
pub record EnrichedSession : Type 0 where
  pub name : String
  pub attached : Bool
  pub path : String
  pub workspace_status : String
  pub workspace_change_id : String
  pub workspace_branch : String
  pub workspace_setup_ready : Bool
  pub workspace_failure : String

abbrev short_branch : String → String
short_branch branch =
    if ltb 7 (len branch) && starts_with branch "change/" then drop_bytes 7 branch else branch

-- func matchSessionToWorkspace
pub match_session_to_workspace : String → String → WorktreeState → Bool
match_session_to_workspace name path wt =
    (not (is_blank path) && (not (is_blank wt.path) && str_eq path wt.path))
    || ((not (is_blank wt.change_id) && str_eq name wt.change_id)
        || (not (is_blank wt.branch) && str_eq name (short_branch wt.branch)))

-- The first worktree that matches.
pub first_match : SessionView → List WorktreeState → Option WorktreeState
unfolding match_session_to_workspace
first_match s [] = none
first_match s (wt ∷ wts) =
    let rest = first_match s wts in
    if match_session_to_workspace s.name s.path wt then some wt else rest

abbrev enriched : SessionView → Option WorktreeState → EnrichedSession
enriched s none = record {
  name = s.name;
  attached = s.attached;
  path = s.path;
  workspace_status = "";
  workspace_change_id = "";
  workspace_branch = "";
  workspace_setup_ready = false;
  workspace_failure = "";
}
enriched s (some wt) = record {
  name = s.name;
  attached = s.attached;
  path = s.path;
  workspace_status = wt.status;
  workspace_change_id = wt.change_id;
  workspace_branch = wt.branch;
  workspace_setup_ready = wt.setup_ready;
  workspace_failure = wt.setup_failure_reason;
}

abbrev worktrees_of : Option WorkspaceProjection → List WorktreeState
worktrees_of none = []
worktrees_of (some p) = p.worktrees

-- func EnrichSessionsWithWorkspaceState; none is a nil projection.
pub enrich_sessions_with_workspace_state :
    List SessionView → Option WorkspaceProjection → List EnrichedSession
unfolding first_match
enrich_sessions_with_workspace_state sessions projection =
    map (λ s. enriched s (first_match s (worktrees_of projection))) sessions

-- The snapshot of a project: it cannot be read, it is no JSON, or its registry, in the order in which
-- the map is ranged over.
pub data Snapshot : Type 0 where
  unavailable : Snapshot
  malformed : String → Snapshot
  registry : List WorktreeState → Snapshot

abbrev projection_of : String → Snapshot → Option String × WorkspaceProjection
projection_of project Snapshot.unavailable = (none, record { project_id = project; worktrees = [] })
projection_of project (Snapshot.malformed e) =
    (some e, record { project_id = project; worktrees = [] })
projection_of project (Snapshot.registry wts) =
    (none, record { project_id = project; worktrees = wts })

-- func ProjectWorkspaceStates, with the state root and the snapshot of the project.
pub project_workspace_states : String → String → Snapshot → Option String × WorkspaceProjection
project_workspace_states project adv_root snapshot =
    if is_blank project || is_blank adv_root
    then (none, record { project_id = project; worktrees = [] })
    else projection_of project snapshot
