-- ===== src/Maintain/Cleanup.antt =====
-- internal/maintain/cleanup.go: which worktrees can be removed. git and /proc are parameters:
-- `git_reply` answers `gitCommand`, and `cwds` are the working directories of the processes, as far
-- as they can be read (`none` if /proc can not).
pub mod Parse
mod Examples
use opencode_advance.Prelude.{
  String, Bool, true, false, ◌&&◌, ◌||◌, not, Option, none, some, List, [], ◌∷◌, is_blank,
  drop_bytes, ◌<>◌, str_eq, starts_with, ends_with, if◌then◌else◌, trim_space, split_lines,
  split_blocks, clean_path,
}
use Prim.Native.String.{len}
use opencode_advance.Maintain.Machine.{Reply}

-- type WorktreeInfo
pub record WorktreeInfo : Type 0 where
  pub branch : String
  pub path : String
  pub clean : Bool
  pub merged : Bool
  pub process_free : Bool
  pub session_free : Bool

-- func (w WorktreeInfo) Eligible
abbrev pub is_eligible : WorktreeInfo → Bool
is_eligible w =
    not (is_blank w.branch)
    && (not (is_blank w.path) && (w.clean && (w.merged && (w.process_free && w.session_free))))

-- func (w WorktreeInfo) IneligibleReason
pub worktree_reason : WorktreeInfo → String
worktree_reason w =
    if is_blank w.branch
    then "missing branch"
    else if is_blank w.path
    then "missing path"
    else if not w.merged
    then "branch is not merged into default branch"
    else if not w.clean
    then "worktree has uncommitted changes"
    else if not w.process_free
    then "process is using worktree"
    else if not w.session_free
    then "session is using worktree"
    else "not eligible"

-- strings.TrimPrefix
abbrev pub without_prefix : String → String → String
without_prefix s prefix = if starts_with s prefix then drop_bytes (len prefix) s else s

-- The loop over the lines of a block: the path and the branch.
pub read_lines : String × String → List String → String × String
read_lines (path, branch) [] = (path, branch)
read_lines (path, branch) (line ∷ lines) =
    read_lines
      (if starts_with line "worktree "
        then (without_prefix line "worktree ", branch)
        else if starts_with line "branch "
        then (path, without_prefix line "branch refs/heads/")
        else (path, branch))
      lines

abbrev pub has_failed : Option String → Bool
has_failed none = false
has_failed (some e) = true

module _ (git_reply : String → List String → Reply) (cwds : Option (List String)) where
  -- func isGitTreeClean
  pub is_git_tree_clean : String → Bool
  is_git_tree_clean path =
      let reply = git_reply path ("status" ∷ "--porcelain" ∷ []) in
      not (has_failed reply.failure) && is_blank (trim_space reply.output)

  -- func isBranchMerged
  pub is_branch_merged : String → String → String → Bool
  is_branch_merged project_root branch default_branch =
      let default_branch = if is_blank default_branch then "trunk" else default_branch in
      not (
        has_failed
          (git_reply project_root
            ("merge-base" ∷ "--is-ancestor" ∷ branch ∷ default_branch ∷ [])).failure)

  pub none_inside : String → List String → Bool
  none_inside path [] = true
  none_inside path (cwd ∷ rest) =
      let cwd = clean_path cwd in
      not (str_eq cwd path || starts_with cwd (path <> "/")) && none_inside path rest

  -- func isProcessFree
  pub is_process_free : String → Bool
  is_process_free worktree_path = elim cwds [
    | none ↦ true
    | some cs ↦ none_inside (clean_path worktree_path) cs
  ]

  -- The worktree of a block with what git and /proc say of it.
  abbrev pub inspect_worktree : String → String → String → String → WorktreeInfo
  inspect_worktree project_root default_branch path branch =
      let process_free = is_process_free path in
      record {
        branch = branch;
        path = path;
        clean = is_git_tree_clean path;
        merged = is_branch_merged project_root branch default_branch;
        process_free = process_free;
        session_free = process_free;
      }

  -- The loop over the blocks.
  pub scan_blocks : String → String → List String → List WorktreeInfo
  scan_blocks project_root default_branch [] = []
  scan_blocks project_root default_branch (block ∷ blocks) =
      let worktrees = scan_blocks project_root default_branch blocks in
      let (path, branch) = read_lines ("", "") (split_lines block) in
      if is_blank path || (str_eq path project_root || not (starts_with branch "change/"))
      then worktrees
      else inspect_worktree project_root default_branch path branch ∷ worktrees

  -- func parseWorktrees
  pub parse_worktrees : String → String → String → List WorktreeInfo
  parse_worktrees project_root default_branch porcelain =
      scan_blocks project_root default_branch (split_blocks (trim_space porcelain))

  abbrev pub list_reply :
      String → String → Option String → String → Option String × List WorktreeInfo
  list_reply project_root default_branch (some e) output = (some e, [])
  list_reply project_root default_branch none output =
      (none, parse_worktrees project_root default_branch output)

  -- func ListWorktrees: the error, or the worktrees.
  pub list_worktrees : String → String → Option String × List WorktreeInfo
  list_worktrees project_root default_branch =
      let reply = git_reply project_root ("worktree" ∷ "list" ∷ "--porcelain" ∷ []) in
      list_reply project_root default_branch reply.failure reply.output
