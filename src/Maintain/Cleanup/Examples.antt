-- ===== src/Maintain/Cleanup/Examples.antt =====
-- Listing worktrees from the output of git.
use opencode_advance.Prelude.{
  String, ◌≡◌, ◌↔◌, true, false, none, some, List, [], ◌∷◌, refl, sym, subst, Memᴰ, str_eq,
  if◌then◌else◌, trim_space, split_lines, split_blocks, clean_path,
}
use opencode_advance.Maintain.Machine.{Reply}
use opencode_advance.Maintain.Cleanup.{
  WorktreeInfo, is_eligible, read_lines, is_git_tree_clean, is_branch_merged, none_inside,
  is_process_free, scan_blocks, parse_worktrees, list_worktrees,
}
use opencode_advance.Maintain.Cleanup.Parse.{IsRemovable, list_worktrees_iff}

abbrev porcelain : String
porcelain =
    "worktree /p\nHEAD 1\nbranch refs/heads/trunk\n\nworktree /t/a\nHEAD 2\nbranch refs/heads/change/a\n\nworktree /t/b\nHEAD 3\nbranch refs/heads/change/b\n"

abbrev reply : String → List String → Reply
reply dir args =
    if str_eq dir "/p"
    then record { output = porcelain; failure = none }
    else record { output = ""; failure = none }

abbrev first_tree : WorktreeInfo
first_tree = record {
  branch = "change/a";
  path = "/t/a";
  clean = true;
  merged = true;
  process_free = true;
  session_free = true;
}

abbrev second_tree : WorktreeInfo
second_tree = record first_tree {
  branch = "change/b";
  path = "/t/b";
  process_free = false;
  session_free = false;
}

-- A process works below the second worktree.
list_run :
    list_worktrees reply (some ("/t/b/src" ∷ [])) "/p" "trunk"
    ≡ (none, first_tree ∷ second_tree ∷ [])
unfolding list_worktrees parse_worktrees scan_blocks read_lines is_git_tree_clean is_branch_merged
    is_process_free none_inside trim_space split_lines split_blocks clean_path
list_run = refl

first_tree-listed : Memᴰ first_tree (list_worktrees reply (some ("/t/b/src" ∷ [])) "/p" "trunk").1
first_tree-listed = subst (λ r. Memᴰ first_tree r.1) (sym list_run) (Memᴰ.head refl)

list_worktrees_iff_example :
    (is_eligible first_tree ≡ true) ↔ IsRemovable reply ("/t/b/src" ∷ []) "/p" "trunk" first_tree
list_worktrees_iff_example =
    list_worktrees_iff reply ("/t/b/src" ∷ []) "/p" "trunk" first_tree first_tree-listed
