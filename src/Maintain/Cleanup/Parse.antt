-- ===== src/Maintain/Cleanup/Parse.antt =====
-- The worktrees that `ListWorktrees` offers for removal.
use opencode_advance.Prelude.{
  String, ◌≡◌, ◌≢◌, ◌↔◌, inl, inr, Bool, true, false, not, ◌||◌, Option, none, some, List, [], ◌∷◌,
  arith, refl, subst, Memᴰ, mem-cons, sym, Bool-cases, is_blank, str_eq, eq_iff, starts_with,
  if◌then◌else◌, trim_space, split_blocks, split_lines, clean_path, All, ◌<>◌,
}
use opencode_advance.Maintain.Machine.{Reply}
use opencode_advance.Maintain.Cleanup.{
  WorktreeInfo, is_eligible, read_lines, is_git_tree_clean, is_branch_merged, none_inside,
  is_process_free, scan_blocks, list_reply, list_worktrees, parse_worktrees, inspect_worktree,
}

-- A working directory in the tree at `path`.
abbrev IsOutside : String → String → Type 0
IsOutside path cwd = (clean_path cwd ≢ path) × (starts_with (clean_path cwd) (path <> "/") ≡ false)

module _ (git_reply : String → List String → Reply) (cwds : List String)
    (project_root default_branch : String) where
  -- What git and /proc say of a worktree that may go.
  pub record IsRemovable (w : WorktreeInfo) : Type 0 where
    pub elsewhere : w.path ≢ project_root
    pub change_branch : starts_with w.branch "change/" ≡ true
    pub status : (git_reply w.path ("status" ∷ "--porcelain" ∷ [])).failure ≡ none
    pub no_changes : trim_space (git_reply w.path ("status" ∷ "--porcelain" ∷ [])).output ≡ ""
    pub merged :
        (git_reply project_root (
          "merge-base"
          ∷ "--is-ancestor"
          ∷ w.branch
          ∷ (if is_blank default_branch then "trunk" else default_branch)
          ∷ [])).failure
        ≡ none
    pub unused : All (IsOutside (clean_path w.path)) cwds

  abbrev Inspected : WorktreeInfo → Type 0
  Inspected w =
      (path : String) × (branch : String) × (w
        ≡ inspect_worktree git_reply (some cwds) project_root default_branch path branch)
      × (is_blank path ≡ false)
      × (path ≢ project_root)
      × (starts_with branch "change/" ≡ true)

  abbrev skipped : String → String → Bool
  skipped path branch =
      is_blank path || (str_eq path project_root || not (starts_with branch "change/"))

  scan_blocks-Inspected :
      (blocks : List String) (w : WorktreeInfo)
      → Memᴰ w (scan_blocks git_reply (some cwds) project_root default_branch blocks)
      → Inspected w
  unfolding scan_blocks
  scan_blocks-Inspected [] w m = elim m [ ]
  scan_blocks-Inspected (block ∷ blocks) w m =
      step (read_lines ("", "") (split_lines block)).0 (read_lines ("", "") (split_lines block)).1 m
        (scan_blocks-Inspected blocks w)
    where
      step :
          (path branch : String)
          → Memᴰ w (
              if skipped path branch
              then scan_blocks git_reply (some cwds) project_root default_branch blocks
              else inspect_worktree git_reply (some cwds) project_root default_branch path branch
                ∷ scan_blocks git_reply (some cwds) project_root default_branch blocks)
          → (Memᴰ w (scan_blocks git_reply (some cwds) project_root default_branch blocks)
              → Inspected w)
          → Inspected w
      step path branch m rest = elim (Bool-cases (skipped path branch)) [
        | inl s ↦ rest (
            subst
              (λ t. Memᴰ w (
                if t
                then scan_blocks git_reply (some cwds) project_root default_branch blocks
                else inspect_worktree git_reply (some cwds) project_root default_branch path branch
                  ∷ scan_blocks git_reply (some cwds) project_root default_branch blocks))
              s m)
        | inr n ↦
            elim (mem-cons (
              subst
                (λ t. Memᴰ w (
                  if t
                  then scan_blocks git_reply (some cwds) project_root default_branch blocks
                  else inspect_worktree git_reply (some cwds) project_root default_branch path
                      branch
                    ∷ scan_blocks git_reply (some cwds) project_root default_branch blocks))
                n m)) [
                  | inl e ↦ (
                    path,
                    branch,
                    e,
                    ground (arith, n),
                    (λ d. ground (arith, n, (eq_iff path project_root).1 d)),
                    ground (arith, n),
                  )
                  | inr k ↦ rest k
                ]
      ]

  none_inside_iff :
      (path : String) (cs : List String)
      → (none_inside git_reply (some cwds) path cs ≡ true) ↔ All (IsOutside path) cs
  unfolding none_inside
  none_inside_iff path [] = (λ h. tt, λ h. refl)
  none_inside_iff path (cwd ∷ cs) = (
    λ h. (
      ((λ d. ground (arith, h, (eq_iff (clean_path cwd) path).1 d)), ground (arith, h)),
      (none_inside_iff path cs).0 (ground (arith, h)),
    ),
    λ (o, rest).
        ground (arith, o.1, o.0, eq_iff (clean_path cwd) path, (none_inside_iff path cs).1 rest),
  )

  not_blank : (branch : String) → starts_with branch "change/" ≡ true → is_blank branch ≡ false
  not_blank branch h = elim (Bool-cases (is_blank branch)) [
    | inl b ↦
        absurd
          (ground (arith, subst (λ s. starts_with s "change/" ≡ true) ((eq_iff branch "").0 b) h))
    | inr n ↦ n
  ]

  clean_iff :
      (path : String)
      → (is_git_tree_clean git_reply (some cwds) path ≡ true) ↔ (
          ((git_reply path ("status" ∷ "--porcelain" ∷ [])).failure ≡ none)
          × (trim_space (git_reply path ("status" ∷ "--porcelain" ∷ [])).output ≡ ""))
  unfolding is_git_tree_clean
  clean_iff path = (
    λ h. (ground arith, (eq_iff _ "").0 (ground arith)),
    λ (f, o). ground (
      arith,
      f,
      (eq_iff (trim_space (git_reply path ("status" ∷ "--porcelain" ∷ [])).output) "").1 o,
    ),
  )

  merged_iff :
      (branch : String)
      → (is_branch_merged git_reply (some cwds) project_root branch default_branch ≡ true) ↔ (
          (git_reply project_root (
            "merge-base"
            ∷ "--is-ancestor"
            ∷ branch
            ∷ (if is_blank default_branch then "trunk" else default_branch)
            ∷ [])).failure
          ≡ none)
  unfolding is_branch_merged
  merged_iff branch = (λ h. ground arith, λ f. rw f refl)

  free_iff :
      (path : String)
      → (is_process_free git_reply (some cwds) path ≡ true) ↔ All (IsOutside (clean_path path)) cwds
  unfolding is_process_free
  free_iff path = none_inside_iff (clean_path path) cwds

  Inspected-IsRemovable : (w : WorktreeInfo) → Inspected w → (is_eligible w ≡ true) ↔ IsRemovable w
  Inspected-IsRemovable w (path, branch, e, p, n, b) =
      subst (λ v. (is_eligible v ≡ true) ↔ IsRemovable v) (sym e)
        (
          λ h. record {
            elsewhere = n;
            change_branch = b;
            status = ((clean_iff path).0 (ground (arith, h))).0;
            no_changes = ((clean_iff path).0 (ground (arith, h))).1;
            merged = (merged_iff branch).0 (ground (arith, h));
            unused = (free_iff path).0 (ground (arith, h));
          },
          λ r. ground (
            arith,
            not_blank branch b,
            p,
            (merged_iff branch).1 r.merged,
            (clean_iff path).1 (r.status, r.no_changes),
            (free_iff path).1 r.unused,
          ),
        )

  -- A listed worktree is eligible for removal exactly when it is not the project itself, its branch
  -- starts with "change/" and, as git says, is an ancestor of the default branch (of trunk, if none is
  -- given), git reports no changes in it, and no process has its working directory in it (given that
  -- /proc could be read).
  pub list_worktrees_iff :
      (w : WorktreeInfo)
      → Memᴰ w (list_worktrees git_reply (some cwds) project_root default_branch).1
      → (is_eligible w ≡ true) ↔ IsRemovable w
  unfolding list_worktrees parse_worktrees
  list_worktrees_iff w m = Inspected-IsRemovable w (
      listed (git_reply project_root ("worktree" ∷ "list" ∷ "--porcelain" ∷ [])).failure
        (git_reply project_root ("worktree" ∷ "list" ∷ "--porcelain" ∷ [])).output m)
    where
      listed :
          (failure : Option String) (output : String)
          → Memᴰ w (list_reply git_reply (some cwds) project_root default_branch failure output).1
          → Inspected w
      listed (some e) output k = elim k [ ]
      listed none output k = scan_blocks-Inspected (split_blocks (trim_space output)) w k
