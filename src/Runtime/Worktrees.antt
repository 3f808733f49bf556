-- ===== src/Runtime/Worktrees.antt =====
-- internal/advruntime/worktree_census.go: worktrees that were not touched for long, and state of
-- Advance without a worktree.
use opencode_advance.Prelude.{
  ℕ, suc, ◌+◌, ◌*◌, ◌/◌, ℤ, pos, negsuc, ltb_ℤ, ◌-ℤ◌, String, Bool, false, not, Option, none, some,
  List, [], ◌∷◌, ◌++◌, map, ◌<>◌, is_blank, join_path, rel_path, split_path, if◌then◌else◌, Result,
  ◌||◌, str_eq,
}
use opencode_advance.Runtime.Types.{Status, WorktreeFinding, second}

-- What os.ReadDir finds, an entry with whether it is a directory.
pub data Listing : Type 0 where
  missing : Listing
  broken : String → Listing
  entries : List (String × Bool) → Listing

-- os.ReadDir, the modification time of os.Stat, and the verb %s of a duration.
pub record Files : Type 0 where
  pub read_dir : String → Listing
  pub mod_time : String → Option ℤ
  pub show_duration : ℤ → String

-- type WorktreeCensus, with its configuration normalised.
pub record Census : Type 0 where
  pub worktree_root : String
  pub adv_root : String
  pub stale_after : ℤ
  pub now : ℤ

-- type worktreeEntry
pub record WorktreeEntry : Type 0 where
  pub path : String
  pub project_id : String
  pub change_id : String
  pub mod_time : ℤ

-- d.Round(unit) of a duration, half away from zero.
abbrev pub round_to : ℕ → ℤ → ℤ
round_to unit (pos n) = pos ((n + unit / 2) / unit * unit)
round_to unit (negsuc n) = pos 0 -ℤ pos ((suc n + unit / 2) / unit * unit)

module _ (files : Files) where
  abbrev add_entry : String → String → String → Option ℤ → List WorktreeEntry → List WorktreeEntry
  add_entry path project change none rest = rest
  add_entry path project change (some t) rest =
      record { path = path; project_id = project; change_id = change; mod_time = t } ∷ rest

  scan_changes : String → String → List (String × Bool) → List WorktreeEntry
  scan_changes project dir [] = []
  scan_changes project dir ((change, is_dir) ∷ others) =
      let rest = scan_changes project dir others in
      let path = join_path (dir ∷ change ∷ []) in
      if not is_dir then rest else add_entry path project change (files.mod_time path) rest

  abbrev changes_of : String → String → Listing → List WorktreeEntry
  changes_of project dir Listing.missing = []
  changes_of project dir (Listing.broken e) = []
  changes_of project dir (Listing.entries es) = scan_changes project dir es

  scan_projects : String → List (String × Bool) → List WorktreeEntry
  unfolding scan_changes
  scan_projects root [] = []
  scan_projects root ((project, is_dir) ∷ others) =
      let rest = scan_projects root others in
      let dir = join_path (join_path (root ∷ project ∷ []) ∷ "change" ∷ []) in
      if not is_dir then rest else changes_of project dir (files.read_dir dir) ++ rest

  abbrev worktrees_of : String → Listing → Result (List WorktreeEntry)
  worktrees_of root Listing.missing = Result.done []
  worktrees_of root (Listing.broken e) = Result.fail e
  worktrees_of root (Listing.entries es) = Result.done (scan_projects root es)

  -- WorktreeCensus.scanWorktreeRoot
  pub scan_worktree_root : Census → Result (List WorktreeEntry)
  unfolding scan_projects
  scan_worktree_root c =
      if is_blank c.worktree_root
      then Result.done []
      else worktrees_of c.worktree_root (files.read_dir c.worktree_root)

  -- The finding of Scan for a worktree.
  abbrev pub worktree_finding : Census → WorktreeEntry → WorktreeFinding
  worktree_finding c wt =
      let age = c.now -ℤ wt.mod_time in
      let f : WorktreeFinding = record {
        path = wt.path;
        branch = wt.change_id;
        status = Status.pass;
        age = pos 0;
        message = "";
        hint = "";
      } in
      if not (ltb_ℤ age c.stale_after)
      then record f {
        status = Status.warn;
        age = round_to second age;
        message =
            "worktree "
            <> (wt.change_id
                <> (" not modified for "
                    <> (files.show_duration (round_to second age)
                        <> (" (threshold "
                            <> (files.show_duration (round_to (3600 * second) c.stale_after)
                                <> ")")))));
        hint =
            "if change is archived and merged, run 'oca adv recover' or manually remove the worktree";
      }
      else f

  abbrev first_part : Option String → List String
  first_part none = []
  first_part (some rel) = elim (split_path rel) [ [] ↦ [] | part ∷ parts ↦ part ∷ [] ]

  -- The projects that have a worktree.
  pub projects_in_worktrees : String → List WorktreeFinding → List String
  projects_in_worktrees root [] = []
  projects_in_worktrees root (f ∷ fs) =
      first_part (rel_path root f.path) ++ projects_in_worktrees root fs

  has_project : String → List String → Bool
  has_project project [] = false
  has_project project (p ∷ ps) = str_eq p project || has_project project ps

  orphans_among : String → List String → List (String × Bool) → List String
  unfolding has_project
  orphans_among adv_root projects [] = []
  orphans_among adv_root projects ((project, is_dir) ∷ others) =
      let rest = orphans_among adv_root projects others in
      if not is_dir || has_project project projects
      then rest
      else join_path (adv_root ∷ project ∷ []) ∷ rest

  abbrev orphans_of : String → List String → Listing → List String
  orphans_of adv_root projects Listing.missing = []
  orphans_of adv_root projects (Listing.broken e) = []
  orphans_of adv_root projects (Listing.entries es) = orphans_among adv_root projects es

  -- WorktreeCensus.findOrphanADVState
  pub find_orphan_adv_state : Census → List WorktreeFinding → List String
  unfolding projects_in_worktrees orphans_among
  find_orphan_adv_state c found =
      if is_blank c.adv_root || is_blank c.worktree_root
      then []
      else orphans_of c.adv_root (projects_in_worktrees c.worktree_root found)
          (files.read_dir c.adv_root)

  abbrev orphan_finding : String → WorktreeFinding
  orphan_finding path = record {
    path = path;
    branch = "";
    status = Status.pass;
    age = pos 0;
    message = "ADV project state exists but has no active worktrees";
    hint = "this is informational; state is retained for future changes in this project";
  }

  abbrev pub census_of : Census → Result (List WorktreeEntry) → Result (List WorktreeFinding)
  census_of c (Result.fail e) = Result.fail ("scan worktree root: " <> e)
  census_of c (Result.done worktrees) =
      let found = map (worktree_finding c) worktrees in
      Result.done (found ++ map orphan_finding (find_orphan_adv_state c found))

  -- WorktreeCensus.Scan
  pub scan_worktrees : Census → Result (List WorktreeFinding)
  unfolding scan_worktree_root find_orphan_adv_state
  scan_worktrees c = census_of c (scan_worktree_root c)
