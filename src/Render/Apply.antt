-- ===== src/Render/Apply.antt =====
-- internal/render/types.go and internal/render/apply.go: a plan is applied target by target, and
-- rolled back when a target fails.
pub mod Spec
pub mod Undoes
pub mod Rollback
pub mod Restores
mod Examples
use opencode_advance.Prelude.{
  ℕ, ℤ, pos, eqb_ℤ, String, Bool, true, false, ◌&&◌, not, Option, none, some, List, [], ◌∷◌, ◌++◌,
  map, ◌<>◌, str_eq, is_blank, is_empty, dir_path, if◌then◌else◌,
}
use opencode_advance.Render.Disk.{Disk, System, Reading, remove, read, write_file, try_call}
use opencode_advance.Render.Atomic.{Write, write_atomic}

-- type TargetOp; `after` is the content to write.
pub record TargetOp : Type 0 where
  pub name : String
  pub path : String
  pub op : String
  pub before : String
  pub after : String
  pub mode : ℕ
  pub backup_path : String
  pub suppress_backup : Bool
  pub reason : String

-- type Plan
pub record Plan : Type 0 where
  pub source : String
  pub lock_path : String
  pub targets : List TargetOp

-- type ApplyOptions
pub record ApplyOptions : Type 0 where
  pub dry_run : Bool
  pub max_backups : ℤ
  pub lock_path : String
  pub no_rollback : Bool

-- type TargetResult
pub record TargetResult : Type 0 where
  pub path : String
  pub op : String
  pub backup_path : String
  pub wrote : Bool

-- What Apply returns, and the disk after it. `rollback_errors` are joined to `failure` in the
-- error that it returns.
pub record Applied : Type 0 where
  pub results : List TargetResult
  pub failure : Option String
  pub rollback_errors : List String
  pub disk : Disk

-- The result of a target before it is written.
abbrev pub unwritten : TargetOp → TargetResult
unwritten t = record { path = t.path; op = t.op; backup_path = ""; wrote = false }

abbrev pub is_noop : TargetOp → Bool
is_noop t = str_eq t.op "noop"

-- The targets done so far with their results, the latest first.
abbrev pub Done : Type 0
Done = List (TargetOp × TargetResult)

-- In the order of the plan, before `later`.
unfoldable pub results_of : Done → List TargetResult → List TargetResult
results_of [] later = later
results_of ((t, r) ∷ done) later = results_of done (r ∷ later)

abbrev pub max_for : TargetOp → ℤ → ℤ
max_for t max = if t.suppress_backup then pos 0 else max

abbrev pub default_backups : ℤ → ℤ
default_backups max = if eqb_ℤ max (pos 0) then pos 3 else max

-- The error check after a write.
abbrev pub proceed : Option String → Applied → (String → Applied) → Applied
proceed none next bad = next
proceed (some e) next bad = bad e

abbrev pub noted : String → Option String × Disk → List String × Disk
noted label (none, d) = ([], d)
noted label (some e, d) = ((label <> ": " <> e) ∷ [], d)

abbrev pub add_errors : List String → List String × Disk → List String × Disk
add_errors es (later, d) = (es ++ later, d)

module _ (sys : System) where
  abbrev pub restore : TargetOp → TargetResult → Reading × Disk → List String × Disk
  restore t r (Reading.missing, d) =
      (("rollback read backup " <> r.backup_path <> ": no such file or directory") ∷ [], d)
  restore t r (Reading.broken e, d) =
      (("rollback read backup " <> r.backup_path <> ": " <> e) ∷ [], d)
  restore t r (Reading.found content, d) =
      noted ("rollback restore " <> r.path) (write_file sys r.path content t.mode d)

  -- One round of rollback.
  unfoldable pub undo : TargetOp → TargetResult → Disk → List String × Disk
  undo t r d =
      if not r.wrote
      then ([], d)
      else if not (is_blank r.backup_path)
      then restore t r (read sys r.backup_path d)
      else noted ("rollback remove " <> r.path) (remove sys r.path d)

  -- func rollback
  unfoldable pub rollback : Done → Disk → List String × Disk
  rollback [] d = ([], d)
  rollback ((t, r) ∷ done) d = let (es, after) = undo t r d in add_errors es (rollback done after)

  -- After a write that failed.
  unfoldable pub fail_apply : Bool → TargetOp → Write → String → Done → Applied
  fail_apply no_rollback t w e done =
      let results = results_of done (record (unwritten t) { backup_path = w.backup } ∷ []) in
      if no_rollback
      then record { results = results; failure = some e; rollback_errors = []; disk = w.disk }
      else let (es, d) = rollback done w.disk in
        record { results = results; failure = some e; rollback_errors = es; disk = d }

  -- The result of a target that was written.
  abbrev pub written : TargetOp → Write → TargetResult
  written t w = record (unwritten t) { backup_path = w.backup; wrote = true }

  -- The loop of Apply.
  unfoldable pub apply_targets : Bool → ℤ → List TargetOp → Done → Disk → Applied
  apply_targets no_rollback max [] done d = record {
    results = results_of done [];
    failure = none;
    rollback_errors = [];
    disk = d;
  }
  apply_targets no_rollback max (t ∷ ts) done d =
      let skip = apply_targets no_rollback max ts ((t, unwritten t) ∷ done) d in
      let w = write_atomic sys t.path t.after t.mode (max_for t max) d in
      let next = apply_targets no_rollback max ts ((t, written t w) ∷ done) w.disk in
      if is_noop t then skip else proceed w.failure next (λ e. fail_apply no_rollback t w e done)

  abbrev pub apply_locked : Plan → ApplyOptions → Option String × Disk → Applied
  apply_locked plan opts (some e, d) = record {
    results = [];
    failure = some e;
    rollback_errors = [];
    disk = d;
  }
  apply_locked plan opts (none, d) =
      apply_targets opts.no_rollback (default_backups opts.max_backups) plan.targets [] d

  -- func Apply. `lock` is AcquireApplyLock on the directory of the lock file; it and its release
  -- touch no file but that one.
  unfoldable pub apply :
      (String → Disk → Option String × Disk) → Plan → ApplyOptions → Disk → Applied
  apply lock plan opts d =
      let lock_path = if is_blank opts.lock_path then plan.lock_path else opts.lock_path in
      if opts.dry_run
      then record {
        results = map unwritten plan.targets;
        failure = none;
        rollback_errors = [];
        disk = d;
      }
      else apply_locked plan opts (lock (dir_path lock_path) d)
