-- ===== src/Render/Apply/Examples.antt =====
-- A plan of two targets on a machine where the last rename fails, and on one where nothing fails.
use opencode_advance.Prelude.{
  ℕ, pos, String, Bool, false, ◌≡◌, refl, ap, subst, Option, none, some, List, [], ◌∷◌, str_eq,
  show, ◌==◌, if◌then◌else◌, All, Result, dir_path,
}
use opencode_advance.Render.Disk.{
  Disk, System, remove, try_call, read, write_file, rename, chmod, create_temp,
}
use opencode_advance.Render.Atomic.{
  write_atomic, cleanup_orphan_backup_temps, remove_all, prune_backups, fill_temp, replace, back_up,
  victims, newest_first, backup_items,
}
use opencode_advance.Render.Atomic.Names.{Kind, Names}
use opencode_advance.Render.Atomic.Writes.{Replaces, write_atomic-Replaces}
use opencode_advance.Render.Apply.{
  TargetOp, Plan, ApplyOptions, apply, apply_targets, undo, rollback, fail_apply, results_of,
}
use opencode_advance.Render.Apply.Spec.{Agrees, view, put_targets, apply-Agrees}
use opencode_advance.Render.Apply.Rollback.{Back}
use opencode_advance.Render.Apply.Restores.{apply-Restores}

-- Every call succeeds but the call number `bad`.
abbrev machine : ℕ → System
machine bad = record {
  error = λ k. if k == bad then some "no space left on device" else none;
  torn = λ k. none;
  temp = λ k dir. "/c/.oca-write-1.tmp";
  now = λ k. 5;
  glob = λ k pattern. Result.done [];
}

abbrev kind : String → Kind
kind s =
    if str_eq s "/c/.oca-write-1.tmp"
    then Kind.temporary
    else if str_eq s "/c/a.bak.5"
    then Kind.backup_of "/c/a"
    else if str_eq s "/c/a.bak.5.tmp"
    then Kind.backup_of "/c/a"
    else if str_eq s "/c/b.bak.5"
    then Kind.backup_of "/c/b"
    else if str_eq s "/c/b.bak.5.tmp"
    then Kind.backup_of "/c/b"
    else Kind.ordinary

abbrev matches : Result (List String) → List String
matches (Result.fail e) = []
matches (Result.done ms) = ms

no_matches : (P : String → Type 0) (ms : List String) → Result.done [] ≡ Result.done ms → All P ms
no_matches P ms e = subst (All P) (ap matches e) tt

a-Names : (bad : ℕ) → Names (machine bad) kind "/c/a"
unfolding show
a-Names bad = record {
  plain = refl;
  temps = λ k. refl;
  backups = λ k. refl;
  backup_temps = λ k. refl;
  globbed = λ k ms e. no_matches _ ms e;
  globbed_temps = λ k ms e. no_matches _ ms e;
}

b-Names : (bad : ℕ) → Names (machine bad) kind "/c/b"
unfolding show
b-Names bad = record {
  plain = refl;
  temps = λ k. refl;
  backups = λ k. refl;
  backup_temps = λ k. refl;
  globbed = λ k ms e. no_matches _ ms e;
  globbed_temps = λ k ms e. no_matches _ ms e;
}

abbrev target : String → TargetOp
target path = record {
  name = path;
  path = path;
  op = "write";
  before = "";
  after = "new";
  mode = 420;
  backup_path = "";
  suppress_backup = false;
  reason = "";
}

abbrev plan : Plan
plan = record {
  source = "";
  lock_path = "/l/apply.lock";
  targets = target "/c/a" ∷ target "/c/b" ∷ [];
}

abbrev options : ApplyOptions
options = record { dry_run = false; max_backups = pos 0; lock_path = ""; no_rollback = false }

abbrev lock : String → Disk → Option String × Disk
lock dir d = (none, d)

-- There is a file /c/a and no file /c/b.
abbrev disk : Disk
disk = record {
  files = λ p. if str_eq p "/c/a" then some (record { content = "old"; mode = 420 }) else none;
  calls = 0;
}

abbrev is_new : Option String → Bool
is_new none = false
is_new (some content) = str_eq content "new"

write_atomic-Replaces_example :
    Replaces
      (machine 100)
      kind
      "/c/a"
      "new"
      (pos 3)
      disk.files
      (write_atomic (machine 100) "/c/a" "new" 420 (pos 3) disk)
write_atomic-Replaces_example =
    write_atomic-Replaces (machine 100) kind "/c/a" (a-Names 100) "new" 420 (pos 3) disk

applied : (apply (machine 100) lock plan options disk).failure ≡ none
unfolding apply apply_targets undo rollback fail_apply results_of write_atomic
    cleanup_orphan_backup_temps remove_all prune_backups fill_temp replace back_up victims
    newest_first backup_items remove try_call read write_file rename chmod create_temp show dir_path
applied = refl

apply-Agrees_example :
    Agrees kind
      (view (apply (machine 100) lock plan options disk).disk.files)
      (put_targets plan.targets (view disk.files))
apply-Agrees_example =
    apply-Agrees kind (machine 100) lock plan options disk (λ p d q o. refl)
      (a-Names 100, (b-Names 100, tt)) applied

rolled_back :
    ((apply (machine 19) lock plan options disk).failure ≡ some "no space left on device")
    × ((apply (machine 19) lock plan options disk).rollback_errors ≡ [])
unfolding apply apply_targets undo rollback fail_apply results_of write_atomic
    cleanup_orphan_backup_temps remove_all prune_backups fill_temp replace back_up victims
    newest_first backup_items remove try_call read write_file rename chmod create_temp show dir_path
rolled_back = (refl, refl)

apply-Restores_example :
    Back (machine 19) kind disk.files (apply (machine 19) lock plan options disk).disk.files
apply-Restores_example =
    apply-Restores kind (machine 19) lock plan options disk (λ p d q o. refl) refl refl
      ((λ e. cc (ap (str_eq "/c/b") e), tt), (tt, tt)) (a-Names 19, (b-Names 19, tt))
      (λ b. (refl, λ e. cc (ap is_new e)), (λ b. (refl, λ e. cc), tt)) (λ e. cc (e, rolled_back.0))
      rolled_back.1
