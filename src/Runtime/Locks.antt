-- ===== src/Runtime/Locks.antt =====
-- internal/advruntime/worker_lock.go: what the lock files of the workers of Advance tell.
use opencode_advance.Prelude.{
  ◌*◌, ℤ, pos, ltb_ℤ, ◌-ℤ◌, String, Bool, not, Option, none, some, List, [], ◌∷◌, ◌<>◌, is_blank,
  join_path, if◌then◌else◌, Result,
}
use opencode_advance.Runtime.Types.{Status, second, show_int}
use opencode_advance.Runtime.Worktrees.{Listing, round_to}

-- type WorkerLockFinding
pub record WorkerLockFinding : Type 0 where
  pub project_id : String
  pub path : String
  pub pid : ℤ
  pub worker_id : String
  pub status : Status
  pub age : ℤ
  pub message : String
  pub hint : String

-- type workerLockContents
pub record LockContents : Type 0 where
  pub schema_version : ℤ
  pub pid : ℤ
  pub worker_id : String
  pub acquired_at : String
  pub last_heartbeat : String

-- A lock file: it cannot be read, it is no JSON, or its contents.
pub data LockFile : Type 0 where
  unreadable : LockFile
  malformed : LockFile
  contents : LockContents → LockFile

-- type WorkerLockScanner with os.ReadDir, the lock files, time.Parse and the verb %s of a duration.
pub record Scanner : Type 0 where
  pub adv_root : String
  pub stale_after : ℤ
  pub now : ℤ
  pub pid_alive : ℤ → Bool
  pub read_dir : String → Listing
  pub read_lock : String → LockFile
  pub parse_time : String → Option ℤ
  pub show_duration : ℤ → String

abbrev restart_hint : String
restart_hint = "restart OpenCode or run adv_temporal_worker_restart from an ADV-capable session"

abbrev finding : String → String → ℤ → String → ℤ → String → WorkerLockFinding
finding project path pid worker age message = record {
  project_id = project;
  path = path;
  pid = pid;
  worker_id = worker;
  status = Status.warn;
  age = age;
  message = message;
  hint = restart_hint;
}

abbrev pub judge_heartbeat :
    Scanner → String → String → LockContents → Option ℤ → Option WorkerLockFinding
judge_heartbeat s project path c none = some (
    finding project path c.pid c.worker_id (pos 0)
      ("cannot parse ADV worker lock heartbeat for project " <> project))
judge_heartbeat s project path c (some heartbeat) =
    let age = s.now -ℤ heartbeat in
    if ltb_ℤ age s.stale_after
    then none
    else some (
        finding project path c.pid c.worker_id (round_to second age) (
          if not (s.pid_alive c.pid)
          then "ADV worker lock has stale heartbeat and dead pid for project "
            <> (project <> (": pid " <> show_int c.pid))
          else "ADV worker lock has stale heartbeat for project "
            <> (project
                <> (": age "
                    <> (s.show_duration (round_to second age)
                        <> (" exceeds " <> s.show_duration (round_to second s.stale_after)))))))

abbrev pub judge_lock : Scanner → String → String → LockFile → Option WorkerLockFinding
judge_lock s project path LockFile.unreadable = none
judge_lock s project path LockFile.malformed = some (
    finding project path (pos 0) "" (pos 0)
      ("cannot parse ADV worker lock for project " <> project))
judge_lock s project path (LockFile.contents c) =
    if is_blank c.last_heartbeat
    then none
    else judge_heartbeat s project path c (s.parse_time c.last_heartbeat)

-- WorkerLockScanner.scanLock
pub scan_lock : Scanner → String → String → Option WorkerLockFinding
scan_lock s project path = judge_lock s project path (s.read_lock path)

abbrev add_found : Option WorkerLockFinding → List WorkerLockFinding → List WorkerLockFinding
add_found none rest = rest
add_found (some f) rest = f ∷ rest

scan_entries : Scanner → List (String × Bool) → List WorkerLockFinding
unfolding scan_lock
scan_entries s [] = []
scan_entries s ((project, is_dir) ∷ others) =
    let rest = scan_entries s others in
    if not is_dir
    then rest
    else add_found (scan_lock s project (join_path (s.adv_root ∷ project ∷ "worker.lock" ∷ [])))
        rest

abbrev locks_of : Scanner → Listing → Result (List WorkerLockFinding)
locks_of s Listing.missing = Result.done []
locks_of s (Listing.broken e) = Result.fail e
locks_of s (Listing.entries es) = Result.done (scan_entries s es)

-- WorkerLockScanner.Scan, with a context that is not done.
pub scan_locks : Scanner → Result (List WorkerLockFinding)
unfolding scan_entries
scan_locks s = if is_blank s.adv_root then Result.done [] else locks_of s (s.read_dir s.adv_root)

-- func workerHeartbeatStaleAfterFromEnv; `atoi` is strconv.Atoi.
abbrev positive_ms : Option ℤ → ℤ
positive_ms none = pos (60 * second)
positive_ms (some (pos n)) = if ltb_ℤ (pos 0) (pos n) then pos (n * 1000000) else pos (60 * second)
positive_ms (some n) = pos (60 * second)

pub worker_heartbeat_stale_after : (String → Option ℤ) → String → ℤ
worker_heartbeat_stale_after atoi raw =
    if is_blank raw then pos (60 * second) else positive_ms (atoi raw)
