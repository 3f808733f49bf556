-- ===== src/Maintain/SessionGate.antt =====
-- internal/maintain/session_gate.go: which running processes block `oca maintain --execute`.
-- `normalizeProjectRoot` reads the file system (Abs, EvalSymlinks, Clean), so it is a parameter, and
-- so is the list of processes that the reading of /proc yields.
pub mod Ancestors
mod Examples
pub mod Blocked
use opencode_advance.Prelude.{
  ℕ, zero, suc, ◌+◌, ℤ, pos, ltb_ℤ, eqb_ℤ, String, Bool, true, false, ◌&&◌, ◌||◌, not, Option, none,
  some, List, [], ◌∷◌, is_blank, is_empty, length, ◌<>◌, sprintf, int, str, str_eq, starts_with,
  if◌then◌else◌,
}
use opencode_advance.Maintain.Types.{GateReport, GateStatus, Blocker}

-- type processInfo
pub record ProcessInfo : Type 0 where
  pub pid : ℤ
  pub ppid : ℤ
  pub name : String
  pub cwd : String

-- The map `byPID`: the last process with the pid.
pub by_pid : List ProcessInfo → ℤ → Option ProcessInfo
by_pid [] pid = none
by_pid (process ∷ rest) pid = elim (by_pid rest pid) [
  | some later ↦ some later
  | none ↦ if eqb_ℤ process.pid pid then some process else none
]

-- The map `ancestors`, as the list of the pids set in it.
abbrev pub has_pid : ℤ → List ℤ → Bool
has_pid pid [] = false
has_pid pid (q ∷ qs) = eqb_ℤ pid q || has_pid pid qs

-- The loop of `callerAncestorPIDs` at `pid`. One round adds one pid.
pub walk : ℕ → List ProcessInfo → ℤ → List ℤ → List ℤ
walk zero processes pid ancestors = ancestors
walk (suc fuel) processes pid ancestors = elim (by_pid processes pid) [
  | none ↦ ancestors
  | some process ↦ elim (not (ltb_ℤ (pos 0) process.ppid) || has_pid process.ppid ancestors) [
    | true ↦ ancestors
    | false ↦ walk fuel processes process.ppid (process.ppid ∷ ancestors)
  ]
]

-- func callerAncestorPIDs
pub caller_ancestor_pids : List ProcessInfo → ℤ → List ℤ
caller_ancestor_pids processes self = walk (length processes + 2) processes self []

module _ (normalize_project_root : String → String) where
  -- func processInProject
  pub process_in_project : ProcessInfo → String → Bool
  process_in_project process project_root =
      if is_blank project_root || (str_eq project_root "." || is_blank process.cwd)
      then false
      else (let cwd = normalize_project_root process.cwd in
          str_eq cwd project_root || starts_with cwd (project_root <> "/"))

  abbrev pub caller_blocker : ProcessInfo → String → Blocker
  caller_blocker process project_root = record {
    code = "CALLER_OPENCODE_PROCESS";
    message =
        sprintf "caller OpenCode process pid %d is still running in project %s"
          (int process.pid ∷ str project_root ∷ []);
    hint =
        "run `oca maintain --execute` from an external shell after closing OpenCode sessions for this project; OpenCode sessions in other repos do not block";
  }

  abbrev pub active_blocker : ProcessInfo → String → Blocker
  active_blocker process project_root = record {
    code = "ACTIVE_OPENCODE_PROCESS";
    message =
        sprintf "opencode pid %d is still running in project %s"
          (int process.pid ∷ str project_root ∷ []);
    hint = "close OpenCode/OCA sessions for this project before running `oca maintain --execute`";
  }

  -- The loop of `buildOpenCodeProcessBlockers`, with the ancestors found.
  pub scan_processes : List ℤ → ℤ → String → List ProcessInfo → List Blocker
  scan_processes ancestors self project_root [] = []
  scan_processes ancestors self project_root (process ∷ rest) =
      let blockers = scan_processes ancestors self project_root rest in
      if eqb_ℤ process.pid self || not (str_eq process.name "opencode")
      then blockers
      else if not (process_in_project process project_root)
      then blockers
      else if has_pid process.pid ancestors
      then caller_blocker process project_root ∷ blockers
      else active_blocker process project_root ∷ blockers

  -- func buildOpenCodeProcessBlockers
  pub build_open_code_process_blockers : List ProcessInfo → ℤ → String → List Blocker
  build_open_code_process_blockers processes self project_root =
      scan_processes (caller_ancestor_pids processes self) self project_root processes

  -- func CheckSessionGate and activeOpenCodeProcessBlockers: `none` is a failed reading of /proc.
  pub check_session_gate : Option (List ProcessInfo) → ℤ → String → GateReport
  check_session_gate none self project_root = record { status = GateStatus.pass; blockers = [] }
  check_session_gate (some processes) self project_root =
      let blockers =
        build_open_code_process_blockers processes self (normalize_project_root project_root) in
      if not (is_empty blockers)
      then record { status = GateStatus.blocked; blockers = blockers }
      else record { status = GateStatus.pass; blockers = [] }
