-- ===== src/Maintain/SessionGate/Examples.antt =====
-- The session gate at concrete processes.
use opencode_advance.Prelude.{pos, String, ◌≡◌, ◌↔◌, true, List, [], ◌∷◌, refl, Memᴰ, map}
use opencode_advance.Maintain.Types.{Blocker}
use opencode_advance.Maintain.SessionGate.{
  ProcessInfo, has_pid, by_pid, walk, caller_ancestor_pids, process_in_project, scan_processes,
  build_open_code_process_blockers,
}
use opencode_advance.Maintain.SessionGate.Ancestors.{IsAncestor, caller_ancestor_pids_iff}
use opencode_advance.Maintain.SessionGate.Blocked.{Blocks, caller_blocker_iff}

abbrev same_path : String → String
same_path path = path

-- The caller 30 runs under the opencode process 20; 40 is another one, in a worktree below the
-- project; 50 is in a project whose name starts alike.
abbrev processes : List ProcessInfo
processes =
    record { pid = pos 1; ppid = pos 0; name = "init"; cwd = "/" }
    ∷ record { pid = pos 20; ppid = pos 1; name = "opencode"; cwd = "/p" }
    ∷ record { pid = pos 30; ppid = pos 20; name = "oca"; cwd = "/p" }
    ∷ record { pid = pos 40; ppid = pos 1; name = "opencode"; cwd = "/p/tree" }
    ∷ record { pid = pos 50; ppid = pos 1; name = "opencode"; cwd = "/p2" }
    ∷ []

ancestors_run : caller_ancestor_pids processes (pos 30) ≡ pos 1 ∷ pos 20 ∷ []
unfolding caller_ancestor_pids walk by_pid
ancestors_run = refl

blockers_run :
    map
      (λ (b : Blocker). b.code)
      (build_open_code_process_blockers same_path processes (pos 30) "/p")
    ≡ "CALLER_OPENCODE_PROCESS" ∷ "ACTIVE_OPENCODE_PROCESS" ∷ []
unfolding build_open_code_process_blockers scan_processes process_in_project caller_ancestor_pids
    walk by_pid
blockers_run = refl

-- A cycle of parents ends the walk.
cycle_run :
    caller_ancestor_pids
      (record { pid = pos 2; ppid = pos 3; name = ""; cwd = "" }
        ∷ record { pid = pos 3; ppid = pos 2; name = ""; cwd = "" }
        ∷ [])
      (pos 2)
    ≡ pos 2 ∷ pos 3 ∷ []
unfolding caller_ancestor_pids walk by_pid
cycle_run = refl

caller_ancestor_pids_iff_example :
    (has_pid (pos 1) (caller_ancestor_pids processes (pos 30)) ≡ true)
    ↔ IsAncestor processes (pos 30) (pos 1)
caller_ancestor_pids_iff_example = caller_ancestor_pids_iff processes (pos 30) (pos 1)

caller_blocker_iff_example :
    ((b : Blocker) × Memᴰ b (build_open_code_process_blockers same_path processes (pos 30) "/p")
      × (b.code ≡ "CALLER_OPENCODE_PROCESS"))
    ↔ ((p : ProcessInfo) × Memᴰ p processes
        × Blocks same_path (pos 30) "/p" p
        × IsAncestor processes (pos 30) p.pid)
caller_blocker_iff_example = caller_blocker_iff same_path (pos 30) processes "/p"
