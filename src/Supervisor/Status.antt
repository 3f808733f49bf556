-- ===== src/Supervisor/Status.antt =====
-- internal/temporal/supervise.go: `EvaluateStatus`.

use opencode_advance.Prelude.{
  pos, String, Bool, true, false, ◌&&◌, not, Option, none, some, is_blank, if◌then◌else◌,
}
use opencode_advance.Config.Sections.Types.{TemporalSection, enabled_or_absent}
use opencode_advance.Supervisor.Types.{State, Metadata, Status, MetaFile, World, Env, Trace}

-- func defaultAddress, defaultNamespace
abbrev pub default_address : String → String
default_address address = if is_blank address then "127.0.0.1:7233" else address

abbrev pub default_namespace : String → String
default_namespace namespace = if is_blank namespace then "default" else namespace

module _ (env : Env) where
  abbrev pub no_status : Status
  no_status = record {
    configured = false;
    enabled = false;
    address = "";
    namespace = "";
    pid = pos 0;
    managed = false;
    running = false;
    reachable = false;
    healthy = false;
    state = State.disabled;
    log_path = env.paths.log;
    db_path = env.paths.db;
  }

  abbrev pub configured_status : TemporalSection → Status
  configured_status t = record no_status {
    configured = true;
    enabled = enabled_or_absent t.enabled;
    address = default_address t.address;
    namespace = default_namespace t.namespace;
  }

  -- The `switch` at the end.
  abbrev pub state_of : Status → State
  state_of s =
      if s.managed && (s.running && s.healthy)
      then State.running
      else if s.managed && s.running
      then State.unhealthy
      else if s.reachable
      then State.unmanaged
      else State.stopped

  abbrev pub with_state : Status → Status
  with_state s = record s { state = state_of s }

  -- The probes, and the state that they give.
  abbrev pub probe : Trace → Status → Status
  probe trace s =
      with_state
        (record s { reachable = env.reachable 0 trace s.address; healthy = env.healthy trace })

  abbrev pub managed_status : Metadata → Bool → Status → Status
  managed_status meta alive s = record s {
    pid = meta.pid;
    log_path = meta.log_path;
    db_path = meta.db_path;
    managed = true;
    running = alive;
  }

  -- From the metadata on.
  abbrev pub evaluate_file : Trace → Status → MetaFile → Option String × Status
  evaluate_file trace s (MetaFile.unreadable e) = (some e, record s { state = State.error })
  evaluate_file trace s MetaFile.missing = (none, probe trace s)
  evaluate_file trace s (MetaFile.held meta) =
      let alive = env.alive trace meta.pid in
      if not alive
      then (none, record (managed_status meta alive s) { state = State.stale })
      else (none, probe trace (managed_status meta alive s))

  -- func EvaluateStatus: the error and the status. `none` is a stack without the section.
  unfoldable pub evaluate_status : Option TemporalSection → World → Option String × Status
  evaluate_status none world = (none, no_status)
  evaluate_status (some t) world =
      if not (enabled_or_absent t.enabled)
      then (none, configured_status t)
      else evaluate_file world.trace (configured_status t) world.file
