-- ===== src/Supervisor/Operations/Examples.antt =====
-- Stop and Start on a machine whose server has pid 42.
use opencode_advance.Prelude.{
  List, String, pos, ◌≡◌, refl, Bool, true, false, Option, none, some, [], ◌∷◌,
}
use opencode_advance.Config.Sections.Types.{TemporalSection}
use opencode_advance.Supervisor.Types.{
  State, RuntimePaths, Metadata, MetaFile, Signal, Result, Act, Trace, World, Env,
}
use opencode_advance.Supervisor.Operations.{
  stop, stop_process, wait_stopped, start, wait_reachable, is_loopback_host,
}
use opencode_advance.Supervisor.Status.{evaluate_status}
use opencode_advance.Supervisor.Operations.Acts.{Extends, IsStopAct, stop-Extends}
use opencode_advance.Supervisor.Operations.Starts.{Starts, start-Starts}
use opencode_advance.Supervisor.Operations.Clears.{success-stop}
use opencode_advance.Supervisor.Operations.{cleanup_stale_metadata}
use opencode_advance.Supervisor.Operations.Stale.{Cleans, cleanup_stale_metadata-Cleans}

abbrev paths : RuntimePaths
paths = record {
  root = "/c";
  metadata = "/c/temporal.pid.json";
  log = "/c/temporal.log";
  db = "/c/temporal.db";
  status = "/c/status.json";
}

-- The process lives until it was signalled.
abbrev lives : Trace → Bool
lives [] = true
lives (a ∷ trace) = false

abbrev machine : Env
machine = record {
  paths = paths;
  alive = λ trace pid. lives trace;
  pid_alive = λ round trace pid. lives trace;
  reachable = λ round trace address. lives trace;
  healthy = λ trace. lives trace;
  detect = λ trace. Result.done (record { path = "/usr/bin/temporal"; version = "1.4" });
  start_background = λ trace path args. Result.done (record { pid = pos 43; group = pos 43 });
  signal_error = λ trace pid sig. none;
  remove_error = λ trace. none;
  write_error = λ trace meta. none;
  split_host_port = λ address. Result.done ("127.0.0.1", pos 7233);
  is_loopback_ip = λ host. true;
  show_port = λ port. "7233";
  now = pos 0;
  polls = 3;
}

abbrev metadata : Metadata
metadata = record {
  pid = pos 42;
  started_at = pos 0;
  address = "127.0.0.1:7233";
  host = "127.0.0.1";
  port = pos 7233;
  namespace = "default";
  db_path = "/c/temporal.db";
  log_path = "/c/temporal.log";
  cli_path = "/usr/bin/temporal";
  args = [];
  version = "1.4";
}

abbrev temporal : TemporalSection
temporal = record {
  enabled = none;
  address = "";
  namespace = "";
  allow_remote = none;
  node_path = "";
}

abbrev section : Option TemporalSection
section = some temporal

abbrev running : World
running = record { file = MetaFile.held metadata; trace = [] }

stop_running :
    (stop machine section running).world.trace
    ≡ Act.remove none ∷ Act.signal (pos 42) Signal.sigterm none ∷ []
unfolding stop evaluate_status stop_process wait_stopped
stop_running = refl

stop-Extends_example :
    Extends (IsStopAct running.file) running.trace (stop machine section running).world.trace
stop-Extends_example = stop-Extends machine section running

-- A machine on which the process of the metadata is dead.
abbrev restarted : Env
restarted = record machine { alive = λ trace pid. false; reachable = λ round trace address. true }

abbrev new_args : List String
new_args =
    "server" ∷ "start-dev" ∷ "--ip" ∷ "127.0.0.1" ∷ "--port" ∷ "7233" ∷ "--namespace" ∷ "default"
    ∷ "--db-filename" ∷ "/c/temporal.db" ∷ "--log-level" ∷ "warn" ∷ "--headless" ∷ []

abbrev new_metadata : Metadata
new_metadata = record metadata { pid = pos 43; args = new_args }

start_stale : (start restarted section running).world ≡ record {
  file = MetaFile.held new_metadata;
  trace =
      Act.write new_metadata none
      ∷ Act.start "/usr/bin/temporal" new_args
          (Result.done (record { pid = pos 43; group = pos 43 }))
      ∷ Act.remove none
      ∷ [];
}
unfolding start evaluate_status wait_reachable is_loopback_host
start_stale = refl

start-Starts_example : Starts restarted running (start restarted section running)
start-Starts_example = start-Starts restarted section running

stop_failure : (stop machine section running).failure ≡ none
unfolding stop evaluate_status stop_process wait_stopped
stop_failure = refl

success-stop_example :
    ((stop machine section running).world.file ≡ MetaFile.missing)
    × ((stop machine section running).status.state ≡ State.stopped)
success-stop_example = success-stop machine temporal running refl stop_failure

cleanup_stale_metadata-Cleans_example :
    Cleans restarted running (cleanup_stale_metadata restarted running)
cleanup_stale_metadata-Cleans_example = cleanup_stale_metadata-Cleans restarted running
