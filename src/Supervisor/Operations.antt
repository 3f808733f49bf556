-- ===== src/Supervisor/Operations.antt =====
-- internal/temporal/supervise.go: `Start`, `Stop`, `Restart` and `CleanupStaleMetadata`.

pub mod Acts
pub mod Dead
pub mod Starts
pub mod Clears
pub mod Stale
mod Examples
use Prim.Native.String.{len}
use opencode_advance.Prelude.{
  ℕ, zero, suc, ◌+◌, ◌-◌, ℤ, pos, String, Bool, true, false, ◌&&◌, not, Option, none, some, List,
  [], ◌∷◌, ◌<>◌, str_eq, starts_with, ends_with, take_bytes, drop_bytes, if◌then◌else◌,
}
use opencode_advance.Config.Sections.Types.{TemporalSection}
use opencode_advance.Supervisor.Types.{
  State, Metadata, Status, MetaFile, Signal, Process, DetectResult, Result, Act, Trace, World, Env,
}
use opencode_advance.Supervisor.Status.{evaluate_status, no_status}

-- What an operation returns, and the world that it leaves.
pub record Outcome : Type 0 where
  pub failure : Option String
  pub status : Status
  pub world : World

-- The error, with the status in the state `error`.
abbrev pub failed_in : Status → World → String → Outcome
failed_in s w e = record { failure = some e; status = record s { state = State.error }; world = w }

abbrev pub returned : Status → World → Outcome
returned s w = record { failure = none; status = s; world = w }

abbrev pub did : Act → World → World
did act w = record w { trace = act ∷ w.trace }

module _ (env : Env) where
  -- func RemoveMetadata; a file that is not there is no error.
  abbrev pub remove_metadata : {A : Type 0} → World → (String → World → A) → (World → A) → A
  remove_metadata w on_error next = elim (env.remove_error w.trace) [
    | some e ↦ on_error e (did (Act.remove (some e)) w)
    | none ↦ next (record { file = MetaFile.missing; trace = Act.remove none ∷ w.trace })
  ]

  -- func waitStopped: the rounds that the clock allows.
  pub wait_stopped : ℕ → ℕ → Trace → ℤ → Bool
  wait_stopped zero round trace pid = not (env.pid_alive round trace pid)
  wait_stopped (suc left) round trace pid =
      let later = wait_stopped left (suc round) trace pid in
      if not (env.pid_alive round trace pid) then true else later

  -- func waitReachable
  pub wait_reachable : ℕ → ℕ → Trace → String → Bool
  wait_reachable zero round trace address = env.reachable round trace address
  wait_reachable (suc left) round trace address =
      let later = wait_reachable left (suc round) trace address in
      if env.reachable round trace address then true else later

  abbrev pub send : ℤ → Signal → Status → World → (World → Outcome) → Outcome
  send pid sig s w next = elim (env.signal_error w.trace pid sig) [
    | some e ↦ failed_in s (did (Act.signal pid sig (some e)) w) e
    | none ↦ next (did (Act.signal pid sig none) w)
  ]

  abbrev pub forget : Status → World → Status → Outcome
  forget s w after = remove_metadata w (λ e v. failed_in s v e) (λ v. returned after v)

  abbrev pub stopped_status : Status → Status
  stopped_status s = record s { managed = false; running = false; state = State.stopped }

  abbrev pub gone_status : Status → Status
  gone_status s = record (stopped_status s) { pid = pos 0 }

  -- After SIGKILL, whether or not the process goes.
  abbrev pub after_kill : Status → World → Outcome
  after_kill s w = forget s w (gone_status s)

  -- After SIGTERM.
  abbrev pub after_term : Metadata → Status → World → Outcome
  after_term meta s w =
      if wait_stopped env.polls 0 w.trace meta.pid
      then forget s w (gone_status s)
      else send meta.pid Signal.sigkill s w (after_kill s)

  -- Stop, with the metadata.
  pub stop_process : Metadata → Status → World → Outcome
  stop_process meta s w =
      if not (env.pid_alive 0 w.trace meta.pid)
      then forget s w (stopped_status s)
      else send meta.pid Signal.sigterm s w (after_term meta s)

  abbrev pub stop_file : Status → World → MetaFile → Outcome
  stop_file s w (MetaFile.unreadable e) = failed_in s w e
  stop_file s w MetaFile.missing = returned (record s { state = State.stopped }) w
  stop_file s w (MetaFile.held meta) = stop_process meta s w

  abbrev pub stop_from : World → Option String × Status → Outcome
  stop_from w (some e, s) = record { failure = some e; status = s; world = w }
  stop_from w (none, s) =
      if not s.enabled
      then returned s w
      else if s.reachable && not s.managed
      then record {
        failure = some "temporal server reachable but not OCA-managed";
        status = s;
        world = w;
      }
      else stop_file s w w.file

  -- func (s Supervisor) Stop
  pub stop : Option TemporalSection → World → Outcome
  stop section w = stop_from w (evaluate_status env section w)

  abbrev pub trim_brackets : String → String
  trim_brackets host =
      let inner = if ends_with host "]" then take_bytes (len host - 1) host else host in
      if starts_with inner "[" then drop_bytes 1 inner else inner

  -- func isLoopbackHost
  pub is_loopback_host : String → Bool
  is_loopback_host host =
      let inner = trim_brackets host in
      if str_eq inner "localhost" then true else env.is_loopback_ip inner

  abbrev pub server_args : Status → String → ℤ → List String
  server_args s host port =
      "server"
      ∷ "start-dev"
      ∷ "--ip"
      ∷ host
      ∷ "--port"
      ∷ env.show_port port
      ∷ "--namespace"
      ∷ s.namespace
      ∷ "--db-filename"
      ∷ env.paths.db
      ∷ "--log-level"
      ∷ "warn"
      ∷ "--headless"
      ∷ []

  abbrev pub metadata_of : Status → String → ℤ → DetectResult → Process → Metadata
  metadata_of s host port cli proc = record {
    pid = proc.pid;
    started_at = env.now;
    address = s.address;
    host = host;
    port = port;
    namespace = s.namespace;
    db_path = env.paths.db;
    log_path = env.paths.log;
    cli_path = cli.path;
    args = server_args s host port;
    version = cli.version;
  }

  -- func WriteMetadata and the final status.
  abbrev pub record_process : Option TemporalSection → Status → Metadata → World → Outcome
  record_process section s meta w = elim (env.write_error w.trace meta) [
    | some e ↦ failed_in s (did (Act.write meta (some e)) w) e
    | none ↦
        let v : World = record {
          file = MetaFile.held meta;
          trace = Act.write meta none ∷ w.trace;
        } in
        let final = evaluate_status env section v in
        record { failure = final.0; status = final.1; world = v }
  ]

  -- The process that was started, or the error.
  abbrev pub after_start :
      Option TemporalSection → Status → String → ℤ → DetectResult → World → Result Process → Outcome
  after_start section s host port cli w (Result.fail e) =
      failed_in s (did (Act.start cli.path (server_args s host port) (Result.fail e)) w) e
  after_start section s host port cli w (Result.done proc) =
      let v = did (Act.start cli.path (server_args s host port) (Result.done proc)) w in
      if not (wait_reachable env.polls 1 v.trace s.address)
      then failed_in s (did (Act.kill_group proc.group) v)
          ("temporal dev server not reachable at " <> s.address)
      else record_process section s (metadata_of s host port cli proc) v

  abbrev pub launch :
      Option TemporalSection → Status → String → ℤ → World → Result DetectResult → Outcome
  launch section s host port w (Result.fail e) = failed_in s w e
  launch section s host port w (Result.done cli) =
      after_start section s host port cli w
        (env.start_background w.trace cli.path (server_args s host port))

  -- From the parsed address on.
  abbrev pub start_at : Option TemporalSection → Status → World → Result (String × ℤ) → Outcome
  start_at section s w (Result.fail e) = failed_in s w e
  start_at section s w (Result.done (host, port)) =
      if not (is_loopback_host host)
      then failed_in s w "refusing to start Temporal dev server on non-loopback address"
      else launch section s host port w (env.detect w.trace)

  abbrev pub is_stale : State → Bool
  is_stale State.stale = true
  is_stale st = false

  abbrev pub start_from : Option TemporalSection → World → Option String × Status → Outcome
  start_from section w (some e, s) = record { failure = some e; status = s; world = w }
  start_from section w (none, s) =
      if not s.enabled
      then returned s w
      else if s.managed && s.running
      then returned s w
      else if is_stale s.state
      then remove_metadata w (λ e v. record { failure = some e; status = s; world = v })
          (λ v. start_at section s v (env.split_host_port s.address))
      else if s.reachable && not s.managed
      then record {
        failure = some "temporal server reachable but not OCA-managed";
        status = s;
        world = w;
      }
      else start_at section s w (env.split_host_port s.address)

  -- func (s Supervisor) Start
  pub start : Option TemporalSection → World → Outcome
  start section w = start_from section w (evaluate_status env section w)

  abbrev pub restart_from : Option TemporalSection → Outcome → Outcome
  restart_from section o = elim o.failure [
    | some e ↦ record {
      failure = some e;
      status = record (no_status env) { state = State.unset; log_path = ""; db_path = "" };
      world = o.world;
    }
    | none ↦ start section o.world
  ]

  -- func (s Supervisor) Restart
  pub restart : Option TemporalSection → World → Outcome
  restart section w = restart_from section (stop section w)

  -- CleanupStaleMetadata, with what the file holds: whether it was stale, the error and the world.
  abbrev pub cleanup_file : World → MetaFile → Bool × Option String × World
  cleanup_file w (MetaFile.unreadable e) = (false, some e, w)
  cleanup_file w MetaFile.missing = (false, none, w)
  cleanup_file w (MetaFile.held meta) =
      if env.alive w.trace meta.pid
      then (false, none, w)
      else remove_metadata w (λ e v. (true, some e, v)) (λ v. (true, none, v))

  -- func CleanupStaleMetadata
  pub cleanup_stale_metadata : World → Bool × Option String × World
  cleanup_stale_metadata w = cleanup_file w w.file
