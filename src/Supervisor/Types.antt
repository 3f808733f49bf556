-- ===== src/Supervisor/Types.antt =====
-- internal/temporal/supervise.go: the data of the supervisor.
use opencode_advance.Prelude.{ℕ, ℤ, String, Bool, Option, List}
pub use opencode_advance.Prelude.{Result}

-- type State; `unset` is its zero value, the empty text.
pub data State : Type 0 where
  unset : State
  disabled : State
  stopped : State
  starting : State
  running : State
  unhealthy : State
  unmanaged : State
  stale : State
  error : State

-- type RuntimePaths
pub record RuntimePaths : Type 0 where
  pub root : String
  pub metadata : String
  pub log : String
  pub db : String
  pub status : String

-- type Metadata
pub record Metadata : Type 0 where
  pub pid : ℤ
  pub started_at : ℤ
  pub address : String
  pub host : String
  pub port : ℤ
  pub namespace : String
  pub db_path : String
  pub log_path : String
  pub cli_path : String
  pub args : List String
  pub version : String

-- type Status
pub record Status : Type 0 where
  pub configured : Bool
  pub enabled : Bool
  pub address : String
  pub namespace : String
  pub pid : ℤ
  pub managed : Bool
  pub running : Bool
  pub reachable : Bool
  pub healthy : Bool
  pub state : State
  pub log_path : String
  pub db_path : String

-- What the metadata file holds, as ReadMetadata finds it.
pub data MetaFile : Type 0 where
  missing : MetaFile
  unreadable : String → MetaFile
  held : Metadata → MetaFile

pub data Signal : Type 0 where
  sigterm : Signal
  sigkill : Signal

-- type BackgroundProcess of internal/subprocess/start.go, and type DetectResult
pub record Process : Type 0 where
  pub pid : ℤ
  pub group : ℤ

pub record DetectResult : Type 0 where
  pub path : String
  pub version : String

-- What the supervisor does to the world.
pub data Act : Type 0 where
  start : String → List String → Result Process → Act
  signal : ℤ → Signal → Option String → Act
  kill_group : ℤ → Act
  remove : Option String → Act
  write : Metadata → Option String → Act

-- The latest act first.
abbrev pub Trace : Type 0
Trace = List Act

-- The metadata file, and the acts so far.
pub record World : Type 0 where
  pub file : MetaFile
  pub trace : Trace

-- The machine, and the functions in the fields of `Supervisor`. `alive` is the function pidAlive,
-- `pid_alive` the field that Stop asks; they are the same unless the field is set. `polls` is the
-- number of rounds that the clock allows a waiting loop.
pub record Env : Type 0 where
  pub paths : RuntimePaths
  pub alive : Trace → ℤ → Bool
  pub pid_alive : ℕ → Trace → ℤ → Bool
  pub reachable : ℕ → Trace → String → Bool
  pub healthy : Trace → Bool
  pub detect : Trace → Result DetectResult
  pub start_background : Trace → String → List String → Result Process
  pub signal_error : Trace → ℤ → Signal → Option String
  pub remove_error : Trace → Option String
  pub write_error : Trace → Metadata → Option String
  pub split_host_port : String → Result (String × ℤ)
  pub is_loopback_ip : String → Bool
  pub show_port : ℤ → String
  pub now : ℤ
  pub polls : ℕ
