-- ===== src/Config/Types.antt =====
-- internal/config/types.go: the sections of stack.toml that validation reads. A pointer is an
-- `Option`, a Go map a list of entries, and `nil` slices are told from empty ones by `Option`
-- where the code does.
use opencode_advance.Prelude.{ℤ, pos, String, Bool, false, Option, none, List, []}

-- type RetryConfig
pub record RetryConfig : Type 0 where
  pub max_attempts : ℤ
  pub initial_delay : String
  pub max_delay : String
  pub retryable_errors : List String

-- type CircuitBreaker
pub record CircuitBreaker : Type 0 where
  pub failure_threshold : ℤ
  pub recovery_timeout : String

-- type Server; the field `Type` is `type_name`.
pub record Server : Type 0 where
  pub port : ℤ
  pub type_name : String
  pub transport : String
  pub command : String
  pub args : List String
  pub env : List (String × String)
  pub url : String
  pub headers : List (String × String)
  pub autostart : Bool
  pub restart_policy : String
  pub max_restarts : ℤ
  pub stateful : Bool
  pub availability_profile : String
  pub session_timeout : String
  pub max_sessions : ℤ
  pub session_ttl : String
  pub health_check_interval : String
  pub request_timeout : String
  pub timeout : ℤ
  pub retry : Option RetryConfig
  pub circuit_breaker : Option CircuitBreaker
  pub shared_read_only_tools : List String
  pub shared_result_cache_ttl : String
  pub shared_result_cache_size : ℤ
  pub max_in_flight_requests : ℤ
  pub required : Bool
  pub origin : String
  pub description : String
  pub enabled : Option Bool
  pub env_file : String

-- The zero value of `Server`.
abbrev pub no_server : Server
no_server = record {
  port = pos 0;
  type_name = "";
  transport = "";
  command = "";
  args = [];
  env = [];
  url = "";
  headers = [];
  autostart = false;
  restart_policy = "";
  max_restarts = pos 0;
  stateful = false;
  availability_profile = "";
  session_timeout = "";
  max_sessions = pos 0;
  session_ttl = "";
  health_check_interval = "";
  request_timeout = "";
  timeout = pos 0;
  retry = none;
  circuit_breaker = none;
  shared_read_only_tools = [];
  shared_result_cache_ttl = "";
  shared_result_cache_size = pos 0;
  max_in_flight_requests = pos 0;
  required = false;
  origin = "";
  description = "";
  enabled = none;
  env_file = "";
}

-- type SlotGroup
pub record SlotGroup : Type 0 where
  pub template : String
  pub base_port : ℤ
  pub count : ℤ
  pub group_port : ℤ
  pub defaults : Option Server
