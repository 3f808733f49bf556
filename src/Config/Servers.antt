-- ===== src/Config/Servers.antt =====
-- internal/config/validate.go: `validateMCPServers` and `inferTransport`.
pub mod Duration
pub mod Checks
pub mod Round
pub mod Scan
pub mod Accepts
pub mod Examples
use Duration.{parse_duration}
use opencode_advance.Prelude.{
  ℤ, pos, ltb_ℤ, eqb_ℤ, String, Bool, true, false, ◌&&◌, ◌||◌, not, Option, none, some, List, [],
  ◌∷◌, ◌++◌, str_eq, is_blank, is_empty, ends_with, ◌<>◌, literal, sprintf, int, str, if◌then◌else◌,
  sort_entries,
}
use opencode_advance.Config.Types.{Server}
use opencode_advance.Config.Errors.{ValidationErrors, one_error}

-- const minPort, maxPort
abbrev pub min_port : ℤ
min_port = pos 6275

abbrev pub max_port : ℤ
max_port = pos 6325

-- var validRestartPolicies, validAvailabilityProfiles, validTypes: membership in the map.
abbrev pub valid_restart_policy : String → Bool
valid_restart_policy s =
    is_blank s || (str_eq s "always" || (str_eq s "on-failure" || str_eq s "never"))

abbrev pub valid_availability_profile : String → Bool
valid_availability_profile s = is_blank s || str_eq s "networked"

abbrev pub valid_type : String → Bool
valid_type s =
    is_blank s || (str_eq s "stdio" || (str_eq s "http" || (str_eq s "sse" || str_eq s "daemon")))

abbrev pub required_missing : String → ValidationErrors
required_missing path = one_error path (literal "required field missing")

abbrev pub out_of_range : String → ℤ → ValidationErrors
out_of_range path port =
    one_error path
      (sprintf "port %d out of range [%d, %d]" (int port ∷ int min_port ∷ int max_port ∷ []))

-- func inferTransport
pub infer_transport : Server → String
infer_transport s =
    if not (is_blank s.transport)
    then s.transport
    else if not (is_blank s.type_name) && not (str_eq s.type_name "daemon")
    then s.type_name
    else if not (is_blank s.command)
    then "stdio"
    else if not (is_blank s.url)
    then if ends_with s.url "/mcp" then "http" else "sse"
    else "stdio"

-- A Go map[int]string.
abbrev pub PortOwners : Type 0
PortOwners = List (ℤ × String)

unfoldable pub owner_of : ℤ → PortOwners → Option String
owner_of p [] = none
owner_of p ((q, name) ∷ m) = if eqb_ℤ q p then some name else owner_of p m

-- The sections of the loop body of `validateMCPServers`, one function each: port range,
pub check_port : String → Server → ValidationErrors
check_port path srv =
    if eqb_ℤ srv.port (pos 0)
    then required_missing (path <> ".port")
    else if ltb_ℤ srv.port min_port || ltb_ℤ max_port srv.port
    then out_of_range (path <> ".port") srv.port
    else []

abbrev pub owner_error : String → Server → Option String → ValidationErrors
owner_error path srv none = []
owner_error path srv (some existing) =
    one_error (path <> ".port")
      (sprintf "port %d already used by server %q" (int srv.port ∷ str existing ∷ []))

-- port uniqueness, with the map of the owners seen so far,
pub check_owner : PortOwners → String → Server → ValidationErrors
check_owner owners path srv =
    if ltb_ℤ (pos 0) srv.port then owner_error path srv (owner_of srv.port owners) else []

abbrev pub claim_free : PortOwners → String → Server → Option String → PortOwners
claim_free owners name srv none = (srv.port, name) ∷ owners
claim_free owners name srv (some existing) = owners

pub claim_port : PortOwners → String → Server → PortOwners
claim_port owners name srv =
    if ltb_ℤ (pos 0) srv.port then claim_free owners name srv (owner_of srv.port owners) else owners

-- the type,
pub check_type : String → Server → ValidationErrors
check_type path srv =
    if valid_type srv.type_name
    then []
    else one_error (path <> ".type")
        (sprintf "unknown type %q (allowed: stdio, http, sse, daemon)" (str srv.type_name ∷ []))

abbrev pub is_daemon : Server → Bool
is_daemon srv = str_eq srv.type_name "daemon"

-- the daemon's own rules,
pub check_daemon : String → String → String → Server → ValidationErrors
check_daemon daemon_server name path srv =
    (if not (is_blank daemon_server)
      then one_error (path <> ".type") (
          sprintf "only one server may have type=\"daemon\"; already declared on %q"
            (str daemon_server ∷ []))
      else [])
    ++ ((if not (str_eq name "vision")
          then one_error (path <> ".type") (literal "type=\"daemon\" must be named \"vision\"")
          else [])
        ++ (if not (is_blank srv.command) || (not (is_blank srv.url) || not (is_empty srv.args))
            then one_error path (
                literal
                  "type=\"daemon\" must not specify command, args, or url (OCA-only directive)")
            else []))

pub check_conflict : String → Server → ValidationErrors
check_conflict path srv =
    if not (is_blank srv.command) && not (is_blank srv.url)
    then one_error path (literal "cannot specify both command and url")
    else []

-- the `switch` on the transport,
pub check_transport : String → Server → String → ValidationErrors
check_transport path srv transport =
    if str_eq transport "stdio"
    then if is_blank srv.command
      then one_error (path <> ".command") (literal "required for stdio transport")
      else []
    else if str_eq transport "http"
    then if is_blank srv.url
      then one_error (path <> ".url") (literal "required for http transport")
      else if not (ends_with srv.url "/mcp")
      then one_error (path <> ".url") (literal "http transport url must end with /mcp")
      else []
    else if str_eq transport "sse"
    then if is_blank srv.url
      then one_error (path <> ".url") (literal "required for sse transport")
      else []
    else []

-- the two enumerations,
pub check_restart_policy : String → Server → ValidationErrors
check_restart_policy path srv =
    if valid_restart_policy srv.restart_policy
    then []
    else one_error (path <> ".restart_policy") (
        sprintf "unknown value %q (allowed: always, on-failure, never)"
          (str srv.restart_policy ∷ []))

pub check_availability : String → Server → ValidationErrors
check_availability path srv =
    if valid_availability_profile srv.availability_profile
    then []
    else one_error (path <> ".availability_profile")
        (sprintf "unknown value %q (allowed: networked)" (str srv.availability_profile ∷ []))

abbrev pub timeout_error : String → String → Option ℤ → ValidationErrors
timeout_error path value none =
    one_error (path <> ".request_timeout") (sprintf "invalid duration %q" (str value ∷ []))
timeout_error path value (some d) =
    if ltb_ℤ (pos 0) d
    then []
    else one_error (path <> ".request_timeout")
        (sprintf "invalid duration %q (must be > 0)" (str value ∷ []))

-- and the request timeout.
pub check_request_timeout : String → Server → ValidationErrors
check_request_timeout path srv =
    if is_blank srv.request_timeout
    then []
    else timeout_error path srv.request_timeout (parse_duration srv.request_timeout)

-- The part of the loop body that `continue` skips for the daemon.
pub check_vision_server : String → Server → ValidationErrors
check_vision_server path srv =
    check_conflict path srv
    ++ (check_transport path srv (infer_transport srv)
        ++ (check_restart_policy path srv
            ++ (check_availability path srv ++ check_request_timeout path srv)))

-- One round of the loop: the errors that it appends.
pub server_errors : PortOwners → String → String → Server → ValidationErrors
server_errors owners daemon_server name srv =
    let path = "mcp.servers." <> name in
    check_port path srv
    ++ (check_owner owners path srv
        ++ (check_type path srv
            ++ (if is_daemon srv
                then check_daemon daemon_server name path srv
                else check_vision_server path srv)))

abbrev pub next_daemon : String → String → Server → String
next_daemon daemon_server name srv =
    if is_daemon srv && is_blank daemon_server then name else daemon_server

-- The loop, from the owners and the daemon that the rounds before have found.
pub scan_servers : PortOwners → String → List (String × Server) → ValidationErrors
scan_servers owners daemon_server [] = []
scan_servers owners daemon_server ((name, srv) ∷ rest) =
    server_errors owners daemon_server name srv
    ++ scan_servers (claim_port owners name srv) (next_daemon daemon_server name srv) rest

-- func (s *Stack) validateMCPServers
pub validate_mcp_servers : List (String × Server) → ValidationErrors
validate_mcp_servers servers = scan_servers [] "" (sort_entries servers)
