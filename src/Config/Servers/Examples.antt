-- ===== src/Config/Servers/Examples.antt =====
-- Tests of `validateMCPServers`, and its theorem at a concrete stack.
use opencode_advance.Prelude.{
  pos, String, ◌≡◌, List, [], ◌∷◌, refl, HasDistinctKeys, sort_entries, length,
}
use opencode_advance.Config.Types.{Server, no_server}
use opencode_advance.Config.Servers.{
  validate_mcp_servers, owner_of, infer_transport, check_port, check_owner, claim_port, check_type,
  check_daemon, check_conflict, check_transport, check_restart_policy, check_availability,
  check_request_timeout, check_vision_server, server_errors, scan_servers,
}
use opencode_advance.Config.Servers.Duration.{parse_duration}

abbrev two_servers : List (String × Server)
two_servers =
    ("vision", record no_server { port = pos 6275; type_name = "daemon" })
    ∷ ("kagi", record no_server { port = pos 6280; command = "npx"; request_timeout = "30s" })
    ∷ []

two_servers-accepted : validate_mcp_servers two_servers ≡ []
unfolding validate_mcp_servers owner_of infer_transport check_port check_owner claim_port check_type
    check_daemon check_conflict check_transport check_restart_policy check_availability
    check_request_timeout check_vision_server server_errors scan_servers parse_duration sort_entries
two_servers-accepted = refl

abbrev pub declared : List (String × Server)
declared = ("kagi", record no_server { port = pos 6280; command = "npx" }) ∷ []

pub declared-HasDistinctKeys : HasDistinctKeys declared
declared-HasDistinctKeys = (tt, tt)

pub declared-accepted : validate_mcp_servers declared ≡ []
unfolding validate_mcp_servers owner_of infer_transport check_port check_owner claim_port check_type
    check_daemon check_conflict check_transport check_restart_policy check_availability
    check_request_timeout check_vision_server server_errors scan_servers parse_duration sort_entries
declared-accepted = refl

abbrev clash : List (String × Server)
clash =
    ("b", record no_server { port = pos 6280; command = "npx" })
    ∷ ("a", record no_server { port = pos 6280; url = "http://x/y"; transport = "http" })
    ∷ []

-- A url with the wrong ending, and a port used twice.
clash-rejected : length (validate_mcp_servers clash) ≡ 2
unfolding validate_mcp_servers owner_of infer_transport check_port check_owner claim_port check_type
    check_daemon check_conflict check_transport check_restart_policy check_availability
    check_request_timeout check_vision_server server_errors scan_servers parse_duration sort_entries
clash-rejected = refl
