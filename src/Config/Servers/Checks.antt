-- ===== src/Config/Servers/Checks.antt =====
-- What each check of `validateMCPServers` accepts, in terms of the server alone.
use opencode_advance.Prelude.{
  ℤ, pos, ◌≤ℤ◌, ◌<ℤ◌, String, ◌≡◌, ◌≢◌, ◌↔◌, ◌⊎◌, Option, none, some, [], eq_iff, ends_with, true,
  false, arith, refl, inl, inr, Bool-cases, is_blank, str_eq,
}
use opencode_advance.Config.Types.{Server}
use opencode_advance.Config.Servers.{
  min_port, max_port, check_port, check_type, check_conflict, check_transport, check_restart_policy,
  check_availability, check_request_timeout, timeout_error, check_daemon,
}
use opencode_advance.Config.Servers.Duration.{parse_duration}

-- The port lies in Vision's range.
pub record PortInRange (srv : Server) : Type 0 where
  pub low : min_port ≤ℤ srv.port
  pub high : srv.port ≤ℤ max_port

pub check_port_iff : (path : String) (srv : Server) → (check_port path srv ≡ []) ↔ PortInRange srv
unfolding check_port
check_port_iff path srv = (λ h. ground arith, λ h. ground arith)

abbrev pub KnownType : String → Type 0
KnownType t = (t ≡ "") ⊎ (t ≡ "stdio") ⊎ (t ≡ "http") ⊎ (t ≡ "sse") ⊎ (t ≡ "daemon")

pub check_type_iff :
    (path : String) (srv : Server) → (check_type path srv ≡ []) ↔ KnownType srv.type_name
unfolding check_type
check_type_iff path srv = (
  λ h. ground (
    arith,
    eq_iff srv.type_name "",
    eq_iff srv.type_name "stdio",
    eq_iff srv.type_name "http",
    eq_iff srv.type_name "sse",
    eq_iff srv.type_name "daemon",
  ),
  λ h. ground (
    arith,
    eq_iff srv.type_name "",
    eq_iff srv.type_name "stdio",
    eq_iff srv.type_name "http",
    eq_iff srv.type_name "sse",
    eq_iff srv.type_name "daemon",
  ),
)

abbrev pub KnownRestartPolicy : String → Type 0
KnownRestartPolicy s = (s ≡ "") ⊎ (s ≡ "always") ⊎ (s ≡ "on-failure") ⊎ (s ≡ "never")

pub check_restart_policy_iff :
    (path : String) (srv : Server)
    → (check_restart_policy path srv ≡ []) ↔ KnownRestartPolicy srv.restart_policy
unfolding check_restart_policy
check_restart_policy_iff path srv = (
  λ h. ground (
    arith,
    eq_iff srv.restart_policy "",
    eq_iff srv.restart_policy "always",
    eq_iff srv.restart_policy "on-failure",
    eq_iff srv.restart_policy "never",
  ),
  λ h. ground (
    arith,
    eq_iff srv.restart_policy "",
    eq_iff srv.restart_policy "always",
    eq_iff srv.restart_policy "on-failure",
    eq_iff srv.restart_policy "never",
  ),
)

abbrev pub KnownAvailability : String → Type 0
KnownAvailability s = (s ≡ "") ⊎ (s ≡ "networked")

pub check_availability_iff :
    (path : String) (srv : Server)
    → (check_availability path srv ≡ []) ↔ KnownAvailability srv.availability_profile
unfolding check_availability
check_availability_iff path srv = (
  λ h.
      ground
        (arith, eq_iff srv.availability_profile "", eq_iff srv.availability_profile "networked"),
  λ h.
      ground
        (arith, eq_iff srv.availability_profile "", eq_iff srv.availability_profile "networked"),
)

-- A command or a url, and not both; the one that the transport needs.
pub record TransportFits (srv : Server) (transport : String) : Type 0 where
  pub stdio : transport ≡ "stdio" → srv.command ≢ ""
  pub http : transport ≡ "http" → (srv.url ≢ "") × (ends_with srv.url "/mcp" ≡ true)
  pub sse : transport ≡ "sse" → srv.url ≢ ""

pub check_conflict_iff :
    (path : String) (srv : Server)
    → (check_conflict path srv ≡ []) ↔ ((srv.command ≡ "") ⊎ (srv.url ≡ ""))
unfolding check_conflict
check_conflict_iff path srv = (
  λ h. ground (arith, eq_iff srv.command "", eq_iff srv.url ""),
  λ h. ground (arith, eq_iff srv.command "", eq_iff srv.url ""),
)

check_transport_other :
    (path : String) (srv : Server) (t : String)
    → str_eq t "stdio" ≡ false
    → str_eq t "http" ≡ false
    → (check_transport path srv t ≡ []) ↔ TransportFits srv t
unfolding check_transport
check_transport_other path srv t n m = (
  λ h. ground (arith, eq_iff t "stdio", eq_iff t "http", eq_iff t "sse", eq_iff srv.url ""),
  λ h. ground (arith, h.sse, eq_iff t "sse", eq_iff srv.url ""),
)

pub check_transport_iff :
    (path : String) (srv : Server) (t : String)
    → (check_transport path srv t ≡ []) ↔ TransportFits srv t
unfolding check_transport
check_transport_iff path srv t = elim (Bool-cases (str_eq t "stdio")) [
  | inl p ↦ rw ((eq_iff t "stdio").0 p) (
    (λ h. ground (arith, eq_iff srv.command "", eq_iff "stdio" "http", eq_iff "stdio" "sse")),
    λ h. ground (arith, h.stdio, eq_iff srv.command ""),
  )
  | inr n ↦ elim (Bool-cases (str_eq t "http")) [
    | inl p ↦ rw ((eq_iff t "http").0 p) (
      (λ h. ground (arith, eq_iff srv.url "", eq_iff "http" "stdio", eq_iff "http" "sse")),
      λ h. ground (arith, h.http, eq_iff srv.url ""),
    )
    | inr m ↦ check_transport_other path srv t n m
  ]
]

abbrev pub TimeoutFits : String → Type 0
TimeoutFits s = (s ≡ "") ⊎ ((d : ℤ) × (parse_duration s ≡ some d) × (pos 0 <ℤ d))

timeout_error_iff :
    (path s : String) (o : Option ℤ)
    → (timeout_error path s o ≡ []) ↔ ((d : ℤ) × (o ≡ some d) × (pos 0 <ℤ d))
timeout_error_iff path s none = (λ h. cc, λ h. cc (h.1))
timeout_error_iff path s (some d) = (λ h. (d, refl, ground arith), λ h. ground (arith, h.1, h.2))

pub check_request_timeout_iff :
    (path : String) (srv : Server)
    → (check_request_timeout path srv ≡ []) ↔ TimeoutFits srv.request_timeout
unfolding check_request_timeout
check_request_timeout_iff path srv = elim (Bool-cases (is_blank srv.request_timeout)) [
  | inl p ↦ rw p (λ h. inl ((eq_iff _ _).0 p), λ h. refl)
  | inr n ↦ rw n (
    λ h. inr ((timeout_error_iff path _ _).0 h),
    λ h. elim h [
      | inl e ↦ cc (n, (eq_iff srv.request_timeout "").1 e)
      | inr q ↦ (timeout_error_iff path srv.request_timeout _).1 q
    ],
  )
]

-- The daemon's rules: it is named vision and has no command, url or arguments.
pub record DaemonFits (name : String) (srv : Server) : Type 0 where
  pub named : name ≡ "vision"
  pub no_command : srv.command ≡ ""
  pub no_url : srv.url ≡ ""
  pub no_args : srv.args ≡ []

pub check_daemon_iff :
    (daemon_server name path : String) (srv : Server)
    → (check_daemon daemon_server name path srv ≡ []) ↔ ((daemon_server ≡ "") × DaemonFits name srv)
unfolding check_daemon
check_daemon_iff daemon_server name path srv = (
  λ h. ground (
    arith,
    eq_iff daemon_server "",
    eq_iff name "vision",
    eq_iff srv.command "",
    eq_iff srv.url "",
  ),
  λ h. ground (
    arith,
    eq_iff daemon_server "",
    eq_iff name "vision",
    eq_iff srv.command "",
    eq_iff srv.url "",
  ),
)
