-- ===== src/Config/Servers/Round.antt =====
-- One round of the loop of `validateMCPServers`: when it appends no error.
use opencode_advance.Prelude.{
  if◌then◌else◌, pos, ◌<ℤ◌, String, ◌≡◌, ◌≢◌, ◌↔◌, ◌⊎◌, none, [], eq_iff, arith, Bool-cases, inl,
  inr, append-eq-nil_iff, eqb_ℤ_iff, ◌<>◌,
}
use opencode_advance.Config.Types.{Server}
use opencode_advance.Config.Servers.{
  PortOwners, owner_of, infer_transport, check_owner, claim_port, server_errors, is_daemon,
  check_vision_server, check_daemon,
}
use opencode_advance.Config.Servers.Checks.{
  PortInRange, KnownType, KnownRestartPolicy, KnownAvailability, TransportFits, TimeoutFits,
  DaemonFits, check_port_iff, check_type_iff, check_restart_policy_iff, check_availability_iff,
  check_conflict_iff, check_transport_iff, check_request_timeout_iff, check_daemon_iff,
}

-- A server that is not the daemon.
pub record VisionServerFits (srv : Server) : Type 0 where
  pub one_endpoint : (srv.command ≡ "") ⊎ (srv.url ≡ "")
  pub transport : TransportFits srv (infer_transport srv)
  pub restart : KnownRestartPolicy srv.restart_policy
  pub availability : KnownAvailability srv.availability_profile
  pub timeout : TimeoutFits srv.request_timeout

pub check_vision_server_iff :
    (path : String) (srv : Server) → (check_vision_server path srv ≡ []) ↔ VisionServerFits srv
unfolding check_vision_server
check_vision_server_iff path srv = (
  λ h.
      let (a, h1) = (append-eq-nil_iff _ _).0 h in
      let (b, h2) = (append-eq-nil_iff _ _).0 h1 in
      let (c, h3) = (append-eq-nil_iff _ _).0 h2 in
      let (d, e) = (append-eq-nil_iff _ _).0 h3 in
      record {
        one_endpoint = (check_conflict_iff path srv).0 a;
        transport = (check_transport_iff path srv _).0 b;
        restart = (check_restart_policy_iff path srv).0 c;
        availability = (check_availability_iff path srv).0 d;
        timeout = (check_request_timeout_iff path srv).0 e;
      },
  λ v. (append-eq-nil_iff _ _).1 (
    (check_conflict_iff path srv).1 v.one_endpoint,
    (append-eq-nil_iff _ _).1 (
      (check_transport_iff path srv _).1 v.transport,
      (append-eq-nil_iff _ _).1 (
        (check_restart_policy_iff path srv).1 v.restart,
        (append-eq-nil_iff _ _).1 (
          (check_availability_iff path srv).1 v.availability,
          (check_request_timeout_iff path srv).1 v.timeout,
        ),
      ),
    ),
  ),
)

-- What validation asks of one server.
pub record IsValidServer (name : String) (srv : Server) : Type 0 where
  pub port : PortInRange srv
  pub type_known : KnownType srv.type_name
  pub daemon : srv.type_name ≡ "daemon" → DaemonFits name srv
  pub vision : srv.type_name ≢ "daemon" → VisionServerFits srv

-- No owner is recorded for the port.
abbrev pub IsFree : PortOwners → Server → Type 0
IsFree owners srv = owner_of srv.port owners ≡ none

module _ (owners : PortOwners) (srv : Server) (positive : pos 0 <ℤ srv.port) where
  check_owner_iff : (path : String) → (check_owner owners path srv ≡ []) ↔ IsFree owners srv
  unfolding check_owner
  check_owner_iff path = (λ h. ground arith, λ h. ground arith)

  -- After the claim a port is free if it was free and is another port.
  pub claim_port_iff :
      (name : String) (other : Server)
      → IsFree owners srv
      → IsFree (claim_port owners name srv) other ↔ (IsFree owners other × (srv.port ≢ other.port))
  unfolding claim_port owner_of
  claim_port_iff name other free = (
    λ h. (
      ground (arith, eqb_ℤ_iff srv.port other.port),
      λ e. ground (arith, eqb_ℤ_iff srv.port other.port),
    ),
    λ h. ground (arith, h.1, eqb_ℤ_iff srv.port other.port),
  )

pub in_range_positive : (srv : Server) → PortInRange srv → pos 0 <ℤ srv.port
in_range_positive srv h = omega arith

-- The two branches of the loop body.
branch_iff :
    (daemon_server name path : String) (srv : Server)
    → ((if is_daemon srv
          then check_daemon daemon_server name path srv
          else check_vision_server path srv)
        ≡ [])
      ↔ ((srv.type_name ≡ "daemon" → DaemonFits name srv)
          × (srv.type_name ≢ "daemon" → VisionServerFits srv)
          × (srv.type_name ≡ "daemon" → daemon_server ≡ ""))
branch_iff daemon_server name path srv = elim (Bool-cases (is_daemon srv)) [
  | inl p ↦ rw p (
    λ h.
        let (a, b) = (check_daemon_iff daemon_server name path srv).0 h in
        (λ _. b, λ n. absurd (n ((eq_iff _ _).0 p)), λ _. a),
    λ (f, _, g).
        (check_daemon_iff daemon_server name path srv).1
          (g ((eq_iff _ _).0 p), f ((eq_iff _ _).0 p)),
  )
  | inr n ↦ rw n (
    λ h. (
      λ e. cc (n, (eq_iff srv.type_name "daemon").1 e),
      λ _. (check_vision_server_iff path srv).0 h,
      λ e. cc (n, (eq_iff srv.type_name "daemon").1 e),
    ),
    λ (_, v, _).
        (check_vision_server_iff path srv).1 (v (λ e. cc (n, (eq_iff srv.type_name "daemon").1 e))),
  )
]

pub server_errors_iff :
    (owners : PortOwners) (daemon_server name : String) (srv : Server)
    → (server_errors owners daemon_server name srv ≡ []) ↔ (
        IsValidServer name srv
        × IsFree owners srv
        × (srv.type_name ≡ "daemon" → daemon_server ≡ ""))
unfolding server_errors
server_errors_iff owners daemon_server name srv =
    let path = "mcp.servers." <> name in
    (
      λ h.
          let (a, h1) = (append-eq-nil_iff _ _).0 h in
          let (b, h2) = (append-eq-nil_iff _ _).0 h1 in
          let (c, h3) = (append-eq-nil_iff _ _).0 h2 in
          let (d, v, first) = (branch_iff daemon_server name path srv).0 h3 in
          let in_range = (check_port_iff path srv).0 a in
          (
            record {
              port = in_range;
              type_known = (check_type_iff path srv).0 c;
              daemon = d;
              vision = v;
            },
            (check_owner_iff owners srv (in_range_positive srv in_range) path).0 b,
            first,
          ),
      λ (valid, free, first). (append-eq-nil_iff _ _).1 (
        (check_port_iff path srv).1 valid.port,
        (append-eq-nil_iff _ _).1 (
          (check_owner_iff owners srv (in_range_positive srv valid.port) path).1 free,
          (append-eq-nil_iff _ _).1 (
            (check_type_iff path srv).1 valid.type_known,
            (branch_iff daemon_server name path srv).1 (valid.daemon, valid.vision, first),
          ),
        ),
      ),
    )
