-- ===== src/Config/Servers/Scan.antt =====
-- The loop of `validateMCPServers`: the owners and the daemon that it carries, and when it appends
-- no error.
use opencode_advance.Prelude.{
  pos, ◌<ℤ◌, String, ◌≡◌, ◌≢◌, ◌↔◌, List, [], ◌∷◌, eq_iff, arith, refl, append-eq-nil_iff, All,
  Pairs,
}
use opencode_advance.Config.Types.{Server}
use opencode_advance.Config.Servers.{PortOwners, claim_port, scan_servers, next_daemon}
use opencode_advance.Config.Servers.Round.{
  IsValidServer, IsFree, in_range_positive, claim_port_iff, server_errors_iff,
}

-- Two entries with different ports; and not both the daemon.
abbrev pub PortsDiffer : String × Server → String × Server → Type 0
PortsDiffer a b = a.1.port ≢ b.1.port

abbrev pub DaemonsDiffer : String × Server → String × Server → Type 0
DaemonsDiffer a b = a.1.type_name ≡ "daemon" → b.1.type_name ≢ "daemon"

abbrev pub Entry : Type 0
Entry = String × Server

abbrev pub Admits : PortOwners → Entry → Type 0
Admits owners e = IsValidServer e.0 e.1 × IsFree owners e.1

-- What the claim of the first entry leaves for the others.
Admits-claim :
    (owners : PortOwners) (name : String) (srv : Server) (es : List Entry)
    → pos 0 <ℤ srv.port
    → IsFree owners srv
    → All (Admits (claim_port owners name srv)) es
      ↔ (All (Admits owners) es × All (PortsDiffer (name, srv)) es)
Admits-claim owners name srv [] p free = (λ h. (tt, tt), λ h. tt)
Admits-claim owners name srv (e ∷ es) p free = (
  λ ((v, f), h).
      let (f', differ) = (claim_port_iff owners srv p name e.1 free).0 f in
      let (rest, others) = (Admits-claim owners name srv es p free).0 h in
      (((v, f'), rest), (differ, others)),
  λ (((v, f), rest), (differ, others)). (
    (v, (claim_port_iff owners srv p name e.1 free).1 (f, differ)),
    (Admits-claim owners name srv es p free).1 (rest, others),
  ),
)

pub scan_sound :
    (owners : PortOwners) (daemon_server : String) (es : List Entry)
    → scan_servers owners daemon_server es ≡ []
    → All (Admits owners) es × Pairs PortsDiffer es
unfolding scan_servers
scan_sound owners daemon_server [] h = (tt, tt)
scan_sound owners daemon_server ((name, srv) ∷ es) h =
    let (now, later) = (append-eq-nil_iff _ _).0 h in
    let (valid, free, _) = (server_errors_iff owners daemon_server name srv).0 now in
    let (admits, pairs) =
      scan_sound (claim_port owners name srv) (next_daemon daemon_server name srv) es later in
    let (rest, differ) =
      (Admits-claim owners name srv es (in_range_positive srv valid.port) free).0 admits in
    (((valid, free), rest), (differ, pairs))

-- No entry left may be the daemon once there is one.
abbrev pub Follows : String → Entry → Type 0
Follows daemon_server e = e.1.type_name ≡ "daemon" → daemon_server ≡ ""

Follows-next :
    (daemon_server name : String) (srv : Server) (es : List Entry)
    → All (Follows daemon_server) es
    → All (DaemonsDiffer (name, srv)) es
    → All (Follows (next_daemon daemon_server name srv)) es
Follows-next daemon_server name srv [] h k = tt
Follows-next daemon_server name srv (e ∷ es) h k = (
  λ q. ground (arith, h.0 q, k.0, eq_iff srv.type_name "daemon", eq_iff daemon_server ""),
  Follows-next daemon_server name srv es h.1 k.1,
)

pub scan_complete :
    (owners : PortOwners) (daemon_server : String) (es : List Entry)
    → All (Admits owners) es
    → Pairs PortsDiffer es
    → Pairs DaemonsDiffer es
    → All (Follows daemon_server) es
    → scan_servers owners daemon_server es ≡ []
unfolding scan_servers
scan_complete owners daemon_server [] h p d f = refl
scan_complete owners daemon_server ((name, srv) ∷ es) h p d f = (append-eq-nil_iff _ _).1 (
  (server_errors_iff owners daemon_server name srv).1 (h.0.0, h.0.1, f.0),
  scan_complete (claim_port owners name srv) (next_daemon daemon_server name srv) es
      ((Admits-claim owners name srv es (in_range_positive srv h.0.0.port) h.0.1).1 (h.1, p.0)) p.1
      d.1 (Follows-next daemon_server name srv es f.1 d.0),
)
