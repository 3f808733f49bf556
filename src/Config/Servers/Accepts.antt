-- ===== src/Config/Servers/Accepts.antt =====
-- `validateMCPServers` as a whole: which sets of servers it accepts.
use opencode_advance.Prelude.{
  String, ◌≡◌, ◌≢◌, ◌↔◌, ◌⊎◌, inl, inr, List, [], refl, sym, ap, ◌∙◌, Memᴰ, All-mem, mem-All,
  mem-Pairs, Pairs-mem, sort_entries, sort_entries-mem, mem-sort_entries, Pairs-sort_entries,
  HasDistinctKeys,
}
use opencode_advance.Config.Types.{Server}
use opencode_advance.Config.Servers.{validate_mcp_servers, owner_of}
use opencode_advance.Config.Servers.Round.{IsValidServer}
use opencode_advance.Config.Servers.Scan.{
  Entry, Admits, PortsDiffer, DaemonsDiffer, Follows, scan_sound, scan_complete,
}

-- Every server is valid by itself, and no two share a port.
pub record AreValidServers (servers : List (String × Server)) : Type 0 where
  pub each : (name : String) (srv : Server) → Memᴰ (name, srv) servers → IsValidServer name srv
  pub distinct_ports :
      (a b : String × Server) → Memᴰ a servers → Memᴰ b servers → a.0 ≢ b.0 → PortsDiffer a b

sound : (servers : List Entry) → validate_mcp_servers servers ≡ [] → AreValidServers servers
unfolding validate_mcp_servers
sound servers h =
    let sorted = sort_entries servers in
    let (admits, pairs) = scan_sound [] "" sorted h in
    record {
      each = λ name srv m. (All-mem (Admits []) sorted admits (sort_entries-mem servers m)).0;
      distinct_ports = λ a b m n ne. different a b ne (
          Pairs-mem PortsDiffer sorted pairs (sort_entries-mem servers m)
            (sort_entries-mem servers n));
    }
  where
    different :
        (a b : Entry) → a.0 ≢ b.0 → (a ≡ b) ⊎ (PortsDiffer a b ⊎ PortsDiffer b a) → PortsDiffer a b
    different a b ne (inl e) = absurd (ne (ap (λ (x : Entry). x.0) e))
    different a b ne (inr (inl p)) = p
    different a b ne (inr (inr p)) = λ e. p (sym e)

-- Two daemons would both be named vision.
daemons_differ :
    (a b : Entry) → IsValidServer a.0 a.1 → IsValidServer b.0 b.1 → a.0 ≢ b.0 → DaemonsDiffer a b
daemons_differ a b v w ne p q = ne ((v.daemon p).named ∙ sym (w.daemon q).named)

complete :
    (servers : List Entry)
    → HasDistinctKeys servers
    → AreValidServers servers
    → validate_mcp_servers servers ≡ []
unfolding validate_mcp_servers owner_of
complete servers keys v =
    scan_complete [] "" sorted
      (mem-All (Admits []) sorted λ a m. (v.each a.0 a.1 (mem-sort_entries servers m), refl))
      (mem-Pairs _ PortsDiffer sorted distinct λ a b m n ne.
        v.distinct_ports a b (mem-sort_entries servers m) (mem-sort_entries servers n) ne)
      (mem-Pairs _ DaemonsDiffer sorted distinct λ a b m n ne.
        daemons_differ a b (v.each a.0 a.1 (mem-sort_entries servers m))
          (v.each b.0 b.1 (mem-sort_entries servers n)) ne)
      (mem-All (Follows "") sorted λ a m _. refl)
  where
    sorted : List Entry
    sorted = sort_entries servers

    distinct : HasDistinctKeys sorted
    distinct = Pairs-sort_entries (λ a b. a.0 ≢ b.0) (λ a b ne e. ne (sym e)) servers keys

pub validate_mcp_servers_iff :
    (servers : List (String × Server))
    → HasDistinctKeys servers
    → (validate_mcp_servers servers ≡ []) ↔ AreValidServers servers
validate_mcp_servers_iff servers keys = (sound servers, complete servers keys)
