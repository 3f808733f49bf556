-- ===== src/Config/SlotGroups/Accepts.antt =====
-- `validateMCPSlotGroups` as a whole: what an accepted set of groups satisfies, and two kinds of
-- groups that its range checks let through.
use opencode_advance.Prelude.{
  ◌^◌, ℤ, pos, negsuc, ◌+ℤ◌, ◌-ℤ◌, ◌≤ℤ◌, ◌<ℤ◌, String, ◌≡◌, ◌≢◌, ◌⊎◌, ◌↔◌, inl, inr, false, List,
  [], ◌∷◌, arith, ap, ◌∙◌, eq_iff, eqb_ℤ_iff, All, All-mem, mem-All, Pairs, Memᴰ, sort_entries,
  sort_entries-mem, mem-sort_entries,
}
use opencode_advance.Config.Types.{Server, SlotGroup}
use opencode_advance.Config.Servers.{PortOwners, owner_of, min_port, max_port}
use opencode_advance.Config.SlotGroups.{
  server_ports, claim_server, validate_mcp_slot_groups, sets_port, check_slot_range, scan_groups,
  group_errors, check_template, check_base_port, check_group_port, check_count, check_group_range,
  check_defaults, check_group_collision, check_slots, wrap64, last_slot_port,
}
use opencode_advance.Config.SlotGroups.Ranges.{
  IsValidGroup, wrap64_large, wrap64_negative, wrap64_fits,
}
use opencode_advance.Config.SlotGroups.Scan.{
  Group, ArePlain, IsUnowned, IsClear, Differ, all_ports, scan_groups_sound,
}

abbrev Keeps : ℤ → String × Server → Type 0
Keeps p e = pos 0 <ℤ e.1.port → Differ e.1.port p

server_ports-free :
    (ports : PortOwners) (servers : List (String × Server)) (p : ℤ)
    → IsUnowned (server_ports ports servers) p
    → IsUnowned ports p × All (Keeps p) servers
unfolding server_ports owner_of
server_ports-free ports [] p h = (h, tt)
server_ports-free ports ((name, srv) ∷ rest) p h =
    let (free, others) = server_ports-free (claim_server ports name srv) rest p h in
    (ground (arith, free), ((λ q e. ground (arith, free, eqb_ℤ_iff srv.port p)), others))

-- Every group is valid by itself, all the ports of the groups and of their slots are distinct, and
-- none is the port of a server.
pub record ArePools (servers : List (String × Server)) (groups : List Group) : Type 0 where
  pub each : (name : String) (group : SlotGroup) → Memᴰ (name, group) groups → IsValidGroup group
  pub distinct_ports : Pairs Differ (all_ports (sort_entries groups))
  pub clear_of_servers :
      (name : String) (srv : Server) (p : ℤ)
      → Memᴰ (name, srv) servers
      → pos 0 <ℤ srv.port
      → Memᴰ p (all_ports (sort_entries groups))
      → Differ srv.port p

-- If validation of the slot groups reports nothing, then every group has a template, at least two
-- slots, no port among its defaults, and a group port and slot ports in Vision's range; all these
-- ports are distinct, within a group and across groups; and no server has one of them. This is for
-- groups whose ports are not negative and whose `base_port + count` is an int.
pub validate_mcp_slot_groups_sound :
    (servers : List (String × Server)) (groups : List Group)
    → ArePlain groups
    → validate_mcp_slot_groups servers groups ≡ []
    → ArePools servers groups
unfolding validate_mcp_slot_groups
validate_mcp_slot_groups_sound servers groups plain h =
    let sorted = sort_entries groups in
    let (valid, clear, distinct) =
      scan_groups_sound servers (server_ports [] servers) [] sorted
        (mem-All _ sorted λ e m. All-mem _ groups plain (mem-sort_entries groups m)) h in
    record {
      each =
          λ name group m. All-mem (λ e. IsValidGroup e.1) sorted valid (sort_entries-mem groups m);
      distinct_ports = distinct;
      clear_of_servers = λ name srv p m positive n.
          All-mem (Keeps p) servers
            (server_ports-free [] servers p
              (All-mem (IsClear (server_ports [] servers) []) (all_ports sorted) clear n).0).1
            m positive;
    }

-- A group with a template, two slots or more and no port in its defaults is accepted whenever its
-- base port and its group port are negative, whatever the servers.
pub negative_ports_accepted :
    (servers : List (String × Server)) (name : String) (group : SlotGroup)
    → group.template ≢ ""
    → group.base_port <ℤ pos 0
    → group.group_port <ℤ pos 0
    → pos 2 ≤ℤ group.count
    → sets_port group.defaults ≡ false
    → validate_mcp_slot_groups servers ((name, group) ∷ []) ≡ []
unfolding validate_mcp_slot_groups scan_groups sort_entries group_errors check_template
    check_base_port check_group_port check_count check_group_range check_slot_range check_defaults
    check_group_collision check_slots
negative_ports_accepted servers name group t b g c d = ground (arith, eq_iff group.template "")

last_slot_port_wraps :
    (z : ℤ) → pos (2 ^ 63) <ℤ z → z <ℤ pos (2 ^ 64) → wrap64 (wrap64 z -ℤ pos 1) <ℤ pos 0
last_slot_port_wraps (negsuc n) h k = absurd (omega arith)
last_slot_port_wraps (pos n) h k =
    rw (wrap64_large n (omega arith) (omega arith)) (wrap64_negative _ (omega arith))

-- One below the smallest int is the largest.
last_slot_port_largest : (z : ℤ) → z ≡ pos (2 ^ 63) → max_port <ℤ wrap64 (wrap64 z -ℤ pos 1)
unfolding wrap64
last_slot_port_largest z e = rw e (omega arith)

overflow_cases : (z : ℤ) → (z <ℤ pos (2 ^ 63)) ⊎ (z ≡ pos (2 ^ 63)) ⊎ (pos (2 ^ 63) <ℤ z)
overflow_cases z = ground arith

-- For a group with a positive base port and two slots or more, both of them ints, the range check of
-- the slots reports nothing exactly when the base port is not below Vision's range and either the
-- last slot, `base_port + count - 1`, is not above it, or `base_port + count` is above 2^63. So the
-- check lets a last slot above the range through where the sum wraps, and only there.
pub check_slot_range_iff :
    (path : String) (group : SlotGroup)
    → pos 0 <ℤ group.base_port
    → group.base_port <ℤ pos (2 ^ 63)
    → pos 2 ≤ℤ group.count
    → group.count <ℤ pos (2 ^ 63)
    → (check_slot_range path group ≡ []) ↔ (
        (min_port ≤ℤ group.base_port)
        × ((group.base_port +ℤ group.count -ℤ pos 1 ≤ℤ max_port)
            ⊎ (pos (2 ^ 63) <ℤ group.base_port +ℤ group.count)))
unfolding check_slot_range
check_slot_range_iff path group b b' c c' = elim (overflow_cases (group.base_port +ℤ group.count)) [
  | inl small ↦
      let last : last_slot_port group ≡ group.base_port +ℤ group.count -ℤ pos 1 =
        ap (λ z. wrap64 (z -ℤ pos 1))
          (wrap64_fits (group.base_port +ℤ group.count) (ground arith) small)
        ∙ wrap64_fits (group.base_port +ℤ group.count -ℤ pos 1) (ground arith) (ground arith) in
      (λ h. ground (arith, last), λ h. ground (arith, last))
  | inr (inl equal) ↦
      let last = last_slot_port_largest (group.base_port +ℤ group.count) equal in
      (λ h. ground (arith, last), λ h. ground (arith, last))
  | inr (inr large) ↦
      let last = last_slot_port_wraps (group.base_port +ℤ group.count) large (ground arith) in
      (λ h. ground (arith, last), λ h. ground (arith, last))
]
