-- ===== src/Config/SlotGroups/Examples.antt =====
-- Tests of `validateMCPSlotGroups`, and its theorems at concrete groups.
use opencode_advance.Prelude.{
  pos, negsuc, ◌+ℤ◌, ◌-ℤ◌, ◌≤ℤ◌, ◌<ℤ◌, ◌^◌, ◌⊎◌, ◌↔◌, ◌≡◌, [], ◌∷◌, none, refl, eq_iff, arith,
  length, sort_entries, lookup, show,
}
use opencode_advance.Config.Types.{SlotGroup, no_server}
use opencode_advance.Config.Servers.{owner_of, min_port, max_port}
use opencode_advance.Config.Servers.Examples.{declared}
use opencode_advance.Config.SlotGroups.{
  wrap64, server_ports, check_template, check_base_port, check_group_port, check_count,
  check_group_range, check_slot_range, check_defaults, collisions, claim, check_group_collision,
  claim_group_port, check_slot_name, scan_slots, check_slots, group_errors, scan_groups,
  validate_mcp_slot_groups,
}
use opencode_advance.Config.SlotGroups.Accepts.{
  ArePools, validate_mcp_slot_groups_sound, negative_ports_accepted, check_slot_range_iff,
}

abbrev pub pool : SlotGroup
pool = record {
  template = "pw";
  base_port = pos 6300;
  count = pos 2;
  group_port = pos 6310;
  defaults = none;
}

pub pool-accepted : validate_mcp_slot_groups declared (("pools", pool) ∷ []) ≡ []
unfolding validate_mcp_slot_groups scan_groups check_slots scan_slots check_slot_name
    claim_group_port claim check_group_collision collisions check_defaults check_slot_range
    check_group_range check_count check_group_port check_base_port check_template server_ports
    wrap64 group_errors owner_of sort_entries lookup show
pool-accepted = refl

-- The group port is one of the slots, and a synthesized name is a server's.
clash-rejected :
    length (
      validate_mcp_slot_groups
        (("pw-1", record no_server { port = pos 6280 }) ∷ [])
        (("pools", record pool { group_port = pos 6301 }) ∷ []))
    ≡ 2
unfolding validate_mcp_slot_groups scan_groups check_slots scan_slots check_slot_name
    claim_group_port claim check_group_collision collisions check_defaults check_slot_range
    check_group_range check_count check_group_port check_base_port check_template server_ports
    wrap64 group_errors owner_of sort_entries lookup show
clash-rejected = refl

validate_mcp_slot_groups_sound_example : ArePools declared (("pools", pool) ∷ [])
validate_mcp_slot_groups_sound_example =
    validate_mcp_slot_groups_sound declared (("pools", pool) ∷ []) (omega arith) pool-accepted

negative_ports_accepted_example :
    validate_mcp_slot_groups declared
      (("bad", record pool { base_port = negsuc 0; group_port = negsuc 4 }) ∷ [])
    ≡ []
negative_ports_accepted_example =
    negative_ports_accepted declared "bad"
      (record pool { base_port = negsuc 0; group_port = negsuc 4 })
      (λ e. ground (arith, eq_iff "pw" "")) (omega arith) (omega arith) (omega arith) refl

check_slot_range_iff_example :
    (check_slot_range "mcp.slot_groups.big" (record pool { count = pos 9223372036854775807 }) ≡ [])
    ↔ ((min_port ≤ℤ pos 6300)
        × ((pos 6300 +ℤ pos 9223372036854775807 -ℤ pos 1 ≤ℤ max_port)
            ⊎ (pos (2 ^ 63) <ℤ pos 6300 +ℤ pos 9223372036854775807)))
check_slot_range_iff_example =
    check_slot_range_iff "mcp.slot_groups.big" (record pool { count = pos 9223372036854775807 })
      (omega arith) (omega arith) (omega arith) (omega arith)
