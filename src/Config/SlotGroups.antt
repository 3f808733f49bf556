-- ===== src/Config/SlotGroups.antt =====
-- internal/config/validate.go: `validateMCPSlotGroups`.
pub mod Ranges
pub mod Scan
pub mod Accepts
pub mod Examples
use opencode_advance.Prelude.{
  ℕ, zero, suc, ◌+◌, ◌-◌, ◌*◌, ◌^◌, ◌%◌, ℤ, pos, negsuc, ltb_ℤ, eqb_ℤ, ◌+ℤ◌, ◌-ℤ◌, pos_part,
  neg_part, String, Bool, true, false, ◌&&◌, ◌||◌, not, Option, none, some, List, [], ◌∷◌, ◌++◌,
  is_blank, ◌<>◌, literal, sprintf, int, str, if◌then◌else◌, ltb, leb, lookup, sort_entries, show,
  is_some,
}
use opencode_advance.Config.Types.{Server, SlotGroup}
use opencode_advance.Config.Errors.{ValidationErrors, one_error}
use opencode_advance.Config.Servers.{
  min_port, max_port, PortOwners, owner_of, required_missing, out_of_range,
}

-- The sum of two ints, wrapped to 64 bits.
unfoldable pub wrap64 : ℤ → ℤ
wrap64 (pos n) = let r = n % 2 ^ 64 in if ltb r (2 ^ 63) then pos r else negsuc (2 ^ 64 - 1 - r)
wrap64 (negsuc n) = let r = n % 2 ^ 64 in if ltb r (2 ^ 63) then negsuc r else pos (2 ^ 64 - 1 - r)

abbrev pub claim_server : PortOwners → String → Server → PortOwners
claim_server ports name srv =
    if ltb_ℤ (pos 0) srv.port && not (is_some (owner_of srv.port ports))
    then (srv.port, "mcp.servers." <> name) ∷ ports
    else ports

-- The ports of the declared servers, each with the first server found at it.
pub server_ports : PortOwners → List (String × Server) → PortOwners
server_ports ports [] = ports
server_ports ports ((name, srv) ∷ rest) = server_ports (claim_server ports name srv) rest

-- The sections of the loop body: the required fields,
pub check_template : String → SlotGroup → ValidationErrors
check_template path group =
    if is_blank group.template then required_missing (path <> ".template") else []

pub check_base_port : String → SlotGroup → ValidationErrors
check_base_port path group =
    if eqb_ℤ group.base_port (pos 0) then required_missing (path <> ".base_port") else []

pub check_group_port : String → SlotGroup → ValidationErrors
check_group_port path group =
    if eqb_ℤ group.group_port (pos 0) then required_missing (path <> ".group_port") else []

pub check_count : String → SlotGroup → ValidationErrors
check_count path group =
    if eqb_ℤ group.count (pos 0)
    then required_missing (path <> ".count")
    else if ltb_ℤ group.count (pos 2)
    then one_error (path <> ".count")
        (sprintf "count %d below minimum (Vision requires count >= 2)" (int group.count ∷ []))
    else []

-- the ranges of the ports,
pub check_group_range : String → SlotGroup → ValidationErrors
check_group_range path group =
    if ltb_ℤ (pos 0) group.group_port
      && (ltb_ℤ group.group_port min_port || ltb_ℤ max_port group.group_port)
    then out_of_range (path <> ".group_port") group.group_port
    else []

abbrev pub last_slot_port : SlotGroup → ℤ
last_slot_port group = wrap64 (wrap64 (group.base_port +ℤ group.count) -ℤ pos 1)

-- The test on which the slots are looked at, `group.BasePort > 0 && group.Count >= 2`.
abbrev pub has_slots : SlotGroup → Bool
has_slots group = ltb_ℤ (pos 0) group.base_port && not (ltb_ℤ group.count (pos 2))

pub check_slot_range : String → SlotGroup → ValidationErrors
check_slot_range path group =
    if has_slots group
    then if ltb_ℤ group.base_port min_port
      then out_of_range (path <> ".base_port") group.base_port
      else if ltb_ℤ max_port (last_slot_port group)
      then one_error (path <> ".base_port") (
          sprintf "port %d out of range [%d, %d] (base_port %d + count %d - 1 = %d)" (
            int (last_slot_port group)
            ∷ int min_port
            ∷ int max_port
            ∷ int group.base_port
            ∷ int group.count
            ∷ int (last_slot_port group)
            ∷ []))
      else []
    else []

-- the defaults,
abbrev pub sets_port : Option Server → Bool
sets_port none = false
sets_port (some defaults) = ltb_ℤ (pos 0) defaults.port

pub check_defaults : String → SlotGroup → ValidationErrors
check_defaults path group =
    if sets_port group.defaults
    then one_error (path <> ".defaults.port")
        (literal "must not be set (Vision derives slot ports from base_port)")
    else []

abbrev pub collision : String → ℤ → Option String → ValidationErrors
collision path port none = []
collision path port (some owner) =
    one_error path (sprintf "port %d already used by %s" (int port ∷ str owner ∷ []))

-- and the collisions of a port, at the servers first and then at the groups so far.
pub collisions : PortOwners → PortOwners → String → ℤ → ValidationErrors
collisions servers groups path port =
    collision path port (owner_of port servers) ++ collision path port (owner_of port groups)

-- A port that no group has is recorded under `label`.
pub claim : PortOwners → ℤ → String → PortOwners
claim groups port label = if is_some (owner_of port groups) then groups else (port, label) ∷ groups

pub check_group_collision : PortOwners → PortOwners → String → SlotGroup → ValidationErrors
check_group_collision servers groups path group =
    if ltb_ℤ (pos 0) group.group_port
    then collisions servers groups (path <> ".group_port") group.group_port
    else []

pub claim_group_port : PortOwners → String → SlotGroup → PortOwners
claim_group_port groups path group =
    if ltb_ℤ (pos 0) group.group_port
    then claim groups group.group_port (path <> ".group_port")
    else groups

-- The synthesized name of slot `i` against the declared servers.
pub check_slot_name : List (String × Server) → String → SlotGroup → ℕ → ValidationErrors
check_slot_name servers path group i =
    let synth_name = group.template <> ("-" <> show (i + 1)) in
    if not (is_blank group.template) && is_some (lookup synth_name servers)
    then one_error (path <> ".template") (
        sprintf
          "synthesized slot name %q collides with declared mcp.servers.%s (Vision will reject at load)"
          (str synth_name ∷ str synth_name ∷ []))
    else []

abbrev pub slot_port : SlotGroup → ℕ → ℤ
slot_port group i = wrap64 (group.base_port +ℤ pos i)

-- The inner loop from slot `i`, with `left` slots to go: the errors and the group ports after it.
pub scan_slots :
    List (String × Server)
    → PortOwners
    → String
    → SlotGroup
    → ℕ
    → ℕ
    → PortOwners
    → ValidationErrors × PortOwners
scan_slots servers taken path group i zero groups = ([], groups)
scan_slots servers taken path group i (suc left) groups =
    let port = slot_port group i in
    let label = path <> ("[slot " <> (show (i + 1) <> "]")) in
    let (errs, after) =
      scan_slots servers taken path group (suc i) left (claim groups port label) in
    (
      collisions taken groups (path <> ".base_port") port
          ++ (check_slot_name servers path group i ++ errs),
      after,
    )

pub check_slots :
    List (String × Server)
    → PortOwners
    → PortOwners
    → String
    → SlotGroup
    → ValidationErrors × PortOwners
check_slots servers taken groups path group =
    if has_slots group
    then scan_slots servers taken path group 0 (pos_part group.count) groups
    else ([], groups)

-- The checks of one group that look at no other group or server.
pub group_errors : String → SlotGroup → ValidationErrors
group_errors path group =
    check_template path group
    ++ (check_base_port path group
        ++ (check_group_port path group
            ++ (check_count path group
                ++ (check_group_range path group
                    ++ (check_slot_range path group ++ check_defaults path group)))))

-- The loop over the groups.
pub scan_groups :
    List (String × Server) → PortOwners → PortOwners → List (String × SlotGroup) → ValidationErrors
scan_groups servers taken groups [] = []
scan_groups servers taken groups ((name, group) ∷ rest) =
    let path = "mcp.slot_groups." <> name in
    let claimed = claim_group_port groups path group in
    let (errs, after) = check_slots servers taken claimed path group in
    group_errors path group
    ++ (check_group_collision taken groups path group
        ++ (errs ++ scan_groups servers taken after rest))

-- func (s *Stack) validateMCPSlotGroups; `servers` is the iteration order that Go's map has.
pub validate_mcp_slot_groups : List (String × Server) → List (String × SlotGroup) → ValidationErrors
validate_mcp_slot_groups servers slot_groups =
    scan_groups servers (server_ports [] servers) [] (sort_entries slot_groups)
