-- ===== src/Config/SlotGroups/Scan.antt =====
-- The loops of `validateMCPSlotGroups`: the ports that they claim, and the collisions.
use opencode_advance.Prelude.{
  ℕ, zero, suc, ◌+◌, ℤ, pos_part, eqb_ℤ_iff, String, ◌≡◌, ◌≢◌, true, none, List, [], ◌∷◌, ◌++◌,
  arith, subst, append-eq-nil_iff, All, All-append, Pairs, Pairs-append, All-swap, ◌<>◌, show,
}
use opencode_advance.Config.Types.{Server, SlotGroup}
use opencode_advance.Config.Servers.{PortOwners, owner_of}
use opencode_advance.Config.SlotGroups.{
  collisions, claim, check_group_collision, claim_group_port, slot_port, scan_slots, has_slots,
  check_slots, scan_groups,
}
use opencode_advance.Config.SlotGroups.Ranges.{HasPlainPorts, IsValidGroup, group_errors_sound}

abbrev pub IsUnowned : PortOwners → ℤ → Type 0
IsUnowned owners p = owner_of p owners ≡ none

-- A port that neither a server nor an earlier group has.
abbrev pub IsClear : PortOwners → PortOwners → ℤ → Type 0
IsClear servers groups p = IsUnowned servers p × IsUnowned groups p

abbrev pub Differ : ℤ → ℤ → Type 0
Differ p q = p ≢ q

collisions_sound :
    (servers groups : PortOwners) (path : String) (p : ℤ)
    → collisions servers groups path p ≡ []
    → IsClear servers groups p
unfolding collisions
collisions_sound servers groups path p h = ground arith

claim-free :
    (groups : PortOwners) (p : ℤ) (label : String) (q : ℤ)
    → IsUnowned (claim groups p label) q
    → IsUnowned groups q × Differ p q
unfolding claim owner_of
claim-free groups p label q h = (ground arith, λ e. ground (arith, eqb_ℤ_iff p q))

-- The ports of the slots from `i` on.
pub slots_from : SlotGroup → ℕ → ℕ → List ℤ
slots_from group i zero = []
slots_from group i (suc left) = slot_port group i ∷ slots_from group (suc i) left

IsClear-claim :
    (servers groups : PortOwners) (p : ℤ) (label : String) (ps : List ℤ)
    → All (IsClear servers (claim groups p label)) ps
    → All (IsClear servers groups) ps × All (Differ p) ps
IsClear-claim servers groups p label [] h = (tt, tt)
IsClear-claim servers groups p label (q ∷ ps) h =
    let (free, differ) = claim-free groups p label q h.0.1 in
    let (rest, others) = IsClear-claim servers groups p label ps h.1 in
    (((h.0.0, free), rest), (differ, others))

module _ (servers : List (String × Server)) (taken : PortOwners) (path : String)
    (group : SlotGroup) where
  scan_slots-free :
      (i left : ℕ) (groups : PortOwners) (q : ℤ)
      → IsUnowned (scan_slots servers taken path group i left groups).1 q
      → IsUnowned groups q × All (λ p. Differ p q) (slots_from group i left)
  unfolding scan_slots slots_from
  scan_slots-free i zero groups q h = (h, tt)
  scan_slots-free i (suc left) groups q h =
      let (after, others) =
        scan_slots-free (suc i) left
          (claim groups (slot_port group i) (path <> ("[slot " <> (show (i + 1) <> "]")))) q h in
      let (free, differ) = claim-free groups (slot_port group i) _ q after in
      (free, (differ, others))

  scan_slots_sound :
      (i left : ℕ) (groups : PortOwners)
      → (scan_slots servers taken path group i left groups).0 ≡ []
      → All (IsClear taken groups) (slots_from group i left)
        × Pairs Differ (slots_from group i left)
  unfolding scan_slots slots_from
  scan_slots_sound i zero groups h = (tt, tt)
  scan_slots_sound i (suc left) groups h =
      let port = slot_port group i in
      let label = path <> ("[slot " <> (show (i + 1) <> "]")) in
      let (here, more) = (append-eq-nil_iff _ _).0 h in
      let (_, later) = (append-eq-nil_iff _ _).0 more in
      let (clear, pairs) = scan_slots_sound (suc i) left (claim groups port label) later in
      let (still, differ) =
        IsClear-claim taken groups port label (slots_from group (suc i) left) clear in
      ((collisions_sound taken groups (path <> ".base_port") port here, still), (differ, pairs))

-- All the ports that a group occupies.
pub ports_of : SlotGroup → List ℤ
unfolding slots_from
ports_of group = group.group_port ∷ slots_from group 0 (pos_part group.count)

module _ (servers : List (String × Server)) (taken groups : PortOwners) (path : String)
    (group : SlotGroup) (valid : IsValidGroup group) where
  abbrev pub after_group : PortOwners
  after_group = (check_slots servers taken (claim_group_port groups path group) path group).1

  has_slots_lem : has_slots group ≡ true
  has_slots_lem = ground (arith, valid.low, valid.two_slots)

  claim_group_port_lem :
      claim_group_port groups path group ≡ claim groups group.group_port (path <> ".group_port")
  unfolding claim_group_port
  claim_group_port_lem = ground (arith, valid.group_low)

  check_slots_lem :
      (owners : PortOwners)
      → check_slots servers taken owners path group
        ≡ scan_slots servers taken path group 0 (pos_part group.count) owners
  unfolding check_slots
  check_slots_lem owners = rw has_slots_lem

  pub group-free :
      (q : ℤ)
      → IsUnowned after_group q
      → IsUnowned groups q × All (λ p. Differ p q) (ports_of group)
  unfolding ports_of
  group-free q h =
      let (claimed, slots) =
        scan_slots-free servers taken path group 0 (pos_part group.count)
          (claim_group_port groups path group) q
          (subst (λ r. IsUnowned r.1 q) (check_slots_lem (claim_group_port groups path group)) h) in
      let (free, differ) =
        claim-free groups group.group_port (path <> ".group_port") q
          (rw claim_group_port_lem at claimed) in
      (free, (differ, slots))

  pub group_sound :
      check_group_collision taken groups path group ≡ []
      → (check_slots servers taken (claim_group_port groups path group) path group).0 ≡ []
      → All (IsClear taken groups) (ports_of group) × Pairs Differ (ports_of group)
  unfolding ports_of check_group_collision
  group_sound h k =
      let (clear, pairs) =
        scan_slots_sound servers taken path group 0 (pos_part group.count)
          (claim_group_port groups path group) (rw check_slots_lem at k) in
      let (still, differ) =
        IsClear-claim taken groups group.group_port (path <> ".group_port")
          (slots_from group 0 (pos_part group.count)) (rw claim_group_port_lem at clear) in
      (
        (
          collisions_sound taken groups (path <> ".group_port") group.group_port
              (ground (arith, valid.group_low)),
          still,
        ),
        (differ, pairs),
      )

abbrev pub Group : Type 0
Group = String × SlotGroup

-- The ports of all the groups.
pub all_ports : List Group → List ℤ
all_ports [] = []
all_ports ((name, group) ∷ rest) = ports_of group ++ all_ports rest

abbrev pub ArePlain : List Group → Type 0
ArePlain gs = All (λ e. HasPlainPorts e.1) gs

-- What is clear of the groups after one is clear of the groups before it and differs from its ports.
IsClear-group :
    (servers : List (String × Server)) (taken groups : PortOwners) (path : String)
    (group : SlotGroup)
    → IsValidGroup group
    → (qs : List ℤ)
    → All
        (IsClear taken
          (check_slots servers taken (claim_group_port groups path group) path group).1)
        qs
    → All (IsClear taken groups) qs × All (λ q. All (λ p. Differ p q) (ports_of group)) qs
IsClear-group servers taken groups path group v [] h = (tt, tt)
IsClear-group servers taken groups path group v (q ∷ qs) h =
    let (free, differ) = group-free servers taken groups path group v q h.0.1 in
    let (rest, others) = IsClear-group servers taken groups path group v qs h.1 in
    (((h.0.0, free), rest), (differ, others))

pub scan_groups_sound :
    (servers : List (String × Server)) (taken groups : PortOwners) (gs : List Group)
    → ArePlain gs
    → scan_groups servers taken groups gs ≡ []
    → All (λ e. IsValidGroup e.1) gs
      × All (IsClear taken groups) (all_ports gs)
      × Pairs Differ (all_ports gs)
unfolding scan_groups all_ports
scan_groups_sound servers taken groups [] p h = (tt, tt, tt)
scan_groups_sound servers taken groups ((name, group) ∷ gs) p h =
    let path = "mcp.slot_groups." <> name in
    let claimed = claim_group_port groups path group in
    let (own, more) = (append-eq-nil_iff _ _).0 h in
    let (at_group, more') = (append-eq-nil_iff _ _).0 more in
    let (at_slots, later) = (append-eq-nil_iff _ _).0 more' in
    let v = group_errors_sound path group p.0 own in
    let (here, pairs) = group_sound servers taken groups path group v at_group at_slots in
    let (valid, clear, rest) =
      scan_groups_sound servers taken (check_slots servers taken claimed path group).1 gs p.1
        later in
    let (still, differ) = IsClear-group servers taken groups path group v (all_ports gs) clear in
    (
      (v, valid),
      All-append (IsClear taken groups) (ports_of group) (all_ports gs) here still,
      Pairs-append Differ (ports_of group) (all_ports gs) pairs rest
          (All-swap Differ (ports_of group) (all_ports gs) differ),
    )
