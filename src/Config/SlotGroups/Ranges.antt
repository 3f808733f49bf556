-- ===== src/Config/SlotGroups/Ranges.antt =====
-- The checks of `validateMCPSlotGroups` that look at one group: what they accept.
use opencode_advance.Prelude.{
  ℕ, suc, ◌-◌, ◌^◌, ◌<◌, ◌≤◌, ℤ, pos, negsuc, ◌+ℤ◌, ◌-ℤ◌, ◌≤ℤ◌, ◌<ℤ◌, String, ◌≡◌, ◌≢◌, false, [],
  arith, ap, ◌∙◌, eq_iff, append-eq-nil_iff,
}
use opencode_advance.Config.Types.{SlotGroup}
use opencode_advance.Config.Servers.{min_port, max_port}
use opencode_advance.Config.SlotGroups.{
  wrap64, check_template, check_base_port, check_group_port, check_count, check_group_range,
  last_slot_port, check_slot_range, sets_port, check_defaults, slot_port, group_errors,
}

-- Below 2^63 nothing wraps.
pub wrap64_small : (n : ℕ) → n < 2 ^ 63 → wrap64 (pos n) ≡ pos n
unfolding wrap64
wrap64_small n h = ground arith

pub wrap64_fits : (z : ℤ) → pos 0 ≤ℤ z → z <ℤ pos (2 ^ 63) → wrap64 z ≡ z
wrap64_fits (pos n) h k = wrap64_small n (omega arith)
wrap64_fits (negsuc n) h k = absurd (omega arith)

-- From 2^63 on a number turns negative, and stays so one below.
pub wrap64_large : (n : ℕ) → 2 ^ 63 ≤ n → n < 2 ^ 64 → wrap64 (pos n) ≡ negsuc (2 ^ 64 - 1 - n)
unfolding wrap64
wrap64_large n h k = ground arith

pub wrap64_negative : (m : ℕ) → suc m < 2 ^ 63 → wrap64 (negsuc m -ℤ pos 1) <ℤ pos 0
unfolding wrap64
wrap64_negative m h = ground arith

-- Ports that are not negative, and slots whose end, `base_port + count`, is an int.
pub record HasPlainPorts (group : SlotGroup) : Type 0 where
  pub base : pos 0 ≤ℤ group.base_port
  pub group_port : pos 0 ≤ℤ group.group_port
  pub fits : group.base_port +ℤ group.count <ℤ pos (2 ^ 63)

-- What validation asks of a group by itself.
pub record IsValidGroup (group : SlotGroup) : Type 0 where
  pub template : group.template ≢ ""
  pub low : min_port ≤ℤ group.base_port
  pub two_slots : pos 2 ≤ℤ group.count
  pub high : group.base_port +ℤ group.count -ℤ pos 1 ≤ℤ max_port
  pub group_low : min_port ≤ℤ group.group_port
  pub group_high : group.group_port ≤ℤ max_port
  pub no_default_port : sets_port group.defaults ≡ false

module _ (path : String) (group : SlotGroup) where
  check_template_sound : check_template path group ≡ [] → group.template ≢ ""
  unfolding check_template
  check_template_sound h = ground (arith, eq_iff group.template "")

  check_count_sound : check_count path group ≡ [] → pos 2 ≤ℤ group.count
  unfolding check_count
  check_count_sound h = ground arith

  check_group_port_sound :
      pos 0 ≤ℤ group.group_port
      → check_group_port path group ≡ []
      → check_group_range path group ≡ []
      → (min_port ≤ℤ group.group_port) × (group.group_port ≤ℤ max_port)
  unfolding check_group_port check_group_range
  check_group_port_sound p h k = ground arith

  check_base_port_sound :
      pos 0 ≤ℤ group.base_port → check_base_port path group ≡ [] → pos 0 <ℤ group.base_port
  unfolding check_base_port
  check_base_port_sound p h = ground arith

  last_slot_port_lem :
      HasPlainPorts group
      → pos 2 ≤ℤ group.count
      → last_slot_port group ≡ group.base_port +ℤ group.count -ℤ pos 1
  last_slot_port_lem p c =
      ap (λ z. wrap64 (z -ℤ pos 1))
        (wrap64_fits (group.base_port +ℤ group.count) (ground (arith, p.base)) p.fits)
      ∙ wrap64_fits (group.base_port +ℤ group.count -ℤ pos 1) (ground (arith, p.base))
          (ground (arith, p.base, p.fits))

  check_slot_range_sound :
      HasPlainPorts group
      → pos 0 <ℤ group.base_port
      → pos 2 ≤ℤ group.count
      → check_slot_range path group ≡ []
      → (min_port ≤ℤ group.base_port) × (group.base_port +ℤ group.count -ℤ pos 1 ≤ℤ max_port)
  unfolding check_slot_range
  check_slot_range_sound p b c h = ground (arith, last_slot_port_lem p c)

  check_defaults_sound : check_defaults path group ≡ [] → sets_port group.defaults ≡ false
  unfolding check_defaults
  check_defaults_sound h = ground arith

  pub group_errors_sound : HasPlainPorts group → group_errors path group ≡ [] → IsValidGroup group
  unfolding group_errors
  group_errors_sound p h =
      let (a, h1) = (append-eq-nil_iff _ _).0 h in
      let (b, h2) = (append-eq-nil_iff _ _).0 h1 in
      let (c, h3) = (append-eq-nil_iff _ _).0 h2 in
      let (d, h4) = (append-eq-nil_iff _ _).0 h3 in
      let (e, h5) = (append-eq-nil_iff _ _).0 h4 in
      let (f, g) = (append-eq-nil_iff _ _).0 h5 in
      let two = check_count_sound d in
      let (group_low, group_high) = check_group_port_sound p.group_port c e in
      let (low, high) = check_slot_range_sound p (check_base_port_sound p.base b) two f in
      record {
        template = check_template_sound a;
        low = low;
        two_slots = two;
        high = high;
        group_low = group_low;
        group_high = group_high;
        no_default_port = check_defaults_sound g;
      }

  -- A slot of a valid group has a port in the range.
  pub slot_port_lem :
      (i : ℕ)
      → HasPlainPorts group
      → IsValidGroup group
      → pos i <ℤ group.count
      → (slot_port group i ≡ group.base_port +ℤ pos i)
        × (min_port ≤ℤ slot_port group i)
        × (slot_port group i ≤ℤ max_port)
  slot_port_lem i p v h =
      let e =
        wrap64_fits (group.base_port +ℤ pos i) (ground (arith, v.low))
          (ground (arith, v.low, v.high)) in
      (e, rw e (ground (arith, v.low)), rw e (ground (arith, v.low, v.high)))
