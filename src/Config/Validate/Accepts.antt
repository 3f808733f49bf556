-- ===== src/Config/Validate/Accepts.antt =====
-- What a stack that `Validate` accepts satisfies, and that validating twice changes nothing.
use opencode_advance.Prelude.{
  ℤ, pos, ◌<ℤ◌, String, Bool, true, false, Bool-cases, inl, inr, ◌≡◌, ◌≢◌, ◌⊎◌, ◌↔◌, Option, none,
  some, [], arith, refl, ap, eq_iff, append-eq-nil_iff, All, Pairs, HasDistinctKeys, is_blank,
}
use opencode_advance.Config.Servers.Accepts.{AreValidServers, validate_mcp_servers_iff}
use opencode_advance.Config.SlotGroups.Scan.{ArePlain}
use opencode_advance.Config.SlotGroups.Accepts.{ArePools, validate_mcp_slot_groups_sound}
use opencode_advance.Config.Sections.Types.{
  TemporalSection, ShellSection, UpdateProbeSection, enabled_or_absent,
}
use opencode_advance.Config.Sections.Skills.{SkillFits, validate_skills_iff}
use opencode_advance.Config.Temporal.{validate_temporal, with_defaults, default_to, check_remote}
use opencode_advance.Config.Servers.{validate_mcp_servers}
use opencode_advance.Config.SlotGroups.{validate_mcp_slot_groups}
use opencode_advance.Config.Sections.{
  validate_plugins, validate_instructions, validate_providers, validate_permissions,
  validate_watcher, validate_lsp, validate_skills, validate_formatters, validate_commands,
}
use opencode_advance.Config.Temporal.Remote.{IsAllowed, validate_temporal_iff}
use opencode_advance.Config.Toggles.{
  validate_open_code, validate_session, validate_shell, validate_update_probe, default_notice,
  notice_errors, or_default, number_error,
}
use opencode_advance.Config.Validate.{Stack, check_version, normalize, stack_errors, validate}

check_version_iff : (version : String) → (check_version version ≡ []) ↔ (version ≡ "1.0.0")
unfolding check_version
check_version_iff version = (
  λ h. ground (arith, eq_iff version "", eq_iff version "1.0.0"),
  λ h. ground (arith, eq_iff version "", eq_iff version "1.0.0", eq_iff "1.0.0" ""),
)

default_to_idem : (s d : String) → default_to (default_to s d) d ≡ default_to s d
default_to_idem s d = elim (Bool-cases (is_blank s)) [
  | inl b ↦ rw b (default_to_self d)
  | inr n ↦ rw n (rw n)
]
  where
    default_to_self : (d : String) → default_to d d ≡ d
    default_to_self d = ground arith

with_defaults_idem : (t : TemporalSection) → with_defaults (with_defaults t) ≡ with_defaults t
with_defaults_idem t = λ i. record t {
  address = default_to_idem t.address "127.0.0.1:7233" i;
  namespace = default_to_idem t.namespace "default" i;
}

temporal_idem :
    (t : Option TemporalSection) → validate_temporal (validate_temporal t).1 ≡ validate_temporal t
unfolding validate_temporal
temporal_idem none = refl
temporal_idem (some t) = elim (Bool-cases (enabled_or_absent t.enabled)) [
  | inl e ↦ rw e (rw e (ap (λ u. (check_remote u, some u)) (with_defaults_idem t)))
  | inr e ↦ rw e (rw e)
]

default_notice_idem : (s : ShellSection) → default_notice (default_notice s) ≡ default_notice s
default_notice_idem s = elim (Bool-cases (is_blank s.auto_refresh_notice)) [
  | inl b ↦ rw b
  | inr n ↦ rw n (rw n)
]

shell_idem : (s : ShellSection) → validate_shell (validate_shell s).1 ≡ validate_shell s
unfolding validate_shell
shell_idem s = ap (λ u. (notice_errors u, u)) (default_notice_idem s)

or_default_idem :
    (present : Bool) (n d : ℤ)
    → or_default present (or_default present n d) d ≡ or_default present n d
or_default_idem true n d = refl
or_default_idem false n d = refl

number_error_idem :
    (present : Bool) (n d : ℤ) (path : String)
    → number_error present (or_default present n d) path ≡ number_error present n path
number_error_idem true n d path = refl
number_error_idem false n d path = refl

probe_idem :
    (u : UpdateProbeSection)
    → validate_update_probe (validate_update_probe u).1 ≡ validate_update_probe u
unfolding validate_update_probe
probe_idem u = rw (default_to_idem u.default "passive") (simp (or_default_idem, number_error_idem))

-- Validating the stack that a validation has normalized reports the same errors and changes nothing
-- further.
pub validate_idem : (s : Stack) → validate (validate s).1 ≡ validate s
unfolding validate normalize stack_errors
validate_idem s =
    rw (temporal_idem s.temporal) (rw (shell_idem s.shell) (rw (probe_idem s.update_probe)))

-- The numbers and the mode of [update_probe] after validation.
pub record ProbeFits (u : UpdateProbeSection) : Type 0 where
  pub mode : (u.default ≡ "off") ⊎ (u.default ≡ "passive") ⊎ (u.default ≡ "warn")
  pub per_plugin : pos 0 <ℤ u.timeout_per_plugin_ms
  pub global : pos 0 <ℤ u.timeout_global_ms
  pub ttl : pos 0 <ℤ u.cache_ttl_minutes

probe_sound :
    (u : UpdateProbeSection)
    → (validate_update_probe u).0 ≡ []
    → ProbeFits (validate_update_probe u).1
unfolding validate_update_probe
probe_sound u h = ground (
  arith,
  eq_iff u.default "",
  eq_iff u.default "off",
  eq_iff u.default "passive",
  eq_iff u.default "warn",
)

-- What an accepted stack satisfies, section by section; the sections that validation normalizes are
-- read after it.
pub record IsAccepted (s : Stack) : Type 0 where
  pub version : s.meta.version ≡ "1.0.0"
  pub servers : AreValidServers s.servers
  pub pools : ArePools s.servers s.slot_groups
  pub skills : All SkillFits s.skills_order × Pairs (λ a b. a ≢ b) s.skills_order
  pub temporal : IsAllowed s.temporal
  pub probe : ProbeFits (normalize s).update_probe

-- A stack whose servers have distinct names, whose ports and counts are plain numbers, and for which
-- `Validate` reports no error, has schema version "1.0.0", valid servers, valid port pools, skills
-- that fit and differ, a Temporal address that is local by its spelling, allowed or unused, and an
-- [update_probe] that after the call has a known mode and positive numbers.
pub validate_sound :
    (s : Stack)
    → HasDistinctKeys s.servers
    → ArePlain s.slot_groups
    → (validate s).0 ≡ []
    → IsAccepted s
unfolding validate stack_errors normalize
validate_sound s keys plain h0 =
    let (version, h1) = (append-eq-nil_iff (check_version s.meta.version) _).0 h0 in
    let (servers, h2) = (append-eq-nil_iff (validate_mcp_servers s.servers) _).0 h1 in
    let (groups, h3) =
      (append-eq-nil_iff (validate_mcp_slot_groups s.servers s.slot_groups) _).0 h2 in
    let (_, h4) = (append-eq-nil_iff (validate_plugins s.plugins) _).0 h3 in
    let (_, h5) = (append-eq-nil_iff (validate_instructions s.instructions) _).0 h4 in
    let (_, h6) = (append-eq-nil_iff (validate_providers s.providers) _).0 h5 in
    let (_, h7) = (append-eq-nil_iff (validate_permissions s.permissions) _).0 h6 in
    let (_, h8) = (append-eq-nil_iff (validate_watcher s.watcher_ignore) _).0 h7 in
    let (_, h9) = (append-eq-nil_iff (validate_lsp s.lsp) _).0 h8 in
    let (skills, h10) = (append-eq-nil_iff (validate_skills s.skills_order) _).0 h9 in
    let (_, h11) = (append-eq-nil_iff (validate_formatters s.formatters) _).0 h10 in
    let (_, h12) = (append-eq-nil_iff (validate_commands s.commands) _).0 h11 in
    let (_, h13) = (append-eq-nil_iff (validate_open_code s.share s.autoupdate) _).0 h12 in
    let (_, h14) = (append-eq-nil_iff (validate_session s.session) _).0 h13 in
    let (temporal, h15) = (append-eq-nil_iff ((validate_temporal s.temporal).0) _).0 h14 in
    let (_, h16) = (append-eq-nil_iff ((validate_shell s.shell).0) _).0 h15 in
    let (probe, _) = (append-eq-nil_iff ((validate_update_probe s.update_probe).0) _).0 h16 in
    record {
      version = (check_version_iff s.meta.version).0 version;
      servers = (validate_mcp_servers_iff s.servers keys).0 servers;
      pools = validate_mcp_slot_groups_sound s.servers s.slot_groups plain groups;
      skills = (validate_skills_iff s.skills_order).0 skills;
      temporal = (validate_temporal_iff s.temporal).0 temporal;
      probe = probe_sound s.update_probe probe;
    }
