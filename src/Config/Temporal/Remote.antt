-- ===== src/Config/Temporal/Remote.antt =====
-- What `validateTemporal` promises about the address.
use Prim.Native.Char.{Char, code}
use text.Mathlib.TextBridge.{IsPrefix}
use text.Mathlib.TextEquality.{starts_with_iff}
use text.Mathlib.TextLemmas.{cons-append, cons≢nil, head-eq_of_cons-eq}
use text.Mathlib.TextPositions.{starts_with-append}
use opencode_advance.Prelude.{
  String, Bool, Option, refl, ap, sym, ◌∙◌, true, false, ◌≡◌, none, some, [], arith, ◌<>◌,
  ends_with, starts_with, eq_iff, ◌⊎◌, ◌↔◌, Bool-cases, inl, inr, str_eq,
}
use opencode_advance.Config.Sections.Types.{TemporalSection, enabled_or_absent}
use opencode_advance.Config.Temporal.Hosts.{IsLocal, is_loopback_address_iff}
use opencode_advance.Config.Temporal.{
  before_last_colon, host_of, is_loopback_host, is_loopback_address, check_remote,
  validate_temporal, default_to,
}

first_code : (c d : Char) (a b : String) → String.◌∷◌ c a ≡ String.◌∷◌ d b → code c ≡ code d
first_code c d a b e = ap code (head-eq_of_cons-eq e)

no_bracket_prefix : (s : String) → IsPrefix "[" ("127." <> s) → ⊥
no_bracket_prefix s (u, e) =
    let h = first_code "[" "1" _ _ (sym (cons-append "[" "" u) ∙ e ∙ cons-append "1" "27." s) in
    absurd (omega arith)

no_bracket : (s : String) → starts_with ("127." <> s) "[" ≡ false
no_bracket s = elim (Bool-cases (starts_with ("127." <> s) "[")) [
  | inl p ↦ absurd (no_bracket_prefix s ((starts_with_iff ("127." <> s) "[").0 p))
  | inr n ↦ n
]

is_loopback_host-prefix : (h : String) → starts_with h "127." ≡ true → is_loopback_host h ≡ true
unfolding is_loopback_host
is_loopback_host-prefix h p = ground arith

host_of_plain :
    (s : String)
    → before_last_colon ("127." <> s) ≡ none
    → ends_with ("127." <> s) "]" ≡ false
    → host_of ("127." <> s) ≡ "127." <> s
unfolding host_of
host_of_plain s h k = rw h (rw (no_bracket s) (rw k))

loopback_by_prefix :
    (s : String)
    → before_last_colon ("127." <> s) ≡ none
    → ends_with ("127." <> s) "]" ≡ false
    → is_loopback_address ("127." <> s) ≡ true
unfolding is_loopback_address
loopback_by_prefix s h k =
    rw (host_of_plain s h k) (is_loopback_host-prefix ("127." <> s) (starts_with-append "127." s))

not_blank : (s : String) → str_eq ("127." <> s) "" ≡ false
not_blank s = elim (Bool-cases (str_eq ("127." <> s) "")) [
  | inl p ↦ absurd (cons≢nil (sym (cons-append "1" "27." s) ∙ (eq_iff _ _).0 p))
  | inr n ↦ n
]

validate_temporal-some :
    (t : TemporalSection)
    → ((validate_temporal (some t)).0 ≡ []) ↔ (
        (enabled_or_absent t.enabled ≡ false)
        ⊎ (is_loopback_address (default_to t.address "127.0.0.1:7233") ≡ true)
        ⊎ (t.allow_remote ≡ some true))
unfolding validate_temporal check_remote
validate_temporal-some t = (λ h. ground arith, λ h. ground arith)

-- What a section must be.
abbrev pub IsAllowed : Option TemporalSection → Type 0
IsAllowed none = Unit
IsAllowed (some t) =
    (t.enabled ≡ some false)
    ⊎ IsLocal (default_to t.address "127.0.0.1:7233")
    ⊎ (t.allow_remote ≡ some true)

enabled_or_absent_iff : (b : Option Bool) → (enabled_or_absent b ≡ false) ↔ (b ≡ some false)
enabled_or_absent_iff b = (λ h. ground arith, λ h. ground arith)

-- The section is accepted exactly when it is absent, or set to disabled, or allows remote addresses,
-- or has an address (127.0.0.1:7233 if it has none) whose host is local by its spelling: it is
-- "localhost" or "::1", or begins with "127." or "::ffff:127.". The host is what stands before the
-- last colon, or the whole address if it has no colon, without "[" before it and "]" after it.
pub validate_temporal_iff :
    (t : Option TemporalSection) → ((validate_temporal t).0 ≡ []) ↔ IsAllowed t
unfolding validate_temporal
validate_temporal_iff none = (λ h. tt, λ h. refl)
validate_temporal_iff (some t) = (
  (λ h. elim ((validate_temporal-some t).0 h) [
    | inl off ↦ inl ((enabled_or_absent_iff t.enabled).0 off)
    | inr (inl near) ↦
        inr (inl ((is_loopback_address_iff (default_to t.address "127.0.0.1:7233")).0 near))
    | inr (inr remote) ↦ inr (inr remote)
  ]),
  (λ h. elim h [
    | inl off ↦ (validate_temporal-some t).1 (inl ((enabled_or_absent_iff t.enabled).1 off))
    | inr (inl near) ↦
        (validate_temporal-some t).1
          (inr (inl ((is_loopback_address_iff (default_to t.address "127.0.0.1:7233")).1 near)))
    | inr (inr remote) ↦ (validate_temporal-some t).1 (inr (inr remote))
  ]),
)

-- An enabled section is accepted, with no permission for remote addresses, at every host name that
-- starts with "127.", has no colon and does not end in a bracket.
pub lookalike_accepted :
    (t : TemporalSection) (s : String)
    → t.address ≡ "127." <> s
    → before_last_colon ("127." <> s) ≡ none
    → ends_with ("127." <> s) "]" ≡ false
    → (validate_temporal (some t)).0 ≡ []
lookalike_accepted t s a h k =
    (validate_temporal-some t).1
      (inr (inl (ground (arith, loopback_by_prefix s h k, a, not_blank s))))
