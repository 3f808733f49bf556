-- ===== src/Config/Temporal/Hosts.antt =====
-- Which addresses `isLoopbackAddress` accepts, told without its tests.
use Prim.Native.String.{len}
use Prim.Native.Char.{Char, code}
use text.Mathlib.TextBridge.{IsPrefix}
use text.Mathlib.TextEquality.{starts_with_iff}
use text.Mathlib.TextLemmas.{cons-append, nil-append, append_assoc}
use text.Mathlib.TextPositions.{len-append, slice-append_right}
use opencode_advance.Prelude.{
  String, ap, sym, subst, ◌∙◌, refl, true, false, ◌≡◌, none, some, arith, ◌<>◌, starts_with,
  drop_bytes, eq_iff, ◌⊎◌, ◌↔◌, Bool-cases, inl, inr, str_eq, ◌==◌, ◌||◌,
}
use opencode_advance.Config.Temporal.{
  before_last_colon, or_whole, trim_prefix, trim_suffix, host_of, is_loopback_host,
  is_loopback_address,
}

abbrev pub IsColonless : String → Type 0
IsColonless String.[] = Unit
IsColonless (String.◌∷◌ c s) = ((code c == 58) ≡ false) × IsColonless s

-- An address without its port: what stands before the last colon, or all of it if it has no colon.
pub data WithoutPort (addr : String) : String → Type 0 where
  whole : IsColonless addr → WithoutPort addr addr
  before :
      {base : String} (colon : Char) (port : String)
      → (code colon == 58) ≡ true
      → IsColonless port
      → addr ≡ base <> String.◌∷◌ colon port
      → WithoutPort addr base

before_last_colon-IsColonless : (s : String) → IsColonless s → before_last_colon s ≡ none
unfolding before_last_colon
before_last_colon-IsColonless String.[] h = refl
before_last_colon-IsColonless (String.◌∷◌ c s) h =
    rw (before_last_colon-IsColonless s h.1, h.0, before_last_colon) refl

before_last_colon-append :
    (base : String) (c : Char) (port : String)
    → (code c == 58) ≡ true
    → IsColonless port
    → before_last_colon (base <> String.◌∷◌ c port) ≡ some base
unfolding before_last_colon
before_last_colon-append String.[] c port h p =
    ap before_last_colon (nil-append (String.◌∷◌ c port))
    ∙ rw (before_last_colon-IsColonless port p, h, before_last_colon) refl
before_last_colon-append (String.◌∷◌ b base) c port h p =
    ap before_last_colon (cons-append b base (String.◌∷◌ c port))
    ∙ rw (before_last_colon-append base c port h p, before_last_colon) refl

-- The two cases of a text, with what `before_last_colon` gives.
last_colon-cases :
    (s : String)
    → (IsColonless s × (before_last_colon s ≡ none))
      ⊎ ((base : String) × WithoutPort s base × (before_last_colon s ≡ some base))
unfolding before_last_colon
last_colon-cases String.[] = inl (tt, refl)
last_colon-cases (String.◌∷◌ c s) = elim (last_colon-cases s) [
  | inr (base, WithoutPort.whole h, e) ↦
      absurd (ground (arith, e, before_last_colon-IsColonless s h))
  | inr (base, WithoutPort.before d port h p q, e) ↦ inr (
    String.◌∷◌ c base,
    WithoutPort.before d port h p
        (ap (λ t. String.◌∷◌ c t) q ∙ sym (cons-append c base (String.◌∷◌ d port))),
    rw (e, before_last_colon) refl,
  )
  | inl (h, e) ↦ elim (Bool-cases (code c == 58)) [
    | inl colon ↦ inr (
      String.[],
      WithoutPort.before c s colon h (sym (nil-append (String.◌∷◌ c s))),
      rw (e, colon, before_last_colon) refl,
    )
    | inr other ↦ inl ((other, h), rw (e, other, before_last_colon) refl)
  ]
]

or_whole-WithoutPort : (addr : String) → WithoutPort addr (or_whole addr (before_last_colon addr))
or_whole-WithoutPort addr = elim (last_colon-cases addr) [
  | inl (h, e) ↦ rw e (WithoutPort.whole h)
  | inr (base, w, e) ↦ rw e w
]

WithoutPort-or_whole :
    (addr base : String) → WithoutPort addr base → or_whole addr (before_last_colon addr) ≡ base
WithoutPort-or_whole addr base (WithoutPort.whole h) =
    ap (or_whole addr) (before_last_colon-IsColonless addr h)
WithoutPort-or_whole addr base (WithoutPort.before c port h p q) =
    ap (λ t. or_whole addr (before_last_colon t)) q
    ∙ ap (or_whole addr) (before_last_colon-append base c port h p)

-- A host name that begins with one of these, or is one of these.
abbrev pub IsLocalHost : String → Type 0
IsLocalHost host =
    (host ≡ "localhost") ⊎ (host ≡ "::1") ⊎ IsPrefix "127." host ⊎ IsPrefix "::ffff:127." host

drop_bytes-append : (s t : String) → drop_bytes (len s) (s <> t) ≡ t
drop_bytes-append s t = rw (len-append s t) (slice-append_right s t)

-- The text after "::ffff:".
drop-mapped : (h r : String) → "::ffff:" <> r ≡ h → drop_bytes 7 h ≡ r
drop-mapped h r q = ap (drop_bytes 7) (sym q) ∙ drop_bytes-append "::ffff:" r

mapped-append :
    (h : String)
    → IsPrefix "::ffff:" h
    → IsPrefix "127." (drop_bytes 7 h)
    → IsPrefix "::ffff:127." h
mapped-append h (r, q) (u, k) =
    (u, append_assoc "::ffff:" "127." u ∙ ap (λ t. "::ffff:" <> t) (k ∙ drop-mapped h r q) ∙ q)

mapped-IsPrefix :
    (h : String)
    → IsPrefix "::ffff:" h
    → (starts_with (drop_bytes 7 h) "127." || str_eq (drop_bytes 7 h) "127.0.0.1") ≡ true
    → IsPrefix "::ffff:127." h
mapped-IsPrefix h x e = elim (Bool-cases (starts_with (drop_bytes 7 h) "127.")) [
  | inl p ↦ mapped-append h x ((starts_with_iff (drop_bytes 7 h) "127.").0 p)
  | inr p ↦
      mapped-append h x
        ("0.0.1", sym ((eq_iff (drop_bytes 7 h) "127.0.0.1").0 (ground (arith, e, p))))
]

is_loopback_host-IsLocalHost : (h : String) → is_loopback_host h ≡ true → IsLocalHost h
unfolding is_loopback_host
is_loopback_host-IsLocalHost h e = elim (Bool-cases (str_eq h "localhost")) [
  | inl p ↦ inl ((eq_iff h "localhost").0 p)
  | inr p ↦ elim (Bool-cases (str_eq h "::1")) [
    | inl q ↦ inr (inl ((eq_iff h "::1").0 q))
    | inr q ↦ elim (Bool-cases (str_eq h "127.0.0.1")) [
      | inl r ↦
          inr
            (inr (inl (subst (IsPrefix "127.") (sym ((eq_iff h "127.0.0.1").0 r)) ("0.0.1", refl))))
      | inr r ↦ elim (Bool-cases (starts_with h "127.")) [
        | inl t ↦ inr (inr (inl ((starts_with_iff h "127.").0 t)))
        | inr t ↦ elim (Bool-cases (starts_with h "::ffff:")) [
          | inl u ↦ inr (
              inr (
                inr (
                  mapped-IsPrefix h ((starts_with_iff h "::ffff:").0 u)
                    (ground (arith, e, p, q, r, t, u)))))
          | inr u ↦ absurd (ground (arith, e, p, q, r, t, u))
        ]
      ]
    ]
  ]
]

starts-mapped :
    (h : String)
    → IsPrefix "::ffff:127." h
    → (starts_with h "::ffff:" ≡ true) × (starts_with (drop_bytes 7 h) "127." ≡ true)
starts-mapped h (u, q) =
    let same : "::ffff:" <> ("127." <> u) ≡ h = sym (append_assoc "::ffff:" "127." u) ∙ q in
    (
      (starts_with_iff h "::ffff:").1 ("127." <> u, same),
      (starts_with_iff (drop_bytes 7 h) "127.").1 (u, sym (drop-mapped h ("127." <> u) same)),
    )

IsLocalHost-is_loopback_host : (h : String) → IsLocalHost h → is_loopback_host h ≡ true
unfolding is_loopback_host
IsLocalHost-is_loopback_host h (inl e) = rw e refl
IsLocalHost-is_loopback_host h (inr (inl e)) = rw e refl
IsLocalHost-is_loopback_host h (inr (inr (inl x))) = ground (arith, (starts_with_iff h "127.").1 x)
IsLocalHost-is_loopback_host h (inr (inr (inr x))) = ground (arith, starts-mapped h x)

-- An address whose host, without its port and without the brackets of an IPv6 address, is local.
pub record IsLocal (addr : String) : Type 0 where
  pub base : String
  pub without_port : WithoutPort addr base
  pub local_host : IsLocalHost (trim_suffix (trim_prefix base "[") "]")

pub is_loopback_address_iff : (addr : String) → (is_loopback_address addr ≡ true) ↔ IsLocal addr
unfolding is_loopback_address host_of
is_loopback_address_iff addr = (
  (λ e. record {
    base = or_whole addr (before_last_colon addr);
    without_port = or_whole-WithoutPort addr;
    local_host = is_loopback_host-IsLocalHost _ e;
  }),
  (λ h.
      ap (λ b. is_loopback_host (trim_suffix (trim_prefix b "[") "]"))
        (WithoutPort-or_whole addr h.base h.without_port)
      ∙ IsLocalHost-is_loopback_host _ h.local_host),
)
