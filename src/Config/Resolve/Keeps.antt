-- ===== src/Config/Resolve/Keeps.antt =====
-- What expansion leaves as it is.
use opencode_advance.Prelude.{
  zero, String, Bool, true, false, ◌≡◌, refl, sym, ap, ◌∙◌, Option, none, some, arith, inl, inr,
  Bool-cases, ◌==◌, ◌<>◌, is_blank, starts_with, if◌then◌else◌,
}
use opencode_advance.Config.Expand.{
  Env, Matcher, rewrite, token_at, replace_all, expand_home_with, expand_xdg, env_var_at,
  expand_env, expand_home, expand_all,
}
use Prim.Native.Char.{Char, code}
use text.Mathlib.TextEquality.{starts_with_iff}
use text.Mathlib.TextLemmas.{cons-append, cons-eq-cons, cons≢nil}

-- The text has no dollar sign.
abbrev pub IsPlain : String → Type 0
IsPlain String.[] = Unit
IsPlain (String.◌∷◌ c s) = ((code c == 36) ≡ false) × IsPlain s

rewrite_keeps :
    (match : Matcher)
    → ((t : String) → IsPlain t → match t ≡ none)
    → (s : String) → IsPlain s
    → rewrite match zero s ≡ s
unfolding rewrite
rewrite_keeps match h String.[] p = refl
rewrite_keeps match h (String.◌∷◌ c s) p =
    rw (h (String.◌∷◌ c s) p, rewrite) (ap (λ t. String.◌∷◌ c t) (rewrite_keeps match h s p.1))

starts_with-dollar :
    (d : Char) (n t : String)
    → (code d == 36) ≡ true
    → IsPlain t
    → starts_with t (String.◌∷◌ d n) ≡ false
starts_with-dollar d n t dollar p = elim (Bool-cases (starts_with t (String.◌∷◌ d n))) [
  | inr e ↦ e
  | inl e ↦
      let (r, q) = (starts_with_iff t (String.◌∷◌ d n)).0 e in
      absurd (no_dollar t r p (sym (cons-append d n r) ∙ q))
]
  where
    no_dollar : (u r : String) → IsPlain u → String.◌∷◌ d (n <> r) ≡ u → ⊥
    no_dollar String.[] r h e = cons≢nil e
    no_dollar (String.◌∷◌ c u) r h e =
        ground (arith, dollar, sym (ap (λ x. code x == 36) (cons-eq-cons.0 e).0), h.0)

replace_all_keeps : (n value s : String) → IsPlain s → replace_all (String.◌∷◌ "$" n) value s ≡ s
replace_all_keeps n value s p =
    rewrite_keeps (token_at (String.◌∷◌ "$" n) value)
      (λ t q. rw (starts_with-dollar "$" n t refl q)) s p

env_var_at-plain : (env : Env) (t : String) → IsPlain t → env_var_at env t ≡ none
unfolding env_var_at
env_var_at-plain env String.[] p = refl
env_var_at-plain env (String.◌∷◌ c String.[]) p = refl
env_var_at-plain env (String.◌∷◌ c (String.◌∷◌ d rest)) p = rw p.0

if-same : (b : Bool) (x y s : String) → x ≡ s → y ≡ s → (if b then x else y) ≡ s
if-same true x y s p q = p
if-same false x y s p q = q

expand_home_with_keeps :
    (home : Option String) (s : String)
    → IsPlain s
    → starts_with s "~/" ≡ false
    → expand_home_with home s ≡ s
expand_home_with_keeps none s p h = refl
expand_home_with_keeps (some home) s p h =
    if-same (is_blank home) s _ s refl (rw h (replace_all_keeps "HOME" home s p))

expand_config_home_keeps :
    (env : Env) (s : String) → IsPlain s → expand_xdg env "XDG_CONFIG_HOME" ".config" s ≡ s
unfolding expand_xdg
expand_config_home_keeps env s p = if-same _ s _ s refl (replace_all_keeps "XDG_CONFIG_HOME" _ s p)

expand_data_home_keeps :
    (env : Env) (s : String) → IsPlain s → expand_xdg env "XDG_DATA_HOME" ".local/share" s ≡ s
unfolding expand_xdg
expand_data_home_keeps env s p = if-same _ s _ s refl (replace_all_keeps "XDG_DATA_HOME" _ s p)

expand_env_keeps : (env : Env) (s : String) → IsPlain s → expand_env env s ≡ s
unfolding expand_env
expand_env_keeps env s p =
    ap (λ t. rewrite (env_var_at env) zero (expand_xdg env "XDG_DATA_HOME" ".local/share" t))
      (expand_config_home_keeps env s p)
    ∙ ap (rewrite (env_var_at env) zero) (expand_data_home_keeps env s p)
    ∙ rewrite_keeps (env_var_at env) (env_var_at-plain env) s p

-- A text without a dollar sign that does not begin with ~/ is left as it is, whatever the
-- environment: so are the tokens {env:...} and {file:...} of OpenCode in it.
pub expand_all_keeps :
    (env : Env) (s : String) → IsPlain s → starts_with s "~/" ≡ false → expand_all env s ≡ s
unfolding expand_all expand_home
expand_all_keeps env s p h =
    if-same (is_blank s) s _ s refl
      (ap (expand_env env) (expand_home_with_keeps env.home s p h) ∙ expand_env_keeps env s p)
