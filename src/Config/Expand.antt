-- ===== src/Config/Expand.antt =====
-- internal/config/resolve.go: the tokens $HOME, ~/, $XDG_..., ${VAR} and ${VAR:-default} in a text.
use opencode_advance.Prelude.{
  ℕ, zero, suc, ◌+◌, ◌-◌, String, Bool, ◌&&◌, ◌||◌, not, Option, none, some, is_blank, starts_with,
  contains_text, drop_bytes, ◌<>◌, ◌==◌, if◌then◌else◌,
}
use Prim.Native.String.{count}
use Prim.Native.Char.{Char, code}

-- os.UserHomeDir, where none is its error, and os.LookupEnv.
pub record Env : Type 0 where
  pub home : Option String
  pub lookup_env : String → Option String

-- What a pattern finds at the start of a text: one less than the number of characters that it takes,
-- and what stands in their place.
abbrev pub Matcher : Type 0
Matcher = String → Option (ℕ × String)

-- The replacement of all matches, from left to right; the first `skip` characters are taken already.
unfoldable pub rewrite : Matcher → ℕ → String → String
rewrite match skip String.[] = String.[]
rewrite match (suc skip) (String.◌∷◌ c s) = rewrite match skip s
rewrite match zero (String.◌∷◌ c s) = elim (match (String.◌∷◌ c s)) [
  | none ↦ String.◌∷◌ c (rewrite match zero s)
  | some (taken, r) ↦ r <> rewrite match taken s
]

-- The pattern of strings.ReplaceAll(s, token, value), of a token that is not empty.
abbrev pub token_at : String → String → Matcher
token_at token value s = if starts_with s token then some (count token - 1, value) else none

abbrev pub replace_all : String → String → String → String
replace_all token value s = rewrite (token_at token value) zero s

abbrev pub expand_tilde : String → String → String
expand_tilde home s = if starts_with s "~/" then home <> drop_bytes 1 s else s

abbrev pub expand_home_with : Option String → String → String
expand_home_with none s = s
expand_home_with (some home) s =
    if is_blank home then s else replace_all "$HOME" home (expand_tilde home s)

abbrev getenv : Option String → String
getenv none = ""
getenv (some value) = value

abbrev home_fallback : Option String → String → String
home_fallback none fallback = ""
home_fallback (some home) fallback = if is_blank home then "" else home <> ("/" <> fallback)

-- func expandXDG
unfoldable pub expand_xdg : Env → String → String → String → String
unfolding rewrite
expand_xdg env var_name fallback s =
    let value = getenv (env.lookup_env var_name) in
    let token = "$" <> var_name in
    if not (contains_text s token)
    then s
    else replace_all token (if is_blank value then home_fallback env.home fallback else value) s

-- The text up to a character, and the rest from it on.
unfoldable pub span_until : (Char → Bool) → String → String × String
span_until stop String.[] = (String.[], String.[])
span_until stop (String.◌∷◌ c s) =
    let (before, rest) = span_until stop s in
    if stop c then (String.[], String.◌∷◌ c s) else (String.◌∷◌ c before, rest)

abbrev pub is_close : Char → Bool
is_close c = code c == 125

abbrev is_colon : Char → Bool
is_colon c = code c == 58

abbrev value_or : Option String → String → String
value_or none default = default
value_or (some value) default = value

-- After the default of ${name:-default}.
abbrev after_default : Env → String → String × String → Option (ℕ × String)
after_default env name (default, String.[]) = none
after_default env name (default, String.◌∷◌ c rest) =
    some (count name + count default + 4, value_or (env.lookup_env name) default)

abbrev after_colon : Env → String → String → Option (ℕ × String)
after_colon env name String.[] = none
after_colon env name (String.◌∷◌ c rest) =
    if code c == 45 then after_default env name (span_until is_close rest) else none

abbrev after_name : Env → String × String → Option (ℕ × String)
after_name env (name, String.[]) = none
after_name env (name, String.◌∷◌ c rest) =
    if is_blank name
    then none
    else if is_close c
    then some (count name + 2, value_or (env.lookup_env name) "")
    else after_colon env name rest

-- The pattern envVarPattern, with the replacement of expandEnv.
unfoldable pub env_var_at : Env → Matcher
unfolding span_until
env_var_at env String.[] = none
env_var_at env (String.◌∷◌ c String.[]) = none
env_var_at env (String.◌∷◌ c (String.◌∷◌ d rest)) =
    if (code c == 36) && (code d == 123)
    then after_name env (span_until (λ x. is_close x || is_colon x) rest)
    else none

-- func expandEnv
unfoldable pub expand_env : Env → String → String
unfolding rewrite env_var_at
expand_env env s =
    rewrite (env_var_at env) zero
      (expand_xdg env "XDG_DATA_HOME" ".local/share" (expand_xdg env "XDG_CONFIG_HOME" ".config" s))

-- func expandHome
unfoldable pub expand_home : Env → String → String
unfolding rewrite
expand_home env s = expand_home_with env.home s

-- func expandAll
unfoldable pub expand_all : Env → String → String
unfolding expand_home expand_env
expand_all env s = if is_blank s then s else expand_env env (expand_home env s)
