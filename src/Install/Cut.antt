-- ===== src/Install/Cut.antt =====
-- strings.Index with the slices on both sides of what it finds, and newlines at the ends of a text.
pub mod Lines
use opencode_advance.Prelude.{
  ℕ, String, Bool, true, false, ◌&&◌, Option, none, some, ◌==◌, is_blank, starts_with, drop_bytes,
  if◌then◌else◌,
}
use Prim.Native.String.{len}
use Prim.Native.Char.{Char, code}

abbrev pub is_newline : Char → Bool
is_newline c = code c == 10

abbrev pub put_before : Char → Option (String × String) → Option (String × String)
put_before c none = none
put_before c (some (before, after)) = some (String.◌∷◌ c before, after)

-- At i = strings.Index(s, t) with t not empty: s[:i] and s[i+len(t):].
unfoldable pub cut : String → String → Option (String × String)
cut t String.[] = none
cut t (String.◌∷◌ c s) =
    let later = cut t s in
    if starts_with (String.◌∷◌ c s) t
    then some ("", drop_bytes (len t) (String.◌∷◌ c s))
    else put_before c later

-- strings.HasSuffix(s, "\n")
unfoldable pub ends_in_newline : String → Bool
ends_in_newline String.[] = false
ends_in_newline (String.◌∷◌ c String.[]) = is_newline c
ends_in_newline (String.◌∷◌ c (String.◌∷◌ d s)) = ends_in_newline (String.◌∷◌ d s)

-- strings.TrimRight(s, "\n")
unfoldable pub trim_newlines : String → String
trim_newlines String.[] = String.[]
trim_newlines (String.◌∷◌ c s) =
    let rest = trim_newlines s in
    if is_blank rest && is_newline c then String.[] else String.◌∷◌ c rest

-- The text after a newline at its start, if there is one.
abbrev pub drop_newline : String → String
drop_newline String.[] = String.[]
drop_newline (String.◌∷◌ c s) = if is_newline c then s else String.◌∷◌ c s
