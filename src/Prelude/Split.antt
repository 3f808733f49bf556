-- ===== src/Prelude/Split.antt =====
-- Go's strings.TrimSpace, and strings.Split at "\n" and at "\n\n".
use Prim.Native.String.{String}
use Prim.Native.Char.{Char, code}
use mathlib.Core.Path.{◌≡◌, refl}
use mathlib.Core.Bool.{Bool, ◌&&◌, ◌||◌}
use mathlib.Core.List.{List, [], ◌∷◌}
use opencode_advance.Prelude.Tests.{leb, ◌==◌, if◌then◌else◌}
use opencode_advance.Prelude.Text.{is_blank}

-- unicode.IsSpace
abbrev is_space : Char → Bool
is_space c =
    let n = code c in
    (leb 9 n && leb n 13)
    || ((n == 32)
        || ((n == 133)
            || ((n == 160)
                || ((n == 5760)
                    || ((leb 8192 n && leb n 8202)
                        || ((n == 8232)
                            || ((n == 8233) || ((n == 8239) || ((n == 8287) || (n == 12288))))))))))

trim_start : String → String
trim_start String.[] = String.[]
trim_start (String.◌∷◌ c s) = let rest = trim_start s in if is_space c then rest else String.◌∷◌ c s

trim_end : String → String
trim_end String.[] = String.[]
trim_end (String.◌∷◌ c s) =
    let rest = trim_end s in if is_blank rest && is_space c then String.[] else String.◌∷◌ c rest

unfoldable pub trim_space : String → String
unfolding trim_start trim_end
trim_space s = trim_end (trim_start s)

-- The first piece with a character in front.
abbrev pub put_first : Char → List String → List String
put_first c [] = String.◌∷◌ c String.[] ∷ []
put_first c (piece ∷ pieces) = String.◌∷◌ c piece ∷ pieces

abbrev is_newline : Char → Bool
is_newline c = code c == 10

-- strings.Split(s, "\n")
unfoldable pub split_lines : String → List String
split_lines String.[] = String.[] ∷ []
split_lines (String.◌∷◌ c s) =
    let pieces = split_lines s in if is_newline c then String.[] ∷ pieces else put_first c pieces

-- strings.Split(s, "\n\n")
unfoldable pub split_blocks : String → List String
split_blocks String.[] = String.[] ∷ []
split_blocks (String.◌∷◌ c String.[]) = String.◌∷◌ c String.[] ∷ []
split_blocks (String.◌∷◌ c (String.◌∷◌ d s)) =
    let after = split_blocks s in
    let next = split_blocks (String.◌∷◌ d s) in
    if is_newline c && is_newline d then String.[] ∷ after else put_first c next

split_runs :
    (split_blocks "a\n\nb\nc" ≡ "a" ∷ "b\nc" ∷ [])
    × (split_lines "b\nc" ≡ "b" ∷ "c" ∷ [])
    × (trim_space " a b\n" ≡ "a b")
unfolding split_blocks split_lines trim_space
split_runs = (refl, refl, refl)
