-- ===== src/Config/Servers/Duration.antt =====
-- `time.ParseDuration`, as far as `validateMCPServers` relies on it: a sign, then numbers with a
-- fraction and a unit, in nanoseconds. A fraction is computed exactly and rounded down, where Go
-- goes through float64. `none` is an error.
use Prim.Native.Char.{code}
use opencode_advance.Prelude.{
  ℕ, zero, suc, ◌+◌, ◌-◌, ◌*◌, ◌/◌, ◌^◌, ◌≡◌, refl, ℤ, pos, negsuc, String, Bool, true, false, ◌&&◌,
  ◌||◌, not, Option, none, some, List, [], ◌∷◌, ltb, leb, ◌==◌, if◌then◌else◌, length,
}

-- The code points of a text.
abbrev pub code_points : String → List ℕ
code_points String.[] = []
code_points (String.◌∷◌ first rest) = code first ∷ code_points rest

is_digit : ℕ → Bool
is_digit c = leb 48 c && leb c 57

-- leadingInt: `none` is the overflow.
leading_int : ℕ → List ℕ → Option (ℕ × List ℕ)
leading_int x [] = some (x, [])
leading_int x (c ∷ s) =
    let x' = x * 10 + (c - 48) in
    let rest = leading_int x' s in
    if not (is_digit c)
    then some (x, c ∷ s)
    else if ltb (2 ^ 63 / 10) x || ltb (2 ^ 63) x'
    then none
    else rest

-- leadingFraction: the digits read, the power of ten below them, and the rest. After an overflow
-- the digits are skipped.
leading_fraction : Bool → ℕ → ℕ → List ℕ → ℕ × ℕ × List ℕ
leading_fraction overflow x scale [] = (x, scale, [])
leading_fraction overflow x scale (c ∷ s) =
    let y = x * 10 + (c - 48) in
    let full = overflow || (ltb ((2 ^ 63 - 1) / 10) x || ltb (2 ^ 63) y) in
    let rest =
      leading_fraction full (if full then x else y) (if full then scale else scale * 10) s in
    if not (is_digit c) then (x, scale, c ∷ s) else rest

-- Up to the next dot or digit.
take_unit : List ℕ → List ℕ × List ℕ
take_unit [] = ([], [])
take_unit (c ∷ s) =
    let (u, rest) = take_unit s in if (c == 46) || is_digit c then ([], c ∷ s) else (c ∷ u, rest)

same_codes : List ℕ → List ℕ → Bool
same_codes [] [] = true
same_codes (a ∷ s) (b ∷ t) = (a == b) && same_codes s t
same_codes _ _ = false

-- unitMap
unit_of : List ℕ → Option ℕ
unfolding same_codes
unit_of u =
    if same_codes u (code_points "ns")
    then some 1
    else if same_codes u (code_points "us")
        || (same_codes u (181 ∷ 115 ∷ []) || same_codes u (956 ∷ 115 ∷ []))
    then some 1000
    else if same_codes u (code_points "ms")
    then some 1000000
    else if same_codes u (code_points "s")
    then some 1000000000
    else if same_codes u (code_points "m")
    then some 60000000000
    else if same_codes u (code_points "h")
    then some 3600000000000
    else none

-- The fraction behind a dot, if there is one: whether digits were read, the digits, the scale.
fraction : List ℕ → Bool × ℕ × ℕ × List ℕ
unfolding leading_fraction
fraction [] = (false, 0, 1, [])
fraction (c ∷ s) =
    let (f, scale, rest) = leading_fraction false 0 1 s in
    if c == 46 then (ltb (length rest) (length s), f, scale, rest) else (false, 0, 1, c ∷ s)

-- One component: its value and the rest of the text.
component : List ℕ → Option (ℕ × List ℕ)
unfolding leading_int fraction take_unit unit_of
component s = elim (leading_int 0 s) [
  | none ↦ none
  | some (v, s1) ↦
      let (post, f, scale, s2) = fraction s1 in
      let (u, s3) = take_unit s2 in
      if not (ltb (length s1) (length s)) && not post then none else elim (unit_of u) [
        | none ↦ none
        | some unit ↦
            let total = v * unit + f * unit / scale in
            if ltb (2 ^ 63 / unit) v || ltb (2 ^ 63) total then none else some (total, s3)
      ]
]

-- The loop `for s != ""`; each round reads at least one character.
components : ℕ → ℕ → List ℕ → Option ℕ
components fuel d [] = some d
components zero d (c ∷ s) = none
components (suc fuel) d (c ∷ s) = elim (component (c ∷ s)) [
  | none ↦ none
  | some (v, rest) ↦ if ltb (2 ^ 63) (d + v) then none else components fuel (d + v) rest
]

negate : ℕ → ℤ
negate zero = pos 0
negate (suc n) = negsuc n

signed : Bool → Option ℕ → Option ℤ
signed neg none = none
signed neg (some d) =
    if neg then some (negate d) else if ltb (2 ^ 63 - 1) d then none else some (pos d)

after_sign : Bool → List ℕ → Option ℤ
unfolding components component signed negate
after_sign neg [] = none
after_sign neg (c ∷ s) =
    if (c == 48) && (length s == 0)
    then some (pos 0)
    else signed neg (components (suc (length s)) 0 (c ∷ s))

unfoldable pub parse_duration : String → Option ℤ
unfolding after_sign is_digit
parse_duration text = go (code_points text)
  where
    go : List ℕ → Option ℤ
    go [] = none
    go (c ∷ s) =
        if c == 45
        then after_sign true s
        else if c == 43
        then after_sign false s
        else after_sign false (c ∷ s)

parse_duration_runs :
    (parse_duration "1h30m" ≡ some (pos 5400000000000))
    × (parse_duration "-1.5s" ≡ some (negsuc 1499999999))
    × (parse_duration "0" ≡ some (pos 0))
    × (parse_duration "10" ≡ none)
unfolding parse_duration
parse_duration_runs = (refl, refl, refl, refl)
