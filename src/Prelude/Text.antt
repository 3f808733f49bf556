-- ===== src/Prelude/Text.antt =====
-- Go strings, and the formatted messages of `fmt.Sprintf` as the format with its arguments.
use Prim.Native.Nat.{ℕ, zero, suc, ◌-◌, ◌/◌, ◌%◌}
use Prim.Native.String.{String, len, slice, ◌++◌ as string_append}
use mathlib.Core.Path.{◌≡◌, refl}
use mathlib.Core.Bool.{Bool, false, ◌&&◌}
use mathlib.Core.Logic.{inl, inr}
use Prim.Native.Char.{Char}
use text.Mathlib.TextEquality.{eq_iff}
use text.Mathlib.TextLemmas.{cons≢nil}
use mathlib.Core.List.{List}
use text.Mathlib.Text.{◌==◌ as str_eq, find?}
use opencode_advance.Prelude.Tests.{leb, ltb, ◌==◌, if◌then◌else◌, is_some, Bool-cases}
use opencode_advance.Prelude.Int.{ℤ}

-- s + t
infixr 65 ◌<>◌
abbrev pub ◌<>◌ : String → String → String
s <> t = string_append s t

-- s == ""
abbrev pub is_blank : String → Bool
is_blank s = str_eq s ""

pub is_blank-cons : (c : Char) (s : String) → is_blank (String.◌∷◌ c s) ≡ false
is_blank-cons c s = elim (Bool-cases (is_blank (String.◌∷◌ c s))) [
  | inr e ↦ e
  | inl e ↦ absurd (cons≢nil ((eq_iff (String.◌∷◌ c s) "").0 e))
]

-- strings.HasSuffix(s, t)
abbrev pub ends_with : String → String → Bool
ends_with s t = leb (len t) (len s) && str_eq (slice s (len s - len t) (len s)) t

-- strings.Contains(s, t)
abbrev pub contains_text : String → String → Bool
contains_text s t = is_some (find? s t)

-- s[:n] and s[n:]
abbrev pub take_bytes : ℕ → String → String
take_bytes n s = slice s 0 n

abbrev pub drop_bytes : ℕ → String → String
drop_bytes n s = slice s n (len s)

digit : ℕ → String
digit n =
    if n == 0
    then "0"
    else if n == 1
    then "1"
    else if n == 2
    then "2"
    else if n == 3
    then "3"
    else if n == 4
    then "4"
    else if n == 5
    then "5"
    else if n == 6
    then "6"
    else if n == 7
    then "7"
    else if n == 8
    then "8"
    else "9"

show_digits : ℕ → ℕ → String
unfolding digit
show_digits zero n = digit (n % 10)
show_digits (suc f) n =
    let more = show_digits f (n / 10) in if ltb n 10 then digit n else more <> digit (n % 10)

-- The verb %d at a number that is not negative.
unfoldable pub show : ℕ → String
unfolding show_digits
show n = show_digits n n

-- What a verb of a format stands for.
pub data Arg : Type 0 where
  int : ℤ → Arg
  str : String → Arg

-- A message: a constant text, or a format with its arguments, which is not rendered further.
pub data Message : Type 0 where
  literal : String → Message
  sprintf : String → List Arg → Message

show_runs : show 6325 ≡ "6325"
unfolding show
show_runs = refl
