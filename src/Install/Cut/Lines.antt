-- ===== src/Install/Cut/Lines.antt =====
-- Where a text without newlines is found in a text of several lines.
use opencode_advance.Prelude.{
  String, Bool, true, false, not, ◌&&◌, ◌≡◌, refl, sym, ap, subst, ◌∙◌, Option, none, some, inl,
  inr, arith, Bool-cases, ◌<>◌, starts_with, drop_bytes, if◌then◌else◌,
}
use opencode_advance.Install.Cut.{is_newline, put_before, cut, ends_in_newline, trim_newlines}
use Prim.Native.String.{len, slice}
use Prim.Native.Char.{Char}
use text.Mathlib.TextEquality.{starts_with_iff}
use text.Mathlib.TextPositions.{starts_with-append, slice-append_right, len-append}
use text.Mathlib.TextLemmas.{append_assoc, nil-append, cons-append, cons-eq-cons}
use text.Mathlib.TextBridge.{IsPrefix}

-- No character of the text is a newline.
abbrev pub IsLine : String → Type 0
IsLine String.[] = Unit
IsLine (String.◌∷◌ c s) = (is_newline c ≡ false) × IsLine s

-- A line at the start of a text with a newline in it ends before the newline.
IsPrefix-line :
    (n x y r : String) (b : Char)
    → is_newline b ≡ true
    → IsLine n
    → n <> r ≡ x <> String.◌∷◌ b y
    → IsPrefix n x
IsPrefix-line String.[] x y r b nl l e = (x, nil-append x)
IsPrefix-line (String.◌∷◌ k n) String.[] y r b nl l e =
    let p = cons-eq-cons.0 (sym (cons-append k n r) ∙ e ∙ nil-append (String.◌∷◌ b y)) in
    absurd (ground (arith, sym (ap is_newline p.0) ∙ l.0, nl))
IsPrefix-line (String.◌∷◌ k n) (String.◌∷◌ c x) y r b nl l e =
    let p = cons-eq-cons.0 (sym (cons-append k n r) ∙ e ∙ cons-append c x (String.◌∷◌ b y)) in
    let rest = IsPrefix-line n x y r b nl l.1 p.1 in
    (
      rest.0,
      cons-append k n rest.0 ∙ ap (λ s. String.◌∷◌ k s) rest.1 ∙ ap (λ d. String.◌∷◌ d x) p.0,
    )

starts_with-line :
    (n x y : String) (b : Char)
    → is_newline b ≡ true
    → IsLine n
    → starts_with x n ≡ false
    → starts_with (x <> String.◌∷◌ b y) n ≡ false
starts_with-line n x y b nl l h = elim (Bool-cases (starts_with (x <> String.◌∷◌ b y) n)) [
  | inr e ↦ e
  | inl e ↦
      let p = (starts_with_iff (x <> String.◌∷◌ b y) n).0 e in
      let q = (starts_with_iff x n).1 (IsPrefix-line n x y p.0 b nl l p.1) in
      absurd (ground (arith, q, h))
]

-- A line that does not begin with a newline is not found at one.
starts_with-newline :
    (k : Char) (n y : String) (b : Char)
    → is_newline b ≡ true
    → is_newline k ≡ false
    → starts_with (String.◌∷◌ b y) (String.◌∷◌ k n) ≡ false
starts_with-newline k n y b nl l =
    elim (Bool-cases (starts_with (String.◌∷◌ b y) (String.◌∷◌ k n))) [
      | inr e ↦ e
      | inl e ↦
          let p = (starts_with_iff (String.◌∷◌ b y) (String.◌∷◌ k n)).0 e in
          let q = cons-eq-cons.0 (sym (cons-append k n p.0) ∙ p.1) in
          absurd (ground (arith, sym (ap is_newline q.0) ∙ l, nl))
    ]

abbrev pub after_text : String → Option (String × String) → Option (String × String)
after_text x none = none
after_text x (some (before, after)) = some (x <> before, after)

put_before-after_text :
    (c : Char) (x : String) (r : Option (String × String))
    → put_before c (after_text x r) ≡ after_text (String.◌∷◌ c x) r
put_before-after_text c x none = refl
put_before-after_text c x (some (before, after)) =
    ap (λ s. some (s, after)) (sym (cons-append c x before))

after_text-nil :
    (b : Char) (r : Option (String × String))
    → put_before b r ≡ after_text (String.◌∷◌ b String.[]) r
after_text-nil b none = refl
after_text-nil b (some (before, after)) =
    ap (λ s. some (s, after))
      (sym (cons-append b String.[] before ∙ ap (λ s. String.◌∷◌ b s) (nil-append before)))

-- What a text without the needle says of its parts.
record Misses (t : String) (c : Char) (s : String) : Type 0 where
  pub here : starts_with (String.◌∷◌ c s) t ≡ false
  pub later : cut t s ≡ none

put_before-none : (c : Char) (r : Option (String × String)) → put_before c r ≡ none → r ≡ none
put_before-none c none e = refl
put_before-none c (some (before, after)) e = absurd (ground (arith, e))

if-none :
    (b : Bool) (v : String × String) (r : Option (String × String))
    → (if b then some v else r) ≡ none
    → (b ≡ false) × (r ≡ none)
if-none true v r e = absurd (ground (arith, e))
if-none false v r e = (refl, e)

cut-Misses : (t : String) (c : Char) (s : String) → cut t (String.◌∷◌ c s) ≡ none → Misses t c s
unfolding cut
cut-Misses t c s e =
    let p =
      if-none (starts_with (String.◌∷◌ c s) t) ("", drop_bytes (len t) (String.◌∷◌ c s))
        (put_before c (cut t s)) e in
    record { here = p.0; later = put_before-none c (cut t s) p.1 }

-- Where a line is not in a text, in that text with a newline and more it is found in what follows.
pub cut-line :
    (k : Char) (n x y : String) (b : Char)
    → is_newline b ≡ true
    → IsLine (String.◌∷◌ k n)
    → cut (String.◌∷◌ k n) x ≡ none
    → cut (String.◌∷◌ k n) (x <> String.◌∷◌ b y)
      ≡ after_text (x <> String.◌∷◌ b String.[]) (cut (String.◌∷◌ k n) y)
unfolding cut
cut-line k n String.[] y b nl l h =
    rw
      (
        nil-append (String.◌∷◌ b y),
        nil-append (String.◌∷◌ b String.[]),
        starts_with-newline k n y b nl l.0,
      )
      (after_text-nil b (cut (String.◌∷◌ k n) y))
cut-line k n (String.◌∷◌ c x) y b nl l h =
    let m = cut-Misses (String.◌∷◌ k n) c x h in
    let t = starts_with-line (String.◌∷◌ k n) (String.◌∷◌ c x) y b nl l m.here in
    let t' : starts_with (String.◌∷◌ c (x <> String.◌∷◌ b y)) (String.◌∷◌ k n) ≡ false =
      subst (λ s. starts_with s (String.◌∷◌ k n) ≡ false) (cons-append c x (String.◌∷◌ b y)) t in
    rw (cons-append c x (String.◌∷◌ b y), t', cons-append c x (String.◌∷◌ b String.[]))
      (ap (put_before c) (cut-line k n x y b nl l m.later)
        ∙ put_before-after_text c (x <> String.◌∷◌ b String.[]) (cut (String.◌∷◌ k n) y))

-- It is found where it stands first.
pub cut-here : (k : Char) (n y : String) → cut (String.◌∷◌ k n) (String.◌∷◌ k n <> y) ≡ some ("", y)
unfolding cut
cut-here k n y =
    let t : starts_with (String.◌∷◌ k (n <> y)) (String.◌∷◌ k n) ≡ true =
      subst (λ s. starts_with s (String.◌∷◌ k n) ≡ true) (cons-append k n y)
        (starts_with-append (String.◌∷◌ k n) y) in
    let d : drop_bytes (len (String.◌∷◌ k n)) (String.◌∷◌ k n <> y) ≡ y =
      ap (slice (String.◌∷◌ k n <> y) (len (String.◌∷◌ k n))) (len-append (String.◌∷◌ k n) y)
      ∙ slice-append_right (String.◌∷◌ k n) y in
    let d' : drop_bytes (len (String.◌∷◌ k n)) (String.◌∷◌ k (n <> y)) ≡ y =
      subst (λ s. drop_bytes (len (String.◌∷◌ k n)) s ≡ y) (cons-append k n y) d in
    rw (cons-append k n y, t) (ap (λ s. some ("", s)) d')

-- A text that is in no longer text.
pub cut-left : (t x y : String) → cut t (x <> y) ≡ none → cut t x ≡ none
unfolding cut
cut-left t String.[] y h = refl
cut-left t (String.◌∷◌ c x) y h =
    let m = cut-Misses t c (x <> y) (sym (ap (cut t) (cons-append c x y)) ∙ h) in
    elim (Bool-cases (starts_with (String.◌∷◌ c x) t)) [
      | inl e ↦
          let p = (starts_with_iff (String.◌∷◌ c x) t).0 e in
          let q : t <> (p.0 <> y) ≡ String.◌∷◌ c (x <> y) =
            sym (append_assoc t p.0 y) ∙ ap (λ s. s <> y) p.1 ∙ cons-append c x y in
          absurd
            (ground (arith, (starts_with_iff (String.◌∷◌ c (x <> y)) t).1 (p.0 <> y, q), m.here))
      | inr e ↦ rw (e, cut-left t x y m.later)
    ]

-- A text and a newline.
pub record IsEnded (s : String) : Type 0 where
  pub text : String
  pub last : Char
  pub newline : is_newline last ≡ true
  pub whole : text <> String.◌∷◌ last String.[] ≡ s

pub ends_in_newline-IsEnded : (s : String) → ends_in_newline s ≡ true → IsEnded s
unfolding ends_in_newline
ends_in_newline-IsEnded String.[] e = absurd (ground (arith, e))
ends_in_newline-IsEnded (String.◌∷◌ c String.[]) e = record {
  text = "";
  last = c;
  newline = e;
  whole = nil-append (String.◌∷◌ c String.[]);
}
ends_in_newline-IsEnded (String.◌∷◌ c (String.◌∷◌ d s)) e =
    let h = ends_in_newline-IsEnded (String.◌∷◌ d s) e in
    record {
      text = String.◌∷◌ c h.text;
      last = h.last;
      newline = h.newline;
      whole = cons-append c h.text (String.◌∷◌ h.last String.[]) ∙ ap (λ t. String.◌∷◌ c t) h.whole;
    }

-- A newline at the end is trimmed.
pub trim_newlines-newline :
    (x : String) (b : Char)
    → is_newline b ≡ true
    → trim_newlines (x <> String.◌∷◌ b String.[]) ≡ trim_newlines x
unfolding trim_newlines
trim_newlines-newline String.[] b nl = rw (nil-append (String.◌∷◌ b String.[]), nl)
trim_newlines-newline (String.◌∷◌ c x) b nl =
    rw (cons-append c x (String.◌∷◌ b String.[]), trim_newlines-newline x b nl)

abbrev pub is_line : String → Bool
is_line String.[] = true
is_line (String.◌∷◌ c s) = not (is_newline c) && is_line s

pub is_line-IsLine : (s : String) → is_line s ≡ true → IsLine s
is_line-IsLine String.[] e = tt
is_line-IsLine (String.◌∷◌ c s) e = (ground (arith, e), is_line-IsLine s (ground (arith, e)))
