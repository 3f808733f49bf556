-- ===== src/Install/Profile/Roundtrip.antt =====
-- What is written is read again, and removing it gives the file back.
use opencode_advance.Prelude.{
  String, Bool, true, false, ◌≡◌, refl, sym, ap, subst, ◌∙◌, none, some, inl, inr, arith,
  Bool-cases, eq_iff, ◌<>◌, is_blank, is_blank-cons, is_some, if◌then◌else◌, Result,
}
use opencode_advance.Install.Cut.{is_newline, cut, ends_in_newline, trim_newlines}
use opencode_advance.Install.Cut.Lines.{
  IsLine, after_text, cut-line, cut-here, cut-left, ends_in_newline-IsEnded, trim_newlines-newline,
  is_line-IsLine,
}
use opencode_advance.Install.Profile.{
  sentinel_start, sentinel_end, past_end, past_start, extract_block, marked, append_block,
  replace_or_append, replace_or_append_block, tidy, removed_to_end, removed, remove_text,
}
use Prim.Native.Char.{Char}
use text.Mathlib.TextLemmas.{append_assoc, append-nil, nil-append, cons-append}

sentinel_start-IsLine : IsLine sentinel_start
sentinel_start-IsLine = is_line-IsLine sentinel_start refl

sentinel_end-IsLine : IsLine sentinel_end
sentinel_end-IsLine = is_line-IsLine sentinel_end refl

newline-append : (y : String) → "\n" <> y ≡ String.◌∷◌ "\n" y
newline-append y = cons-append "\n" "" y ∙ ap (λ s. String.◌∷◌ "\n" s) (nil-append y)

-- What follows the start sentinel of a block at the end of a file.
abbrev body : String → String
body block = block <> String.◌∷◌ "\n" (sentinel_end <> "\n")

marked_newline :
    (block : String) → marked block <> "\n" ≡ sentinel_start <> String.◌∷◌ "\n" (body block)
marked_newline block =
    append_assoc sentinel_start ("\n" <> (block <> ("\n" <> sentinel_end))) "\n"
    ∙ ap (λ s. sentinel_start <> s)
        (append_assoc "\n" (block <> ("\n" <> sentinel_end)) "\n"
          ∙ newline-append ((block <> ("\n" <> sentinel_end)) <> "\n")
          ∙ ap (λ s. String.◌∷◌ "\n" s)
              (append_assoc block ("\n" <> sentinel_end) "\n"
                ∙ ap (λ s. block <> s)
                    (append_assoc "\n" sentinel_end "\n" ∙ newline-append (sentinel_end <> "\n"))))

cut_start-here : (y : String) → cut sentinel_start (sentinel_start <> y) ≡ some ("", y)
cut_start-here y = cut-here "#" " >>> OCA Managed Block >>>" y

cut_end-here : (y : String) → cut sentinel_end (sentinel_end <> y) ≡ some ("", y)
cut_end-here y = cut-here "#" " <<< OCA Managed Block <<<" y

after_text-here : (x y : String) → after_text x (some ("", y)) ≡ some (x, y)
after_text-here x y = ap (λ s. some (s, y)) (append-nil x)

-- The start sentinel after lines without one.
cut_start-after :
    (x y : String) (b : Char)
    → is_newline b ≡ true
    → cut sentinel_start x ≡ none
    → cut sentinel_start ((x <> String.◌∷◌ b "") <> (sentinel_start <> y))
      ≡ some (x <> String.◌∷◌ b "", y)
cut_start-after x y b nl h =
    ap (cut sentinel_start) (
      append_assoc x (String.◌∷◌ b "") (sentinel_start <> y)
      ∙ ap (λ s. x <> s)
          (cons-append b "" (sentinel_start <> y)
            ∙ ap (λ s. String.◌∷◌ b s) (nil-append (sentinel_start <> y))))
    ∙ cut-line "#" " >>> OCA Managed Block >>>" x (sentinel_start <> y) b nl sentinel_start-IsLine h
    ∙ ap (after_text (x <> String.◌∷◌ b "")) (cut_start-here y)
    ∙ after_text-here (x <> String.◌∷◌ b "") y

-- The end sentinel after the block.
cut_end-body :
    (block : String)
    → cut sentinel_end block ≡ none
    → cut sentinel_end (body block) ≡ some (block <> "\n", "\n")
cut_end-body block h =
    cut-line "#" " <<< OCA Managed Block <<<" block (sentinel_end <> "\n") "\n" refl
      sentinel_end-IsLine h
    ∙ ap (after_text (block <> "\n")) (cut_end-here "\n")
    ∙ after_text-here (block <> "\n") "\n"

start_without_end : cut sentinel_end sentinel_start ≡ none
unfolding cut
start_without_end = refl

newline_without_start : cut sentinel_start "\n" ≡ none
unfolding cut
newline_without_start = refl

-- The end sentinel from the start sentinel on.
cut_end-marked :
    (block : String)
    → cut sentinel_end block ≡ none
    → cut sentinel_end (sentinel_start <> String.◌∷◌ "\n" (body block))
      ≡ some ((sentinel_start <> "\n") <> (block <> "\n"), "\n")
cut_end-marked block h =
    cut-line "#" " <<< OCA Managed Block <<<" sentinel_start (body block) "\n" refl
      sentinel_end-IsLine start_without_end
    ∙ ap (after_text (sentinel_start <> "\n")) (cut_end-body block h)

-- The block stands after `before`, which is the content up to newlines at its end.
record IsPlaced (content block before : String) : Type 0 where
  pub found :
      cut sentinel_start (append_block content block) ≡ some (before, String.◌∷◌ "\n" (body block))
  pub kept : tidy before ≡ tidy content

IsPlaced-at_start : (block : String) → IsPlaced "" block ""
IsPlaced-at_start block = record {
  found =
      ap (cut sentinel_start) (marked_newline block)
      ∙ cut_start-here (String.◌∷◌ "\n" (body block));
  kept = refl;
}

if-true : (b : Bool) (x y : String) → b ≡ true → (if b then x else y) ≡ x
if-true true x y e = refl
if-true false x y e = absurd (ground (arith, e))

if-false : (b : Bool) (x y : String) → b ≡ false → (if b then x else y) ≡ y
if-false false x y e = refl
if-false true x y e = absurd (ground (arith, e))

IsPlaced-after_newline :
    (content block : String)
    → is_blank content ≡ false
    → ends_in_newline content ≡ true
    → cut sentinel_start content ≡ none
    → IsPlaced content block content
IsPlaced-after_newline content block full e h =
    let w = ends_in_newline-IsEnded content e in
    let n =
      cut-left sentinel_start w.text (String.◌∷◌ w.last "") (ap (cut sentinel_start) w.whole ∙ h) in
    let at = cut_start-after w.text (String.◌∷◌ "\n" (body block)) w.last w.newline n in
    record {
      found =
          ap (cut sentinel_start) (
            if-false (is_blank content) _ _ full
            ∙ if-true (ends_in_newline content) _ _ e
            ∙ ap (λ s. content <> s) (marked_newline block))
          ∙ subst
              (λ s.
                cut sentinel_start (s <> (sentinel_start <> String.◌∷◌ "\n" (body block)))
                ≡ some (s, String.◌∷◌ "\n" (body block)))
              w.whole at;
      kept = refl;
    }

is_blank-newline : (s : String) → is_blank s ≡ false → is_blank (s <> "\n") ≡ false
is_blank-newline String.[] e = absurd (ground (arith, e))
is_blank-newline (String.◌∷◌ c s) e = rw (cons-append c s "\n") (is_blank-cons c (s <> "\n"))

IsPlaced-after_line :
    (content block : String)
    → is_blank content ≡ false
    → ends_in_newline content ≡ false
    → cut sentinel_start content ≡ none
    → IsPlaced content block (content <> "\n")
IsPlaced-after_line content block full e h = record {
  found =
      ap (cut sentinel_start) (
        if-false (is_blank content) _ _ full
        ∙ if-false (ends_in_newline content) _ _ e
        ∙ ap (λ s. (content <> "\n") <> s) (marked_newline block))
      ∙ cut_start-after content (String.◌∷◌ "\n" (body block)) "\n" refl h;
  kept =
      if-false (is_blank (content <> "\n")) _ _ (is_blank-newline content full)
      ∙ ap (λ s. s <> "\n") (trim_newlines-newline content "\n" refl)
      ∙ sym (if-false (is_blank content) _ _ full);
}

record IsAppended (content block : String) : Type 0 where
  pub before : String
  pub placed : IsPlaced content block before

append_block-IsAppended :
    (content block : String) → cut sentinel_start content ≡ none → IsAppended content block
append_block-IsAppended content block h = elim (Bool-cases (is_blank content)) [
  | inl e ↦ record {
    before = "";
    placed =
        subst (λ s. IsPlaced s block "") (sym ((eq_iff content "").0 e)) (IsPlaced-at_start block);
  }
  | inr full ↦ elim (Bool-cases (ends_in_newline content)) [
    | inl e ↦ record { before = content; placed = IsPlaced-after_newline content block full e h }
    | inr e ↦ record {
      before = content <> "\n";
      placed = IsPlaced-after_line content block full e h;
    }
  ]
]

-- What is read of a block that was written, and what is left when it is removed.
pub record IsRoundtrip (content block : String) : Type 0 where
  pub read :
      extract_block (replace_or_append_block content block) ≡ Result.done (trim_newlines block)
  pub removed : remove_text (replace_or_append_block content block) ≡ some (tidy content)

appended :
    (content block : String)
    → cut sentinel_start content ≡ none
    → replace_or_append_block content block ≡ append_block content block
unfolding replace_or_append_block
appended content block h = ap (replace_or_append content block) h

extract-appended :
    (content block : String)
    → cut sentinel_end block ≡ none
    → IsAppended content block
    → extract_block (append_block content block) ≡ Result.done (trim_newlines block)
unfolding extract_block
extract-appended content block h a =
    ap past_start a.placed.found
    ∙ ap past_end (cut_end-body block h)
    ∙ ap
        (λ r.
          if is_some r
          then Result.fail "multiple managed blocks found in file; expected at most one"
          else Result.done (trim_newlines (block <> "\n")))
        newline_without_start
    ∙ ap (λ s. Result.done s) (trim_newlines-newline block "\n" refl)

remove-appended :
    (content block : String)
    → cut sentinel_end block ≡ none
    → IsAppended content block
    → remove_text (append_block content block) ≡ some (tidy content)
unfolding remove_text
remove-appended content block h a =
    ap removed a.placed.found
    ∙ ap (removed_to_end a.before) (cut_end-marked block h)
    ∙ ap (λ s. some (tidy s)) (append-nil a.before)
    ∙ ap (λ s. some s) a.placed.kept

-- A block is written into a file that has no start sentinel. Then extractBlock reads the block back,
-- without the newlines at its end, and RemoveBlock writes the file as it was, but with exactly one
-- newline at its end, or empty if it was empty. The conditions are that there is no start sentinel in
-- the file and no end sentinel in the block.
pub replace_or_append_block-IsRoundtrip :
    (content block : String)
    → cut sentinel_start content ≡ none
    → cut sentinel_end block ≡ none
    → IsRoundtrip content block
replace_or_append_block-IsRoundtrip content block h k =
    let a = append_block-IsAppended content block h in
    record {
      read = ap extract_block (appended content block h) ∙ extract-appended content block k a;
      removed = ap remove_text (appended content block h) ∙ remove-appended content block k a;
    }
