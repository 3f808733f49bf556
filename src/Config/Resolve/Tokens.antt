-- ===== src/Config/Resolve/Tokens.antt =====
-- What the tokens of a plugin are replaced by.
use opencode_advance.Prelude.{
  ℕ, ◌+◌, String, false, ◌≡◌, refl, ap, ◌∙◌, none, List, [], ◌∷◌, ◌==◌, ◌<>◌, is_blank, clean_path,
  if◌then◌else◌, map, Result,
}
use opencode_advance.Config.Sections.Types.{Plugin}
use opencode_advance.Config.Expand.{Env, rewrite, span_until, expand_all}
use opencode_advance.Config.Resolve.{
  plugin_token_at, unknown_token_in, replace_tokens, unknown_instruction, substituted,
  after_instructions, expand_plugin_tokens,
}
use Prim.Native.Char.{Char, code}

-- A token in front of a text, character by character.
abbrev pub with_checkout : String → String
with_checkout s = String.◌∷◌ "{" (
    String.◌∷◌ "c" (
      String.◌∷◌ "h" (
        String.◌∷◌ "e" (
          String.◌∷◌ "c" (
            String.◌∷◌ "k"
              (String.◌∷◌ "o" (String.◌∷◌ "u" (String.◌∷◌ "t" (String.◌∷◌ "}" (s))))))))))

abbrev pub with_subdir : String → String
with_subdir s = String.◌∷◌ "{" (
    String.◌∷◌ "s" (
      String.◌∷◌ "u"
        (String.◌∷◌ "b" (String.◌∷◌ "d" (String.◌∷◌ "i" (String.◌∷◌ "r" (String.◌∷◌ "}" (s))))))))

-- The value of a token, or the token itself where it has none.
abbrev pub value_or : String → String → String
value_or value token = if is_blank value then token else value

-- A text whose tokens are {checkout} and {subdir} only, and the text with their values: it has no
-- other opening brace.
pub data Substitutes (checkout subdir : String) : String → String → Type 0 where
  end : Substitutes checkout subdir String.[] String.[]
  char :
      {s t : String} (c : Char)
      → (code c == 123) ≡ false
      → Substitutes checkout subdir s t
      → Substitutes checkout subdir (String.◌∷◌ c s) (String.◌∷◌ c t)
  checkout_token :
      {s t : String}
      → Substitutes checkout subdir s t
      → Substitutes checkout subdir (with_checkout s) (value_or checkout "{checkout}" <> t)
  subdir_token :
      {s t : String}
      → Substitutes checkout subdir s t
      → Substitutes checkout subdir (with_subdir s) (value_or subdir "{subdir}" <> t)

-- The same for each text of a list.
pub data EachSubstitutes (checkout subdir : String) : List String → List String → Type 0 where
  done : EachSubstitutes checkout subdir [] []
  next :
      {s t : String} {ss ts : List String}
      → Substitutes checkout subdir s t
      → EachSubstitutes checkout subdir ss ts
      → EachSubstitutes checkout subdir (s ∷ ss) (t ∷ ts)

module _ (checkout subdir : String) where
  unknown_token_in-Substitutes :
      {s t : String} → Substitutes checkout subdir s t → unknown_token_in 0 s ≡ ""
  unfolding unknown_token_in plugin_token_at span_until
  unknown_token_in-Substitutes Substitutes.end = refl
  unknown_token_in-Substitutes (Substitutes.char c p h) =
      rw (p, unknown_token_in, plugin_token_at) (unknown_token_in-Substitutes h)
  unknown_token_in-Substitutes (Substitutes.checkout_token h) = unknown_token_in-Substitutes h
  unknown_token_in-Substitutes (Substitutes.subdir_token h) = unknown_token_in-Substitutes h

  pub replace_tokens-Substitutes :
      {s t : String} → Substitutes checkout subdir s t → replace_tokens checkout subdir s ≡ t
  unfolding rewrite plugin_token_at span_until
  replace_tokens-Substitutes Substitutes.end = refl
  replace_tokens-Substitutes (Substitutes.char c p h) =
      rw (p, rewrite, plugin_token_at) (ap (λ u. String.◌∷◌ c u) (replace_tokens-Substitutes h))
  replace_tokens-Substitutes (Substitutes.checkout_token h) =
      ap (λ u. value_or checkout "{checkout}" <> u) (replace_tokens-Substitutes h)
  replace_tokens-Substitutes (Substitutes.subdir_token h) =
      ap (λ u. value_or subdir "{subdir}" <> u) (replace_tokens-Substitutes h)

  unknown_instruction-EachSubstitutes :
      {ss ts : List String} (i : ℕ)
      → EachSubstitutes checkout subdir ss ts
      → unknown_instruction i ss ≡ none
  unfolding unknown_instruction
  unknown_instruction-EachSubstitutes i EachSubstitutes.done = refl
  unknown_instruction-EachSubstitutes i (EachSubstitutes.next h rest) =
      rw (unknown_token_in-Substitutes h) (unknown_instruction-EachSubstitutes (i + 1) rest)

  clean_instructions :
      {ss ts : List String}
      → EachSubstitutes checkout subdir ss ts
      → map (λ instr. clean_path (replace_tokens checkout subdir instr)) ss ≡ map clean_path ts
  clean_instructions EachSubstitutes.done = refl
  clean_instructions (EachSubstitutes.next {t = t} {ss = ss} h rest) =
      ap (λ u. clean_path u ∷ map (λ instr. clean_path (replace_tokens checkout subdir instr)) ss)
        (replace_tokens-Substitutes h)
      ∙ ap (λ us. clean_path t ∷ us) (clean_instructions rest)

-- expandPluginTokens replaces, in the path, the sync command and the instructions of a plugin, each
-- {checkout} by the expanded checkout and each {subdir} by the subdirectory, where these are not
-- empty, and changes nothing else; the path and the instructions, not the command, are then cleaned.
-- The condition is that these texts have no opening brace but those of the two tokens.
pub expand_plugin_tokens-Substitutes :
    (env : Env) (p : Plugin) (path sync : String) (instructions : List String)
    → Substitutes (expand_all env p.checkout) p.subdir p.path path
    → Substitutes (expand_all env p.checkout) p.subdir p.sync sync
    → EachSubstitutes (expand_all env p.checkout) p.subdir p.instructions instructions
    → expand_plugin_tokens env p
      ≡ Result.done (record p {
        path = clean_path path;
        sync = sync;
        instructions = map clean_path instructions;
      })
unfolding expand_plugin_tokens
expand_plugin_tokens-Substitutes env p path sync instructions a b c =
    rw (unknown_token_in-Substitutes _ _ a) (
      rw (unknown_token_in-Substitutes _ _ b) (
        ap (after_instructions env p) (unknown_instruction-EachSubstitutes _ _ 0 c)
        ∙ ap (λ u. Result.done (record (substituted env p) { path = clean_path u }))
            (replace_tokens-Substitutes _ _ a)
        ∙ ap (λ u. Result.done (record (substituted env p) { path = clean_path path; sync = u }))
            (replace_tokens-Substitutes _ _ b)
        ∙ ap
            (λ us.
              Result.done (record p { path = clean_path path; sync = sync; instructions = us }))
            (clean_instructions _ _ c)))
