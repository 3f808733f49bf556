-- ===== src/Render/Sections/Maps.antt =====
-- The translated sections have distinct keys at every depth, as Go maps do.
use opencode_advance.Prelude.{
  String, Bool, true, false, not, ◌≡◌, refl, ◌∙◌, Option, none, some, List, [], ◌∷◌, inl, inr,
  arith, Bool-cases, str_eq, eq_iff, is_blank, is_empty, All,
}
use opencode_advance.Value.{Value, Fields, no_more, entry}
use opencode_advance.Config.Sections.Types.{Lsp, Formatter, Command}
use opencode_advance.Render.Fields.{get_field, put_field, get_field-put_field}
use opencode_advance.Render.Merge.Laws.{IsMap, IsMapValue}
use opencode_advance.Render.Sections.{
  string_map_to_any, put_all, put_if, translate_formatter, put_subtask, translate_command,
  translate_lsp_server, translate_each, under, translate_formatters_to_opencode,
  translate_commands_to_opencode, translate_lsp_to_opencode,
}

put_field-IsMap :
    (m : Fields) (key : String) (v : Value) → IsMap m → IsMapValue v → IsMap (put_field key v m)
unfolding put_field IsMap get_field
put_field-IsMap no_more key v h i = (refl, i, tt)
put_field-IsMap (entry held old rest) key v (fresh, o, r) i = elim (Bool-cases (str_eq held key)) [
  | inl e ↦ rw e (fresh, i, r)
  | inr e ↦
      let ne : str_eq key held ≡ false = ground (arith, eq_iff key held, eq_iff held key, e) in
      let f : get_field held (put_field key v rest) ≡ none =
        get_field-put_field rest key held v ∙ rw ne fresh in
      rw e (f, o, put_field-IsMap rest key v r i)
]

put_all-IsMap : (extra m : Fields) → IsMap extra → IsMap m → IsMap (put_all extra m)
unfolding put_all IsMap
put_all-IsMap no_more m e h = h
put_all-IsMap (entry key v rest) m (fresh, i, r) h =
    put_all-IsMap rest (put_field key v m) r (put_field-IsMap m key v h i)

put_if-IsMap :
    (b : Bool) (key : String) (v : Value) (m : Fields)
    → IsMapValue v
    → IsMap m
    → IsMap (put_if b key v m)
put_if-IsMap true key v m i h = put_field-IsMap m key v h i
put_if-IsMap false key v m i h = h

string_map_to_any-IsMap : (m : List (String × String)) → IsMap (string_map_to_any m)
unfolding string_map_to_any IsMap IsMapValue
string_map_to_any-IsMap [] = tt
string_map_to_any-IsMap ((key, s) ∷ rest) =
    put_field-IsMap (string_map_to_any rest) key (Value.text s) (string_map_to_any-IsMap rest) tt

translate_formatter-IsMap : (f : Formatter) → IsMap f.extra → IsMap (translate_formatter f)
unfolding translate_formatter IsMap IsMapValue
translate_formatter-IsMap f e = put_all-IsMap f.extra _ e (
    put_if-IsMap (not (is_empty f.environment)) "environment"
      (Value.table (string_map_to_any f.environment)) _ (string_map_to_any-IsMap f.environment)
      (put_if-IsMap f.disabled "disabled" (Value.boolean true) _ tt (
        put_if-IsMap (not (is_empty f.extensions)) "extensions" _ _ tt
          (put_if-IsMap (not (is_empty f.command)) "command" _ no_more tt tt))))

put_subtask-IsMap : (b : Option Bool) (m : Fields) → IsMap m → IsMap (put_subtask b m)
unfolding IsMapValue
put_subtask-IsMap none m h = h
put_subtask-IsMap (some b) m h = put_field-IsMap m "subtask" (Value.boolean b) h tt

translate_command-IsMap : (c : Command) → IsMap c.extra → IsMap (translate_command c)
unfolding translate_command IsMap IsMapValue
translate_command-IsMap c e =
    let description = put_field "description" (Value.text c.description) no_more in
    let template = put_field "template" (Value.text c.template) description in
    put_all-IsMap c.extra _ e (
      put_subtask-IsMap c.subtask _ (
        put_if-IsMap (not (is_blank c.model)) "model" (Value.text c.model) _ tt (
          put_if-IsMap (not (is_blank c.agent)) "agent" (Value.text c.agent) template tt (
            put_field-IsMap description "template" (Value.text c.template)
              (put_field-IsMap no_more "description" (Value.text c.description) tt tt) tt))))

translate_lsp_server-IsMap : (l : Lsp) → IsMap l.extra → IsMap (translate_lsp_server l)
unfolding translate_lsp_server IsMap IsMapValue
translate_lsp_server-IsMap l e = put_all-IsMap l.extra _ e (
    put_if-IsMap l.disabled "disabled" (Value.boolean true) _ tt (
      put_if-IsMap (not (is_empty l.extensions)) "extensions" _ _ tt
        (put_if-IsMap (not (is_empty l.command)) "command" _ no_more tt tt)))

translate_each-IsMap {ℓ} :
    {A : Type ℓ} (f : A → Fields) (P : A → Type 0)
    → ((x : A) → P x → IsMap (f x))
    → (xs : List (String × A)) → All (λ (x : String × A). P x.1) xs
    → IsMap (translate_each f xs)
unfolding translate_each IsMap IsMapValue
translate_each-IsMap f P h [] e = tt
translate_each-IsMap f P h ((name, x) ∷ rest) e =
    put_field-IsMap (translate_each f rest) name (Value.table (f x))
      (translate_each-IsMap f P h rest e.1) (h x e.0)

under-IsMap : (key : String) (m : Fields) → IsMap m → IsMap (under key m)
unfolding IsMap IsMapValue get_field
under-IsMap key m h = (refl, h, tt)

pub translate_formatters_to_opencode-IsMap :
    (fs : List (String × Formatter))
    → All (λ (f : String × Formatter). IsMap f.1.extra) fs
    → IsMap (translate_formatters_to_opencode fs)
unfolding translate_formatters_to_opencode IsMap
translate_formatters_to_opencode-IsMap [] e = tt
translate_formatters_to_opencode-IsMap (f ∷ fs) e = under-IsMap "formatter" _ (
    translate_each-IsMap translate_formatter (λ x. IsMap x.extra) translate_formatter-IsMap (f ∷ fs)
      e)

pub translate_commands_to_opencode-IsMap :
    (cs : List (String × Command))
    → All (λ (c : String × Command). IsMap c.1.extra) cs
    → IsMap (translate_commands_to_opencode cs)
unfolding translate_commands_to_opencode IsMap
translate_commands_to_opencode-IsMap [] e = tt
translate_commands_to_opencode-IsMap (c ∷ cs) e =
    under-IsMap "command" _ (
      translate_each-IsMap translate_command (λ x. IsMap x.extra) translate_command-IsMap (c ∷ cs)
        e)

pub translate_lsp_to_opencode-IsMap :
    (ls : List (String × Lsp))
    → All (λ (l : String × Lsp). IsMap l.1.extra) ls
    → IsMap (translate_lsp_to_opencode (some ls))
unfolding translate_lsp_to_opencode
translate_lsp_to_opencode-IsMap ls e =
    under-IsMap "lsp" _ (
      translate_each-IsMap translate_lsp_server (λ x. IsMap x.extra) translate_lsp_server-IsMap ls
        e)
