-- ===== src/Config/Resolve/Paths.antt =====
-- Load resolves a stack before it validates it: what becomes of a plugin without a path.
use opencode_advance.Prelude.{
  ℕ, suc, String, true, false, ◌≡◌, ◌≢◌, refl, ap, subst, sym, ◌∙◌, arith, List, [], ◌∷◌, ◌++◌,
  ◌<>◌, is_blank, clean_path, map, All, append-eq-nil_iff, Result,
}
use opencode_advance.Config.Sections.Types.{Plugin}
use opencode_advance.Config.Sections.{
  valid_category, is_npm_source, is_local_source, each_index, check_provides, check_plugin,
  validate_plugins, each_entry,
}
use opencode_advance.Config.Validate.{Stack}
use opencode_advance.Config.Expand.{Env, expand_all}
use opencode_advance.Config.Resolve.{expand_plugin_tokens, or_same, resolve}
use opencode_advance.Config.Resolve.Tokens.{
  Substitutes, EachSubstitutes, expand_plugin_tokens-Substitutes,
}

check_provides_accepts :
    (path : String) (i : ℕ) (provides : List String)
    → All (λ c. valid_category c ≡ true) provides
    → each_index (check_provides path) i provides ≡ []
unfolding each_index check_provides
check_provides_accepts path i [] h = refl
check_provides_accepts path i (c ∷ cs) h = rw (h.0) (check_provides_accepts path (suc i) cs h.1)

-- A plugin with a git source and a checkout that provides known categories.
pub record IsGitPlugin (p : Plugin) : Type 0 where
  pub source : is_blank p.source ≡ false
  pub not_npm : is_npm_source p ≡ false
  pub not_local : is_local_source p ≡ false
  pub checkout : is_blank p.checkout ≡ false
  pub provides : All (λ c. valid_category c ≡ true) p.provides

check_plugin-path :
    (name : String) (p : Plugin)
    → IsGitPlugin p
    → is_blank p.path ≡ false
    → check_plugin name p ≡ []
unfolding check_plugin
check_plugin-path name p g h =
    rw (g.source, g.not_npm, g.not_local, g.checkout, h)
      (check_provides_accepts ("plugins." <> name) 0 p.provides g.provides)

check_plugin-missing_path :
    (name : String) (p : Plugin) → IsGitPlugin p → is_blank p.path ≡ true → check_plugin name p ≢ []
unfolding check_plugin
check_plugin-missing_path name p g h =
    rw (g.source, g.not_npm, g.not_local, g.checkout, h) (λ e. ground (arith, e))

validate_plugins-path :
    (name : String) (p : Plugin)
    → IsGitPlugin p
    → is_blank p.path ≡ false
    → validate_plugins ((name, p) ∷ []) ≡ []
unfolding validate_plugins each_entry
validate_plugins-path name p g h = ap (λ errs. errs ++ []) (check_plugin-path name p g h)

validate_plugins-missing_path :
    (name : String) (p : Plugin)
    → IsGitPlugin p
    → is_blank p.path ≡ true
    → validate_plugins ((name, p) ∷ []) ≢ []
unfolding validate_plugins each_entry
validate_plugins-missing_path name p g h e =
    check_plugin-missing_path name p g h ((append-eq-nil_iff _ _).0 e).0

clean_path-empty : clean_path "" ≡ "."
unfolding clean_path
clean_path-empty = refl

resolve-plugin :
    (env : Env) (s : Stack) (name : String) (p q : Plugin)
    → s.plugins ≡ (name, p) ∷ []
    → expand_plugin_tokens env p ≡ Result.done q
    → (resolve env s).plugins ≡ (name, q) ∷ []
unfolding resolve
resolve-plugin env s name p q e h =
    ap (map (λ (x : String × Plugin). (x.0, or_same x.1 (expand_plugin_tokens env x.1)))) e
    ∙ ap (λ r. (name, or_same p r) ∷ []) h

-- A git plugin without a path, valid otherwise, is refused by the checks of Validate; but Load
-- resolves the stack first, which gives the plugin the path "." and with that the checks find
-- nothing. This is for a stack with that one plugin, and no opening brace in its sync command and
-- its instructions but those of the tokens {checkout} and {subdir}.
pub resolve_hides_missing_path :
    (env : Env) (s : Stack) (name : String) (p : Plugin) (sync : String)
    (instructions : List String)
    → s.plugins ≡ (name, p) ∷ []
    → IsGitPlugin p
    → p.path ≡ ""
    → Substitutes (expand_all env p.checkout) p.subdir p.sync sync
    → EachSubstitutes (expand_all env p.checkout) p.subdir p.instructions instructions
    → (validate_plugins s.plugins ≢ [])
      × ((resolve env s).plugins
          ≡ (name, record p { path = "."; sync = sync; instructions = map clean_path instructions })
            ∷ [])
      × (validate_plugins (resolve env s).plugins ≡ [])
resolve_hides_missing_path env s name p sync instructions e g blank a b =
    let q : Plugin = record p {
      path = ".";
      sync = sync;
      instructions = map clean_path instructions;
    } in
    let resolved = resolve-plugin env s name p q e (
      expand_plugin_tokens-Substitutes env p "" sync instructions
        (subst (λ t. Substitutes (expand_all env p.checkout) p.subdir t "") (sym blank)
          Substitutes.end)
        a b
      ∙ ap
          (λ t.
            Result.done
              (record p { path = t; sync = sync; instructions = map clean_path instructions }))
          clean_path-empty) in
    (
      λ none.
          validate_plugins-missing_path name p g (ap is_blank blank)
            (ap validate_plugins (sym e) ∙ none),
      resolved,
      ap validate_plugins resolved
          ∙ validate_plugins-path name q
              (record {
                source = g.source;
                not_npm = g.not_npm;
                not_local = g.not_local;
                checkout = g.checkout;
                provides = g.provides;
              })
              refl,
    )
