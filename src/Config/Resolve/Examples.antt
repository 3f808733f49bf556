-- ===== src/Config/Resolve/Examples.antt =====
-- Texts with and without tokens, and plugins with and without a path.
use opencode_advance.Prelude.{
  String, ◌≡◌, ◌≢◌, refl, none, some, [], ◌∷◌, ◌<>◌, str_eq, if◌then◌else◌, clean_path, map, Result,
}
use opencode_advance.Config.Sections.Types.{Plugin}
use opencode_advance.Config.Sections.{validate_plugins}
use opencode_advance.Config.Validate.{Stack}
use opencode_advance.Config.Validate.Examples.{stack}
use opencode_advance.Config.Expand.{
  Env, rewrite, span_until, env_var_at, expand_xdg, expand_env, expand_home, expand_all,
}
use opencode_advance.Config.Resolve.{expand_plugin_tokens, resolve}
use opencode_advance.Config.Resolve.Keeps.{IsPlain, expand_all_keeps}
use opencode_advance.Config.Resolve.Tokens.{
  Substitutes, EachSubstitutes, value_or, expand_plugin_tokens-Substitutes,
}
use opencode_advance.Config.Resolve.Paths.{IsGitPlugin, resolve_hides_missing_path}

abbrev env : Env
env = record { home = some "/h"; lookup_env = λ name. if str_eq name "A" then some "1" else none }

expanded :
    expand_all env "~/x $HOME ${A} ${B:-2} ${:} $XDG_DATA_HOME" ≡ "/h/x /h 1 2 ${:} /h/.local/share"
unfolding expand_all expand_home expand_env expand_xdg env_var_at span_until rewrite
expanded = refl

native-IsPlain : IsPlain "{env:KEY}"
native-IsPlain = (refl, (refl, (refl, (refl, (refl, (refl, (refl, (refl, (refl, tt)))))))))

expand_all_keeps_example : expand_all env "{env:KEY}" ≡ "{env:KEY}"
expand_all_keeps_example = expand_all_keeps env "{env:KEY}" native-IsPlain refl

abbrev plugin : Plugin
plugin = record {
  source = "https://example.org/p.git";
  ref = "";
  checkout = "~/p";
  subdir = "d";
  build = [];
  path = "{checkout}/d";
  sync = "x{subdir}";
  provides = "adv-skills" ∷ [];
  instructions = "{subdir}" ∷ [];
  enabled = none;
}

abbrev checkout : String
checkout = value_or (expand_all env "~/p") "{checkout}"

path-Substitutes : Substitutes (expand_all env "~/p") "d" "{checkout}/d" (checkout <> "/d")
path-Substitutes =
    Substitutes.checkout_token
      (Substitutes.char "/" refl (Substitutes.char "d" refl Substitutes.end))

sync-Substitutes : Substitutes (expand_all env "~/p") "d" "x{subdir}" "xd"
sync-Substitutes = Substitutes.char "x" refl (Substitutes.subdir_token Substitutes.end)

instructions-EachSubstitutes :
    EachSubstitutes (expand_all env "~/p") "d" ("{subdir}" ∷ []) ("d" ∷ [])
instructions-EachSubstitutes =
    EachSubstitutes.next (Substitutes.subdir_token Substitutes.end) EachSubstitutes.done

expand_plugin_tokens-Substitutes_example :
    expand_plugin_tokens env plugin
    ≡ Result.done (record plugin {
      path = clean_path (checkout <> "/d");
      sync = "xd";
      instructions = map clean_path ("d" ∷ []);
    })
expand_plugin_tokens-Substitutes_example =
    expand_plugin_tokens-Substitutes env plugin (checkout <> "/d") "xd" ("d" ∷ []) path-Substitutes
      sync-Substitutes instructions-EachSubstitutes

abbrev plugin_without_path : Plugin
plugin_without_path = record plugin { path = "" }

abbrev stack_without_path : Stack
stack_without_path = record stack { plugins = ("p", plugin_without_path) ∷ [] }

plugin_without_path-IsGitPlugin : IsGitPlugin plugin_without_path
plugin_without_path-IsGitPlugin = record {
  source = refl;
  not_npm = refl;
  not_local = refl;
  checkout = refl;
  provides = (refl, tt);
}

resolve_hides_missing_path_example :
    (validate_plugins stack_without_path.plugins ≢ [])
    × ((resolve env stack_without_path).plugins
        ≡ ("p", record plugin { path = "."; sync = "xd"; instructions = map clean_path ("d" ∷ []) })
          ∷ [])
    × (validate_plugins (resolve env stack_without_path).plugins ≡ [])
resolve_hides_missing_path_example =
    resolve_hides_missing_path env stack_without_path "p" plugin_without_path "xd" ("d" ∷ []) refl
      plugin_without_path-IsGitPlugin refl sync-Substitutes instructions-EachSubstitutes
