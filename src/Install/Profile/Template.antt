-- ===== src/Install/Profile/Template.antt =====
-- internal/install/shellprofile.go: the text of the block, and `shellQuote`.
use opencode_advance.Prelude.{String, List, [], ◌∷◌, ◌<>◌, ◌≡◌, refl, ◌==◌, dir_path, if◌then◌else◌}
use Prim.Native.Char.{code}

-- strings.ReplaceAll(s, "'", "'\\''")
escape_quotes : String → String
escape_quotes String.[] = String.[]
escape_quotes (String.◌∷◌ c s) =
    if code c == 39 then "'\\''" <> escape_quotes s else String.◌∷◌ c (escape_quotes s)

-- func shellQuote
pub shell_quote : String → String
unfolding escape_quotes
shell_quote s = "'" <> (escape_quotes s <> "'")

quoted : shell_quote "it's" ≡ "'it'\\''s'"
unfolding shell_quote escape_quotes
quoted = refl

join_lines : List String → String
join_lines [] = ""
join_lines (line ∷ []) = line
join_lines (line ∷ next ∷ lines) = line <> ("\n" <> join_lines (next ∷ lines))

-- const shellProfileTemplate, line by line, with its four placeholders.
abbrev shell_profile_template : String → String → String → String → List String
shell_profile_template bin_dir env_path stamp_path cache_path =
    "# This block is managed by OpenCode Advance (oca)."
    ∷ "# Do not edit manually — changes will be overwritten on next `oca apply`."
    ∷ "# To remove: `oca uninstall` or delete this block manually."
    ∷ ""
    ∷ "# Add OCA to PATH (resolved at install time)"
    ∷ ("_oca_bindir=" <> bin_dir)
    ∷ "case \":$PATH:\" in"
    ∷ "    *\":$_oca_bindir:\"*) ;;"
    ∷ "    *) export PATH=\"$_oca_bindir:$PATH\" ;;"
    ∷ "esac"
    ∷ "unset _oca_bindir"
    ∷ ""
    ∷ "# OCA shell auto-refresh (interactive shells only)"
    ∷ "case $- in"
    ∷ "    *i*) ;;"
    ∷ "    *) return 0 2>/dev/null || true ;;"
    ∷ "esac"
    ∷ ""
    ∷ ("_oca_env_file=" <> env_path)
    ∷ ("_oca_env_stamp=" <> stamp_path)
    ∷ ("_oca_drift_cache=" <> cache_path)
    ∷ ""
    ∷ "if [ -r \"$_oca_env_file\" ]; then"
    ∷ "    . \"$_oca_env_file\""
    ∷ "fi"
    ∷ ""
    ∷ ": \"${OCA_SHELL_AUTO_REFRESH:=true}\""
    ∷ ": \"${OCA_SHELL_AUTO_REFRESH_NOTICE:=off}\""
    ∷ ": \"${OCA_UPDATE_PROBE:=passive}\""
    ∷ ": \"${OCA_UPDATE_PROBE_TIMEOUT_SECONDS:=10}\""
    ∷ ""
    ∷ "_oca_drift_surfacer() {"
    ∷ "    [ \"${OCA_UPDATE_PROBE:-passive}\" = \"off\" ] && return 0"
    ∷ ""
    ∷ "    if [ ! -r \"$_oca_drift_cache\" ]; then"
    ∷ "        if [ \"${OCA_UPDATE_PROBE:-passive}\" = \"warn\" ]; then"
    ∷ "            timeout \"${OCA_UPDATE_PROBE_TIMEOUT_SECONDS:-10}\" oca update --check --quiet >/dev/null 2>&1 || true"
    ∷ "        fi"
    ∷ "        return 0"
    ∷ "    fi"
    ∷ ""
    ∷ "    if grep -Eq '\"status\"[[:space:]]*:[[:space:]]*\"update_available\"' \"$_oca_drift_cache\" 2>/dev/null; then"
    ∷ "        if [ -z \"${_oca_drift_notice_shown:-}\" ]; then"
    ∷ "            _oca_drift_notice_shown=1"
    ∷ "            printf '%s\\n' \"oca: plugin updates available (run: oca update --check)\""
    ∷ "        fi"
    ∷ "    fi"
    ∷ "}"
    ∷ ""
    ∷ "_oca_auto_refresh_hook() {"
    ∷ "    [ \"${OCA_SHELL_AUTO_REFRESH:-true}\" = \"false\" ] && return 0"
    ∷ "    [ -r \"$_oca_env_stamp\" ] || return 0"
    ∷ ""
    ∷ "    _oca_stamp_mtime=\"$(stat -c %Y \"$_oca_env_stamp\" 2>/dev/null || stat -f %m \"$_oca_env_stamp\" 2>/dev/null || true)\""
    ∷ "    [ -n \"$_oca_stamp_mtime\" ] || return 0"
    ∷ "    [ \"${_oca_last_env_stamp:-}\" != \"$_oca_stamp_mtime\" ] || return 0"
    ∷ ""
    ∷ "    _oca_last_env_stamp=\"$_oca_stamp_mtime\""
    ∷ "    if [ -r \"$_oca_env_file\" ]; then"
    ∷ "        . \"$_oca_env_file\""
    ∷ "    fi"
    ∷ ""
    ∷ "    _oca_drift_surfacer"
    ∷ ""
    ∷ "    case \"${OCA_SHELL_AUTO_REFRESH_NOTICE:-off}\" in"
    ∷ "        every)"
    ∷ "            printf '%s\\n' \"oca: shell environment refreshed\""
    ∷ "            ;;"
    ∷ "        once)"
    ∷ "            if [ -z \"${_oca_auto_refresh_notice_shown:-}\" ]; then"
    ∷ "                _oca_auto_refresh_notice_shown=1"
    ∷ "                printf '%s\\n' \"oca: shell environment refreshed\""
    ∷ "            fi"
    ∷ "            ;;"
    ∷ "    esac"
    ∷ "}"
    ∷ ""
    ∷ "if [ -n \"${ZSH_VERSION:-}\" ]; then"
    ∷ "    autoload -Uz add-zsh-hook 2>/dev/null || true"
    ∷ "    add-zsh-hook -d precmd _oca_auto_refresh_hook 2>/dev/null || true"
    ∷ "    add-zsh-hook precmd _oca_auto_refresh_hook 2>/dev/null || true"
    ∷ "elif [ -n \"${BASH_VERSION:-}\" ]; then"
    ∷ "    case \";${PROMPT_COMMAND:-};\" in"
    ∷ "        *\";_oca_auto_refresh_hook;\"*) ;;"
    ∷ "        *) PROMPT_COMMAND=\"_oca_auto_refresh_hook${PROMPT_COMMAND:+;$PROMPT_COMMAND}\" ;;"
    ∷ "    esac"
    ∷ "fi"
    ∷ []

-- func RenderShellProfile, with the paths that config.ResolvePaths gives.
pub render_shell_profile : String → String → String → String → String
unfolding shell_quote join_lines
render_shell_profile oca_bin_path env_path stamp_path cache_path = join_lines (
    shell_profile_template (shell_quote (dir_path oca_bin_path)) (shell_quote env_path)
      (shell_quote stamp_path) (shell_quote cache_path))
