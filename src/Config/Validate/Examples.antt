-- ===== src/Config/Validate/Examples.antt =====
-- The theorems about `Validate` at a concrete stack.
use opencode_advance.Prelude.{◌≡◌, none, some, [], ◌∷◌, arith}
use opencode_advance.Value.{no_more}
use opencode_advance.Config.Servers.Examples.{declared, declared-HasDistinctKeys, declared-accepted}
use opencode_advance.Config.SlotGroups.Examples.{pool, pool-accepted}
use opencode_advance.Config.Sections.{each_entry}
use opencode_advance.Config.Sections.Examples.{lint-accepted, absent-accepted}
use opencode_advance.Config.Toggles.Examples.{no_shell, no_probe, toggles-accepted}
use opencode_advance.Config.Temporal.Examples.{local, local-accepted}
use opencode_advance.Config.Validate.{Stack, validate, stack_errors, check_version}
use opencode_advance.Config.Validate.Accepts.{IsAccepted, validate_idem, validate_sound}

abbrev pub stack : Stack
stack = record {
  meta = record { version = "1.0.0"; name = "home"; description = "" };
  servers = declared;
  slot_groups = ("pools", pool) ∷ [];
  plugins = [];
  instructions = none;
  temporal = some local;
  providers = [];
  permissions = record {
    default = "";
    doom_loop = "";
    external_directory = [];
    bash = [];
    extra = no_more;
  };
  watcher_ignore = [];
  lsp = [];
  skills_order = "lint" ∷ [];
  formatters = [];
  commands = [];
  share = "";
  autoupdate = none;
  session = none;
  shell = no_shell;
  update_probe = no_probe;
  deferred_sections = [];
}

stack-accepted : (validate stack).0 ≡ []
unfolding validate stack_errors check_version each_entry
stack-accepted = simp (
  declared-accepted, pool-accepted, lint-accepted, local-accepted, absent-accepted.0,
  absent-accepted.1, absent-accepted.2, absent-accepted.3, absent-accepted.4, absent-accepted.5,
  absent-accepted.6, absent-accepted.7, toggles-accepted.0, toggles-accepted.1, toggles-accepted.2,
  toggles-accepted.3,
)

validate_idem_example : validate (validate stack).1 ≡ validate stack
validate_idem_example = validate_idem stack

validate_sound_example : IsAccepted stack
validate_sound_example = validate_sound stack declared-HasDistinctKeys (omega arith) stack-accepted
