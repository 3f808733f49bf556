-- ===== src/Maintain/Git.antt =====
-- internal/maintain/execute.go: the checks of a git checkout before something is done to it.
use opencode_advance.Prelude.{
  String, Option, none, some, [], ◌∷◌, is_blank, str_eq, if◌then◌else◌, literal, sprintf, str,
  trim_space,
}
use opencode_advance.Maintain.Machine.{Machine, Reply, Log, Error, git_command}

-- The error of a command, as the caller words it.
abbrev pub worded : (String → String → Error) → Reply → Option Error
worded word reply = elim reply.failure [ some e ↦ some (word e reply.output) | none ↦ none ]

abbrev pub or_error : (String → String → Error) → Reply × Log → Option Error × Log
or_error word (reply, log) = (worded word reply, log)

-- The error of a git command, or that of the test of its output.
abbrev pub tested : (String → Option Error) → Reply → Option Error
tested test reply = elim reply.failure [ some e ↦ some (literal e) | none ↦ test reply.output ]

abbrev pub or_output : (String → Option Error) → Reply × Log → Option Error × Log
or_output test (reply, log) = (tested test reply, log)

module _ (machine : Machine) where
  -- func requireExpectedBranch
  unfoldable pub require_expected_branch : String → String → Log → Option Error × Log
  require_expected_branch dir expected log =
      let expected = if is_blank expected then "trunk" else expected in
      or_output
        (λ current.
          if str_eq current expected
          then none
          else some (
              sprintf "git checkout %s is on %s, want %s before merge"
                (str dir ∷ str current ∷ str expected ∷ [])))
        (git_command machine dir ("branch" ∷ "--show-current" ∷ []) log)

  -- func requireCleanGitTree
  unfoldable pub require_clean_git_tree : String → Log → Option Error × Log
  require_clean_git_tree dir log =
      or_output
        (λ out.
          if is_blank (trim_space out)
          then none
          else some (sprintf "git tree not clean in %s" (str dir ∷ [])))
        (git_command machine dir ("status" ∷ "--porcelain" ∷ []) log)
