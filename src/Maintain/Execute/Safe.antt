-- ===== src/Maintain/Execute/Safe.antt =====
-- What a safe log is, and the steps that keep a log safe.
use opencode_advance.Prelude.{
  String, ◌≡◌, Bool, true, false, ◌&&◌, Option, none, some, List, [], ◌∷◌, arith, refl, str_eq,
  eq_iff, if◌then◌else◌, trim_space,
}
use opencode_advance.Maintain.Machine.{Machine, Cmd, Reply, Event, Log, Error, and_then, git}
use opencode_advance.Maintain.Git.{worded, require_clean_git_tree}

abbrev pub starts_two : List String → String → String → Bool
starts_two (a ∷ b ∷ rest) x y = str_eq a x && str_eq b y
starts_two _ x y = false

-- git worktree remove, and git merge --ff-only
abbrev pub removes : Cmd → Bool
removes c = str_eq c.name "git" && starts_two c.args "worktree" "remove"

abbrev pub merges : Cmd → Bool
merges c = str_eq c.name "git" && starts_two c.args "merge" "--ff-only"

-- git status --porcelain succeeded with no output.
abbrev pub IsCleanReply : Reply → Type 0
IsCleanReply r = (r.failure ≡ none) × (trim_space (trim_space r.output) ≡ "")

abbrev pub status_of : String → Cmd
status_of dir = git dir ("status" ∷ "--porcelain" ∷ [])

-- The two events right before the removal of a worktree: a clean status there, and a branch that
-- is merged into trunk.
pub record IsCheckedRemoval (c : Cmd) (earlier : Log) : Type 0 where
  pub path : String
  pub branch : String
  pub clean : Reply
  pub merged : Reply
  pub older : Log
  pub removal : c.args ≡ "worktree" ∷ "remove" ∷ path ∷ []
  pub before :
      earlier
      ≡ Event.ran (git c.dir ("merge-base" ∷ "--is-ancestor" ∷ branch ∷ "trunk" ∷ [])) merged
        ∷ Event.ran (status_of path) clean
        ∷ older
  pub is_clean : IsCleanReply clean
  pub is_merged : merged.failure ≡ none

-- The two events right before a merge: the checkout shows its branch, and a clean status.
pub record IsCheckedMerge (c : Cmd) (earlier : Log) : Type 0 where
  pub shown : Reply
  pub clean : Reply
  pub older : Log
  pub before :
      earlier
      ≡ Event.ran (status_of c.dir) clean
        ∷ Event.ran (git c.dir ("branch" ∷ "--show-current" ∷ [])) shown
        ∷ older
  pub is_clean : IsCleanReply clean
  pub is_shown : shown.failure ≡ none

abbrev pub IsGuarded : Event → Log → Type 0
IsGuarded (Event.ran c r) earlier =
    (removes c ≡ true → IsCheckedRemoval c earlier) × (merges c ≡ true → IsCheckedMerge c earlier)
IsGuarded (Event.looked path there) earlier = Unit
IsGuarded (Event.made_dir path e) earlier = Unit
IsGuarded (Event.wrote path marker e) earlier = Unit

-- Every removal and every merge in the log is checked.
pub data IsSafe : Log → Type 0 where
  nil : IsSafe []
  cons : {e : Event} {earlier : Log} → IsGuarded e earlier → IsSafe earlier → IsSafe (e ∷ earlier)

pub plain-IsSafe :
    (c : Cmd) (r : Reply) (log : Log)
    → removes c ≡ false
    → merges c ≡ false
    → IsSafe log
    → IsSafe (Event.ran c r ∷ log)
plain-IsSafe c r log n m s =
    IsSafe.cons ((λ e. absurd (ground (arith, n, e))), (λ e. absurd (ground (arith, m, e)))) s

pub and_then-IsSafe :
    (x : Option Error × Log) (next : Log → Option Error × Log)
    → IsSafe x.1
    → (x.0 ≡ none → IsSafe (next x.1).1)
    → IsSafe (and_then x next).1
unfolding and_then
and_then-IsSafe (some e, log) next s h = s
and_then-IsSafe (none, log) next s h = h refl

pub if-IsSafe :
    (b : Bool) (x y : Option Error × Log) → IsSafe x.1 → IsSafe y.1 → IsSafe (if b then x else y).1
if-IsSafe true x y s t = s
if-IsSafe false x y s t = t

module _ (machine : Machine) where
  worded-none :
      (word : String → String → Error) (r : Reply) → worded word r ≡ none → r.failure ≡ none
  worded-none word r h = ground (arith, h)

  pub require_clean-IsCleanReply :
      (dir : String) (log : Log)
      → (require_clean_git_tree machine dir log).0 ≡ none
      → IsCleanReply (machine.answer log (status_of dir))
  unfolding require_clean_git_tree
  require_clean-IsCleanReply dir log h =
      let r = machine.answer log (status_of dir) in
      (ground (arith, h), (eq_iff (trim_space (trim_space r.output)) "").0 (ground (arith, h)))

  pub require_clean-IsSafe :
      (dir : String) (log : Log) → IsSafe log → IsSafe (require_clean_git_tree machine dir log).1
  unfolding require_clean_git_tree
  require_clean-IsSafe dir log s =
      plain-IsSafe (status_of dir) (machine.answer log (status_of dir)) log refl refl s
