-- ===== src/Maintain/Machine.antt =====
-- The commands that internal/maintain runs, as a log. internal/subprocess starts them; what the
-- machine answers is a parameter, a function of the log so far, so every behaviour of git, of the
-- build tools and of the file system, also one that changes between two commands, is covered.
use opencode_advance.Prelude.{
  ℤ, String, Bool, Option, none, some, List, [], ◌∷◌, Message, trim_space,
}
use opencode_advance.Maintain.Drift.{BuildMarker}

-- type Cmd of internal/subprocess/types.go; the timeout in seconds.
pub record Cmd : Type 0 where
  pub name : String
  pub args : List String
  pub dir : String
  pub env : List (String × String)
  pub timeout : ℤ

-- The output of a finished command, and the error of `subprocess.Run` if there is one.
pub record Reply : Type 0 where
  pub output : String
  pub failure : Option String

pub data Event : Type 0 where
  ran : Cmd → Reply → Event
  looked : String → Bool → Event
  made_dir : String → Option String → Event
  wrote : String → BuildMarker → Option String → Event

-- The latest event first.
abbrev pub Log : Type 0
Log = List Event

pub record Machine : Type 0 where
  pub answer : Log → Cmd → Reply
  pub exists : Log → String → Bool
  pub make_dir : Log → String → Option String
  pub write : Log → String → BuildMarker → Option String
  pub now : ℤ
  pub hash : List String → String

abbrev pub Error : Type 0
Error = Message

-- The steps of a function that returns an error: the next one runs if the last returned nil.
unfoldable pub and_then : Option Error × Log → (Log → Option Error × Log) → Option Error × Log
and_then (some e, log) next = (some e, log)
and_then (none, log) next = next log

-- subprocess.Run
abbrev pub run : Machine → Cmd → Log → Reply × Log
run machine cmd log = let reply = machine.answer log cmd in (reply, ran cmd reply ∷ log)

-- The command of gitCommand in execute.go, with its timeout of 30 seconds.
abbrev pub git : String → List String → Cmd
git dir args = record { name = "git"; args = args; dir = dir; env = []; timeout = ℤ.pos 30 }

-- func gitCommand: the reply, its output trimmed.
abbrev pub git_command : Machine → String → List String → Log → Reply × Log
git_command machine dir args log =
    let (reply, after) = run machine (git dir args) log in
    (record reply { output = trim_space reply.output }, after)
