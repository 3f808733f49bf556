-- ===== src/Render/Disk.antt =====
-- The calls of package os that internal/render makes. Every call may fail: the answer to the call
-- number `k` is `error k`, and a write that fails leaves what `torn k` says.
pub mod Laws
use opencode_advance.Prelude.{
  ℕ, suc, String, ◌≡◌, ◌≢◌, Option, none, some, List, [], ◌∷◌, str_eq, eq_iff, arith, if◌then◌else◌,
  Result, ◌<>◌, is_some,
}

pub record File : Type 0 where
  pub content : String
  pub mode : ℕ

-- The files by name.
abbrev pub Files : Type 0
Files = String → Option File

abbrev pub put : String → Option File → Files → Files
put p v files q = if str_eq p q then v else files q

-- The files, and the number of calls so far.
pub record Disk : Type 0 where
  pub files : Files
  pub calls : ℕ

-- What the system answers. `temp k dir` is the name that os.CreateTemp chooses, `now k` is
-- time.Now().UnixNano().
pub record System : Type 0 where
  pub error : ℕ → Option String
  pub torn : ℕ → Option File
  pub temp : ℕ → String → String
  pub now : ℕ → ℕ
  pub glob : ℕ → String → Result (List String)

-- After a call that changes no file, and one that sets a file.
abbrev pub tick : Disk → Disk
tick d = record d { calls = suc d.calls }

abbrev pub set_file : String → Option File → Disk → Disk
set_file p v d = record { files = put p v d.files; calls = suc d.calls }

abbrev pub content_of : Option File → Option String
content_of none = none
content_of (some f) = some f.content

-- The mode of a file that is there stays.
abbrev pub mode_of : Option File → ℕ → ℕ
mode_of none mode = mode
mode_of (some f) mode = f.mode

-- What os.ReadFile finds.
pub data Reading : Type 0 where
  missing : Reading
  broken : String → Reading
  found : String → Reading

abbrev pub reading : Option File → Reading
reading none = Reading.missing
reading (some f) = Reading.found f.content

abbrev pub moved : String → String → Disk → Option File → Option String × Disk
moved from to d none = (some "no such file or directory", tick d)
moved from to d (some f) =
    (none, record { files = put to (some f) (put from none d.files); calls = suc d.calls })

abbrev pub with_mode : ℕ → Option File → Option File
with_mode mode none = none
with_mode mode (some f) = some (record f { mode = mode })

module _ (sys : System) where
  -- os.Remove; that the file is not there is no error for the callers.
  unfoldable pub remove : String → Disk → Option String × Disk
  remove p d = elim (sys.error d.calls) [
    | some e ↦ (some e, tick d)
    | none ↦ (none, set_file p none d)
  ]

  -- A call that only succeeds or fails: os.MkdirAll, File.Close.
  unfoldable pub try_call : Disk → Option String × Disk
  try_call d = (sys.error d.calls, tick d)

  unfoldable pub read : String → Disk → Reading × Disk
  read p d = elim (sys.error d.calls) [
    | some e ↦ (Reading.broken e, tick d)
    | none ↦ (reading (d.files p), tick d)
  ]

  -- os.WriteFile
  unfoldable pub write_file : String → String → ℕ → Disk → Option String × Disk
  write_file p content mode d = elim (sys.error d.calls) [
    | some e ↦ (some e, set_file p (sys.torn d.calls) d)
    | none ↦
        (none, set_file p (some (record { content = content; mode = mode_of (d.files p) mode })) d)
  ]

  -- os.Rename
  unfoldable pub rename : String → String → Disk → Option String × Disk
  rename from to d = elim (sys.error d.calls) [
    | some e ↦ (some e, tick d)
    | none ↦ moved from to d (d.files from)
  ]

  -- os.Chmod
  unfoldable pub chmod : String → ℕ → Disk → Option String × Disk
  chmod p mode d = elim (sys.error d.calls) [
    | some e ↦ (some e, tick d)
    | none ↦ (none, set_file p (with_mode mode (d.files p)) d)
  ]

  -- os.CreateTemp: the name of a new, empty file.
  unfoldable pub create_temp : String → Disk → Result String × Disk
  create_temp dir d = elim (sys.error d.calls) [
    | some e ↦ (Result.fail e, tick d)
    | none ↦
        let name = sys.temp d.calls dir in
        (Result.done name, set_file name (some (record { content = ""; mode = 384 })) d)
  ]
