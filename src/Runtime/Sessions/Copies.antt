-- ===== src/Runtime/Sessions/Copies.antt =====
-- internal/advruntime/session_debt.go: `backupDB` and `copyFile`.
use opencode_advance.Prelude.{
  ℕ, suc, ◌+◌, ◌-◌, String, Bool, false, ◌||◌, not, Option, none, some, List, [], ◌∷◌, ◌<>◌, ◌==◌,
  str_eq, is_blank, starts_with, take_bytes, split_path, clean_path, base_path, join_path,
  if◌then◌else◌, Result,
}
use Prim.Native.String.{len}
use Prim.Native.Char.{code}

-- What is done to files and in the transaction: a copy with its error, or an empty file made in its
-- place; the statement that deletes a message, and the commit, with their errors.
pub data Event : Type 0 where
  copied : String → String → Option String → Event
  emptied : String → Event
  row_deleted : String → Option String → Event
  commit : Option String → Event

-- The calls so far, and their events, the latest first.
pub record World : Type 0 where
  pub calls : ℕ
  pub log : List Event

-- `error k` is the error of the call number `k`, `is_symlink` is os.Lstat, `timestamp` the time of
-- the backup in its name.
pub record System : Type 0 where
  pub error : ℕ → Option String
  pub is_symlink : String → Bool
  pub timestamp : String

abbrev pub called : World → World
called w = record w { calls = suc w.calls }

pub record Backup : Type 0 where
  pub path : String
  pub file_count : ℕ

-- filepath.Ext of a name without slashes.
unfoldable pub ext : String → String
ext String.[] = String.[]
ext (String.◌∷◌ c s) =
    let rest = ext s in
    if not (is_blank rest) then rest else if code c == 46 then String.◌∷◌ c s else String.[]

unfoldable pub has_dot_dot : List String → Bool
has_dot_dot [] = false
has_dot_dot (part ∷ parts) = str_eq part ".." || has_dot_dot parts

abbrev backup_file : String → String → String
backup_file db_path timestamp =
    let base = base_path db_path in
    let e = ext base in take_bytes (len base - len e) base <> ("-backup-" <> (timestamp <> e))

module _ (sys : System) where
  -- func copyFile
  abbrev pub copy_file : String → String → World → Option String × World
  copy_file src dst w =
      let e = sys.error w.calls in
      (e, record { calls = suc w.calls; log = Event.copied src dst e ∷ w.log })

  -- The copy of the main file; where it fails an empty file stands for it.
  abbrev pub copied_main : String → Option String × World → ℕ × World
  copied_main path (none, w) = (1, w)
  copied_main path (some e, w) = elim (sys.error w.calls) [
    | none ↦ (0, record { calls = suc w.calls; log = Event.emptied path ∷ w.log })
    | some e' ↦ (0, called w)
  ]

  -- A file beside the database, which need not be there.
  abbrev pub copied_too : ℕ → Option String × World → ℕ × World
  copied_too n (none, w) = (n + 1, w)
  copied_too n (some e, w) = (n, w)

  abbrev pub copy_beside : String → String → String → ℕ × World → ℕ × World
  copy_beside suffix src dst (n, w) = copied_too n (copy_file (src <> suffix) (dst <> suffix) w)

  abbrev pub copied_all : String → ℕ × World → Result Backup × World
  copied_all path (n, w) = (Result.done (record { path = path; file_count = n }), w)

  abbrev pub copy_files : String → String → World → Result Backup × World
  copy_files db_path path w = copied_all path (
      copy_beside "-shm" db_path path
        (copy_beside "-wal" db_path path (copied_main path (copy_file db_path path w))))

  abbrev pub made_dir : String → String → Option String → World → Result Backup × World
  made_dir dir db_path (some e) w = (Result.fail ("mkdir " <> (dir <> (": " <> e))), w)
  made_dir dir db_path none w =
      copy_files db_path (join_path (dir ∷ backup_file db_path sys.timestamp ∷ [])) w

  -- SessionDebtScanner.backupDB
  unfoldable pub backup_db : String → String → World → Result Backup × World
  backup_db dir db_path w =
      if is_blank db_path
      then (Result.fail "cannot determine database path for backup", w)
      else if starts_with dir "/"
      then (
        Result.fail ("backup directory must be relative, absolute path not allowed: " <> dir),
        w,
      )
      else if has_dot_dot (split_path (clean_path dir))
      then (Result.fail ("backup directory path traversal not allowed: " <> dir), w)
      else if sys.is_symlink dir
      then (Result.fail "backup directory cannot be a symlink", w)
      else made_dir dir db_path (sys.error w.calls) (called w)
