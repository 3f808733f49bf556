-- ===== src/Runtime/Sessions.antt =====
-- internal/advruntime/session_debt.go: `ApplyDeletion` and `deleteRepairable`.
pub mod Copies
pub mod Rows
pub mod Backups
pub mod Deletes
use opencode_advance.Prelude.{
  ℕ, zero, suc, ◌+◌, ◌-◌, ◌*◌, ◌/◌, ◌^◌, ℤ, pos, negsuc, ltb_ℤ, ◌-ℤ◌, String, Bool, true, false,
  ◌&&◌, ◌||◌, not, Option, none, some, List, [], ◌∷◌, ◌++◌, map, ◌<>◌, ltb, str_eq, is_blank,
  is_empty, show, length, if◌then◌else◌, Result,
}
use opencode_advance.Runtime.Debt.{
  Row, Database, contains, repairable_predicate, holds, fails, select, repairable_rows, Scanner,
  stale_cutoff,
}
use opencode_advance.Runtime.Sessions.Copies.{Event, System, World, called, Backup, backup_db}

-- type BackupManifest
pub record Manifest : Type 0 where
  pub source_path : String
  pub backup_path : String
  pub manifest_error : String
  pub timestamp : ℤ
  pub threshold : ℤ
  pub deleted_ids : List String
  pub file_count : ℕ

-- What ApplyDeletion returns, the database after it, and what was done on the way.
pub record Deletion : Type 0 where
  pub failure : Option String
  pub manifest : Option Manifest
  pub db : Database
  pub world : World

abbrev refuse : String → Database → World → Deletion
refuse e db w = record { failure = some e; manifest = none; db = db; world = w }

abbrev pub ids_of : List Row → List String
ids_of rows = map (λ (row : Row). row.id) rows

-- The rows without those of the ids.
abbrev pub without : List String → Database → Database
without ids db = record db { messages = select (λ row. not (contains row.id ids)) db.messages }

-- A call of the database or of the file system.
abbrev pub attempt : System → World → Option String × World
attempt sys w = (sys.error w.calls, called w)

module _ (sys : System) where
  -- The statements of deleteRepairable, one for each id.
  pub delete_all : List String → World → Option String × World
  delete_all [] w = (none, w)
  delete_all (id ∷ ids) w =
      let v : World = record {
        calls = suc w.calls;
        log = Event.row_deleted id (sys.error w.calls) ∷ w.log;
      } in
      let rest = delete_all ids v in
      elim (sys.error w.calls) [
        | none ↦ rest
        | some e ↦ (some ("delete message " <> id <> ": " <> e), v)
      ]

  abbrev pub committed : Option String × World → Option String × World
  committed (some e, w) = (some e, w)
  committed (none, w) = (
    sys.error w.calls,
    record { calls = suc w.calls; log = Event.commit (sys.error w.calls) ∷ w.log },
  )

  abbrev pub begun : List String → Option String × World → Option String × World
  begun ids (some e, w) = (some ("begin tx: " <> e), w)
  begun ids (none, w) = committed (delete_all ids w)

  -- func deleteRepairable: all the rows go with the commit, or none.
  pub delete_repairable : List String → World → Option String × World
  unfolding delete_all
  delete_repairable ids w = if is_empty ids then (none, w) else begun ids (attempt sys w)

  abbrev pub finish : Scanner → Database → List String → Backup → Option String × World → Deletion
  finish s db ids b (some e, w) = refuse ("delete: " <> e) db w
  finish s db ids b (none, w) =
      let m : Manifest = record {
        source_path = s.db_path;
        backup_path = b.path;
        manifest_error = "";
        timestamp = s.now;
        threshold = s.stale_after;
        deleted_ids = ids;
        file_count = b.file_count;
      } in
      record {
        failure = none;
        manifest = some (elim (sys.error w.calls) [
          | none ↦ m
          | some e ↦ record m { manifest_error = "manifest write failed: " <> e }
        ]);
        db = without ids db;
        world = called w;
      }

  abbrev pub after_backup : Scanner → Database → List String → Result Backup × World → Deletion
  after_backup s db ids (Result.fail e, w) = refuse ("backup: " <> e) db w
  after_backup s db ids (Result.done b, w) = finish s db ids b (delete_repairable ids w)

  abbrev pub nothing_to_delete : Scanner → Database → World → Deletion
  nothing_to_delete s db w = record {
    failure = none;
    manifest = some (record {
      source_path = s.db_path;
      backup_path = "";
      manifest_error = "";
      timestamp = s.now;
      threshold = s.stale_after;
      deleted_ids = [];
      file_count = 0;
    });
    db = db;
    world = w;
  }

  abbrev pub after_collect : String → Scanner → Database → Option String × World → Deletion
  after_collect dir s db (some e, w) = refuse ("collect repairable IDs: " <> e) db w
  after_collect dir s db (none, w) =
      let ids = ids_of (repairable_rows (stale_cutoff s) db) in
      if is_empty ids
      then nothing_to_delete s db w
      else after_backup s db ids (backup_db sys dir s.db_path w)

  -- SessionDebtScanner.ApplyDeletion on a database that is open.
  pub apply_deletion : String → Scanner → Database → World → Deletion
  unfolding delete_repairable
  apply_deletion dir s db w =
      if is_blank dir
      then refuse "refusing deletion without --backup-dir: backup directory is required for safety"
          db w
      else after_collect dir s db (attempt sys w)
