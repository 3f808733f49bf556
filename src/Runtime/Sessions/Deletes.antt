-- ===== src/Runtime/Sessions/Deletes.antt =====
-- What ApplyDeletion deletes.
use opencode_advance.Prelude.{
  String, Bool, false, not, ◌≡◌, Option, none, some, List, [], ◌∷◌, ◌++◌, is_blank, All, Memᴰ,
  Result,
}
use opencode_advance.Runtime.Sessions.Copies.{Event, System, World, Backup}
use opencode_advance.Runtime.Sessions.Rows.{HasDistinctIds}
use opencode_advance.Runtime.Sessions.Backups.{IsOfBackup}
use opencode_advance.Runtime.Debt.{
  Row, Database, Scanner, repairable_predicate, holds, select, repairable_rows, stale_cutoff,
}
use opencode_advance.Runtime.Sessions.{Manifest, Deletion, ids_of}

-- The log after the statements that delete the messages of the ids, one after the other.
abbrev pub after_deletions : List String → List Event → List Event
after_deletions [] log = log
after_deletions (id ∷ ids) log = after_deletions ids (Event.row_deleted id none ∷ log)

-- The ways in which ApplyDeletion can end, from the world `w` on.
pub data Deletes (dir : String) (s : Scanner) (db : Database) (w : World) (o : Deletion)
    : Type 0 where
  refused : (e : String) → o.failure ≡ some e → o.db ≡ db → Deletes dir s db w o
  clean :
      o.failure ≡ none
      → o.db ≡ db
      → o.world.log ≡ w.log
      → repairable_rows (stale_cutoff s) db ≡ []
      → Deletes dir s db w o
  deleted :
      (m : Manifest) (e : Option String) (backup : List Event)
      → is_blank dir ≡ false
      → o.failure ≡ none
      → o.manifest ≡ some m
      → m.deleted_ids ≡ ids_of (repairable_rows (stale_cutoff s) db)
      → o.db ≡ record db {
        messages =
            select
              (λ row. not (holds (repairable_predicate (stale_cutoff s) db.parts row)))
              db.messages;
      }
      → o.world.log ≡ Event.commit none ∷ after_deletions m.deleted_ids (backup ++ w.log)
      → All IsOfBackup backup
      → Memᴰ (Event.copied s.db_path m.backup_path e) backup
      → Deletes dir s db w o

abbrev path_of : Result Backup → String
path_of (Result.fail e) = ""
path_of (Result.done b) = b.path

module _ (sys : System) where
  module _ (dir : String) (given : is_blank dir ≡ false) (s : Scanner) (db : Database)
      (distinct : HasDistinctIds db.messages) (w : World) where
    abbrev P : Row → Bool
    P row = holds (repairable_predicate (stale_cutoff s) db.parts row)

    abbrev ids : List String
    ids = ids_of (repairable_rows (stale_cutoff s) db)
