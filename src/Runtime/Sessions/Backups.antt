-- ===== src/Runtime/Sessions/Backups.antt =====
-- What a backup leaves in the log: its copies, among them one of the database file.
use opencode_advance.Prelude.{
  ℕ, suc, String, Bool, true, false, ◌≡◌, refl, ap, ◌∙◌, Option, none, some, List, [], ◌∷◌, ◌++◌,
  inl, inr, if◌then◌else◌, is_blank, All, Memᴰ, Result, Option-cases, ◌<>◌, starts_with, split_path,
  clean_path,
}
use opencode_advance.Runtime.Sessions.Copies.{
  Event, System, World, Backup, copy_file, copied_main, copied_too, copy_beside, copy_files,
  made_dir, called, backup_db, has_dot_dot,
}

-- An event of the backup.
abbrev pub IsOfBackup : Event → Type 0
IsOfBackup (Event.copied src dst e) = Unit
IsOfBackup (Event.emptied path) = Unit
IsOfBackup (Event.row_deleted id e) = ⊥
IsOfBackup (Event.commit e) = ⊥

-- A backup that succeeds has tried to copy the main file, and done nothing but copies.
pub data HasCopy (db_path : String) (w : World) (x : Result Backup × World) : Type 0 where
  no_copy : (e : String) → x.0 ≡ Result.fail e → HasCopy db_path w x
  copy :
      (b : Backup) (e : Option String) (backup : List Event)
      → x.0 ≡ Result.done b
      → x.1.log ≡ backup ++ w.log
      → All IsOfBackup backup
      → Memᴰ (Event.copied db_path b.path e) backup
      → HasCopy db_path w x

if-HasCopy :
    (db_path : String) (w : World) (b : Bool) (x y : Result Backup × World)
    → HasCopy db_path w x
    → HasCopy db_path w y
    → HasCopy db_path w (if b then x else y)
if-HasCopy db_path w true x y h k = h
if-HasCopy db_path w false x y h k = k

module _ (sys : System) where
  -- The copy of the main file, with the empty file that may stand for it.
  copied_main-log :
      (db_path path : String) (w : World)
      → (main : List Event) × ((copied_main sys path (copy_file sys db_path path w)).1.log
          ≡ main ++ w.log)
        × All IsOfBackup main
        × Memᴰ (Event.copied db_path path (sys.error w.calls)) main
  copied_main-log db_path path w = elim (Option-cases (sys.error w.calls)) [
    | inl h ↦ rw h (Event.copied db_path path none ∷ [], refl, (tt, tt), Memᴰ.head refl)
    | inr (e, h) ↦ elim (Option-cases (sys.error (suc w.calls))) [
      | inl k ↦ rw h (
          rw k (
            Event.emptied path ∷ Event.copied db_path path (some e) ∷ [],
            refl,
            (tt, (tt, tt)),
            Memᴰ.tail (Memᴰ.head refl),
          ))
      | inr (e', k) ↦
          rw h (rw k (Event.copied db_path path (some e) ∷ [], refl, (tt, tt), Memᴰ.head refl))
    ]
  ]

  copied_too-log : (n : ℕ) (x : Option String × World) → (copied_too sys n x).1.log ≡ x.1.log
  copied_too-log n (none, w) = refl
  copied_too-log n (some e, w) = refl

  copy_beside-log :
      (suffix src dst : String) (x : ℕ × World)
      → (copy_beside sys suffix src dst x).1.log
        ≡ Event.copied (src <> suffix) (dst <> suffix) (sys.error x.1.calls) ∷ x.1.log
  copy_beside-log suffix src dst (n, w) =
      copied_too-log n (copy_file sys (src <> suffix) (dst <> suffix) w)

  copy_files-HasCopy :
      (db_path path : String) (w : World) → HasCopy db_path w (copy_files sys db_path path w)
  copy_files-HasCopy db_path path w =
      let (main, l, a, m) = copied_main-log db_path path w in
      let first = copied_main sys path (copy_file sys db_path path w) in
      let second = copy_beside sys "-wal" db_path path first in
      let wal : Event =
        Event.copied (db_path <> "-wal") (path <> "-wal") (sys.error first.1.calls) in
      let shm : Event =
        Event.copied (db_path <> "-shm") (path <> "-shm") (sys.error second.1.calls) in
      HasCopy.copy _ (sys.error w.calls) (shm ∷ wal ∷ main) refl
        (copy_beside-log "-shm" db_path path second
          ∙ ap (λ log. shm ∷ log)
              (copy_beside-log "-wal" db_path path first ∙ ap (λ log. wal ∷ log) l))
        (tt, (tt, a)) (Memᴰ.tail (Memᴰ.tail m))

  made_dir-HasCopy :
      (dir db_path : String) (e : Option String) (w : World)
      → HasCopy db_path w (made_dir sys dir db_path e w)
  made_dir-HasCopy dir db_path (some e) w = HasCopy.no_copy _ refl
  made_dir-HasCopy dir db_path none w = copy_files-HasCopy db_path _ w

  called-HasCopy :
      (db_path : String) (w : World) (x : Result Backup × World)
      → HasCopy db_path (called w) x
      → HasCopy db_path w x
  called-HasCopy db_path w x (HasCopy.no_copy e h) = HasCopy.no_copy e h
  called-HasCopy db_path w x (HasCopy.copy b e backup h l a m) = HasCopy.copy b e backup h l a m

  pub backup_db-HasCopy :
      (dir db_path : String) (w : World) → HasCopy db_path w (backup_db sys dir db_path w)
  unfolding backup_db
  backup_db-HasCopy dir db_path w =
      if-HasCopy db_path w (is_blank db_path)
        (Result.fail "cannot determine database path for backup", w) _ (HasCopy.no_copy _ refl)
        (if-HasCopy db_path w (starts_with dir "/")
          (Result.fail ("backup directory must be relative, absolute path not allowed: " <> dir), w)
          _ (HasCopy.no_copy _ refl)
          (if-HasCopy db_path w (has_dot_dot (split_path (clean_path dir)))
            (Result.fail ("backup directory path traversal not allowed: " <> dir), w) _
            (HasCopy.no_copy _ refl)
            (if-HasCopy db_path w (sys.is_symlink dir)
              (Result.fail "backup directory cannot be a symlink", w) _ (HasCopy.no_copy _ refl)
              (called-HasCopy db_path w _
                (made_dir-HasCopy dir db_path (sys.error w.calls) (called w))))))
