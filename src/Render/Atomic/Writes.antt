-- ===== src/Render/Atomic/Writes.antt =====
-- WriteAtomic as a whole: the file is replaced or left alone, and the backup holds what it was.
use text.Mathlib.TextPositions.{len-append}
use Prim.Native.String.{len}
use opencode_advance.Prelude.{
  ℕ, suc, ℤ, pos, ◌-ℤ◌, String, true, false, ◌≡◌, ◌≢◌, refl, sym, ap, ◌∙◌, Option, none, some,
  Result, dir_path, ◌<>◌, str_eq, eq_iff, is_blank, show, arith, inl, inr, Option-cases, Bool-cases,
}
use opencode_advance.Render.Disk.{
  File, Files, Disk, System, Reading, put, tick, reading, content_of, mode_of, create_temp,
  try_call, read,
}
use opencode_advance.Render.Disk.Laws.{
  read-fail, read-done, write_file-fail, write_file-done, rename-fail, rename-done,
}
use opencode_advance.Render.Atomic.{
  Write, wrote, or_fail, is_positive, backup_name, install, set_mode, close_temp, fill_temp,
  with_temp, replace, back_up, name_backup, prune_backups, cleanup_orphan_backup_temps,
  after_reading, write_atomic,
}
use opencode_advance.Render.Atomic.Names.{Kind, Names, Keeps, put_self, Keeps-put, kind-ne}
use opencode_advance.Render.Atomic.Replaces.{Filled, replace-Filled}
use opencode_advance.Render.Atomic.Prunes.{Others, Keeps-cleanup, Keeps-prune}

-- What a successful write says of the backup.
pub data Backed (kind : String → Kind) (path content : String) (max : ℤ) (f : Files) (w : Write)
    : Type 0 where
  created : content_of (f path) ≡ none → is_blank w.backup ≡ true → Backed kind path content max f w
  equal :
      content_of (f path) ≡ some content
      → is_blank w.backup ≡ true
      → Backed kind path content max f w
  without : is_positive max ≡ false → is_blank w.backup ≡ true → Backed kind path content max f w
  backed :
      is_blank w.backup ≡ false
      → kind w.backup ≡ Kind.backup_of path
      → content_of (w.disk.files w.backup) ≡ content_of (f path)
      → Backed kind path content max f w

-- Either an error, and nothing but temporary files and backups of `path` is touched; or the file
-- holds the content, and nothing else is touched.
pub data Replaces (sys : System) (kind : String → Kind) (path content : String) (max : ℤ)
    (f : Files) (w : Write) : Type 0 where
  refused :
      (e : String)
      → w.failure ≡ some e
      → Keeps (Others sys kind path f) f w.disk.files
      → Replaces sys kind path content max f w
  replaced :
      w.failure ≡ none
      → content_of (w.disk.files path) ≡ some content
      → Keeps (λ q. Others sys kind path f q × (path ≢ q)) f w.disk.files
      → Backed kind path content max f w
      → Replaces sys kind path content max f w

-- Which backup a write reports.
or_fail-backup :
    (x : Option String × Disk) (b : String) (next : Disk → Write)
    → ((d : Disk) → (next d).backup ≡ b)
    → (or_fail x b next).backup ≡ b
or_fail-backup (some e, d) b next h = refl
or_fail-backup (none, d) b next h = h d

module _ (sys : System) (path content : String) (mode : ℕ) (b : String) where
  backup-fill_temp :
      (tmp : String) (d : Disk) → (fill_temp sys path content mode b tmp d).backup ≡ b
  unfolding fill_temp
  backup-fill_temp tmp d = or_fail-backup _ b (close_temp sys path mode tmp b) λ d.
      or_fail-backup _ b (set_mode sys path mode tmp b)
        λ d. or_fail-backup _ b (install sys path tmp b) λ d. or_fail-backup _ b (wrote b) λ d. refl

  backup-with_temp : (x : Result String × Disk) → (with_temp sys path content mode b x).backup ≡ b
  backup-with_temp (Result.fail e, d) = refl
  backup-with_temp (Result.done tmp, d) = backup-fill_temp tmp d

  backup-replace : (d : Disk) → (replace sys path content mode b d).backup ≡ b
  unfolding replace
  backup-replace d = backup-with_temp (create_temp sys (dir_path path) d)

is_blank-backup_name : (path : String) (n : ℕ) → is_blank (backup_name path n) ≡ false
is_blank-backup_name path n = elim (Bool-cases (is_blank (backup_name path n))) [
  | inr e ↦ e
  | inl e ↦ absurd (
      omega (
        arith,
        ap len ((eq_iff (backup_name path n) "").0 e),
        len-append path (".bak." <> show n),
        len-append ".bak." (show n),
      ))
]

module _ (sys : System) (kind : String → Kind) (path : String) (names : Names sys kind path)
    (content : String) (mode : ℕ) (max : ℤ) (f : Files) where
  abbrev Kept : Files → Type 0
  Kept = Keeps (Others sys kind path f) f

  abbrev Goal : Write → Type 0
  Goal = Replaces sys kind path content max f

  abbrev Rest : Files → Write → Type 0
  Rest g w = Keeps (λ q. (kind q ≢ Kind.temporary) × (path ≢ q)) g w.disk.files

  plain-Others : Others sys kind path f path
  plain-Others = (λ e. ground (arith, e, names.plain), λ e. ground (arith, e, names.plain))

  Filled-Replaces :
      (g : Files) (w : Write)
      → Kept g
      → Filled kind path content g w
      → (Rest g w → Backed kind path content max f w)
      → Goal w
  Filled-Replaces g w k (Filled.kept e x s) b = Replaces.refused e x (λ q o. s q o.0 ∙ k q o)
  Filled-Replaces g w k (Filled.filled x c s) b =
      Replaces.replaced x c (λ q o. s q (o.0.0, o.1) ∙ k q o.0) (b s)

  or_fail-Replaces :
      (x : Option String × Disk) (b : String) (next : Disk → Write)
      → Kept x.1.files
      → (Kept x.1.files → Goal (next x.1))
      → Goal (or_fail x b next)
  or_fail-Replaces (some e, d) b next k g = Replaces.refused e refl k
  or_fail-Replaces (none, d) b next k g = g k

  -- Without a backup.
  replace-Replaces :
      (d : Disk)
      → Kept d.files
      → ((w : Write) → is_blank w.backup ≡ true → Backed kind path content max f w)
      → Goal (replace sys path content mode "" d)
  replace-Replaces d k b =
      Filled-Replaces d.files (replace sys path content mode "" d) k
        (replace-Filled sys kind path names content d.files mode "" d (λ q o. refl))
        (λ s. b _ (ap is_blank (backup-replace sys path content mode "" d)))

  module _ (existing : String) (was : content_of (f path) ≡ some existing) (now : ℕ) where
    abbrev backup : String
    backup = backup_name path (sys.now now)

    Keeps-backup : (v : Option File) (g : Files) → Kept g → Kept (put backup v g)
    Keeps-backup v g k =
        Keeps-put (Others sys kind path f) backup v f g
          (λ q o. kind-ne kind backup q (Kind.backup_of path) (names.backups now) o.1) k

    Keeps-backup_temp : (v : Option File) (g : Files) → Kept g → Kept (put (backup <> ".tmp") v g)
    Keeps-backup_temp v g k =
        Keeps-put (Others sys kind path f) (backup <> ".tmp") v f g
          (λ q o.
            kind-ne kind (backup <> ".tmp") q (Kind.backup_of path) (names.backup_temps now) o.1)
          k

    path-ne-backup : path ≢ backup
    path-ne-backup e = absurd (ground (arith, ap kind e, names.plain, names.backups now))

    backup-not-temporary : kind backup ≢ Kind.temporary
    backup-not-temporary e = absurd (ground (arith, e, names.backups now))

    -- With the backup in place.
    backed-Replaces :
        (d : Disk)
        → Kept d.files
        → content_of (d.files backup) ≡ some existing
        → Goal (replace sys path content mode backup d)
    backed-Replaces d k c =
        let w = replace sys path content mode backup d in
        let same = backup-replace sys path content mode backup d in
        Filled-Replaces d.files w k
          (replace-Filled sys kind path names content d.files mode backup d (λ q o. refl))
          λ s.
            Backed.backed (ap is_blank same ∙ is_blank-backup_name path (sys.now now))
              (ap kind same ∙ names.backups now)
              (ap (λ n. content_of (w.disk.files n)) same
                ∙ ap content_of (s backup (backup-not-temporary, path-ne-backup))
                ∙ c
                ∙ sym was)

    moved-Replaces :
        (d : Disk) (file : File)
        → Kept d.files
        → file.content ≡ existing
        → Goal (
            replace sys path content mode backup (record {
              files = put backup (some file) (put (backup <> ".tmp") none d.files);
              calls = suc d.calls;
            }))
    moved-Replaces d file k c =
        backed-Replaces _ (Keeps-backup (some file) _ (Keeps-backup_temp none d.files k)) (
          ap content_of (put_self backup (some file) (put (backup <> ".tmp") none d.files))
          ∙ ap some c)

    name_backup-Replaces :
        (d : Disk)
        → Kept d.files
        → content_of (d.files (backup <> ".tmp")) ≡ some existing
        → Goal (name_backup sys path content mode backup d)
    name_backup-Replaces d k c = elim (Option-cases (sys.error d.calls)) [
      | inr (e, h) ↦
          rw (rename-fail sys d e h (backup <> ".tmp") backup) (Replaces.refused e refl k)
      | inl h ↦ elim (Option-cases (d.files (backup <> ".tmp"))) [
        | inl z ↦ absurd (ground (arith, ap content_of z, c))
        | inr (file, z) ↦
            rw (rename-done sys d h (backup <> ".tmp") backup (some file) z)
              (moved-Replaces d file k (ground (arith, ap content_of z, c)))
      ]
    ]

  back_up-Replaces :
      (existing : String)
      → content_of (f path) ≡ some existing
      → (d : Disk) → Kept d.files
      → Goal (back_up sys path content mode existing d)
  unfolding back_up
  back_up-Replaces existing was d k =
      let temp = backup_name path (sys.now d.calls) <> ".tmp" in
      elim (Option-cases (sys.error d.calls)) [
        | inr (e, h) ↦
            rw (write_file-fail sys d e h temp existing mode)
              (Replaces.refused e refl (Keeps-backup_temp existing was d.calls _ d.files k))
        | inl h ↦ rw (write_file-done sys d h temp existing mode) (
            name_backup-Replaces existing was d.calls _
              (Keeps-backup_temp existing was d.calls _ d.files k)
              (ap content_of (
                put_self temp
                  (some (record { content = existing; mode = mode_of (d.files temp) mode }))
                  d.files)))
      ]

  found-Replaces :
      (file : File)
      → f path ≡ some file
      → (d : Disk) → Kept d.files
      → Goal (after_reading sys path content mode max (Reading.found file.content, d))
  found-Replaces file z d k = elim (Bool-cases (str_eq file.content content)) [
    | inl e ↦
        let was : content_of (f path) ≡ some content =
          ap content_of z ∙ ap some ((eq_iff file.content content).0 e) in
        rw e (
          Replaces.replaced refl (ap content_of (k path plain-Others) ∙ was) (λ q o. k q o.0)
            (Backed.equal was refl))
    | inr e ↦ elim (Bool-cases (is_positive max)) [
      | inl p ↦
          rw (e, p)
            (or_fail-Replaces (prune_backups sys path (max -ℤ pos 1) d) ""
              (back_up sys path content mode file.content)
              (Keeps-prune sys kind path f names d k (max -ℤ pos 1))
              (λ k. back_up-Replaces file.content (ap content_of z) _ k))
      | inr p ↦ rw (e, p) (replace-Replaces d k (λ w b. Backed.without p b))
    ]
  ]

  reading-Replaces :
      (v : Option File)
      → f path ≡ v
      → (d : Disk) → Kept d.files
      → Goal (after_reading sys path content mode max (reading v, d))
  reading-Replaces none z d k = replace-Replaces d k (λ w b. Backed.created (ap content_of z) b)
  reading-Replaces (some file) z d k = found-Replaces file z d k

  after_reading-Replaces :
      (d : Disk) → Kept d.files → Goal (after_reading sys path content mode max (read sys path d))
  after_reading-Replaces d k = elim (Option-cases (sys.error d.calls)) [
    | inr (e, h) ↦ rw (read-fail sys d e h path) (Replaces.refused e refl k)
    | inl h ↦
        rw (read-done sys d h path)
          (reading-Replaces (d.files path) (sym (k path plain-Others)) (tick d) k)
  ]

files-try_call : (sys : System) (d : Disk) → (try_call sys d).1.files ≡ d.files
unfolding try_call
files-try_call sys d = refl

-- WriteAtomic replaces the file or leaves it alone, whichever calls fail. After an error, nothing but
-- temporary files and backups of the path is touched. After a success the path holds the content,
-- no other file but such names is touched, and unless there was no file, the file held the content
-- already or backups are switched off, the backup that is returned holds what the file held. The
-- condition is that temporary names, backup names and the matches of the globs can be told from the
-- path.
pub write_atomic-Replaces :
    (sys : System) (kind : String → Kind) (path : String)
    → Names sys kind path
    → (content : String) (mode : ℕ) (max : ℤ) (d : Disk)
    → Replaces sys kind path content max d.files (write_atomic sys path content mode max d)
unfolding write_atomic
write_atomic-Replaces sys kind path names content mode max d =
    let f = d.files in
    or_fail-Replaces sys kind path names content mode max f (cleanup_orphan_backup_temps sys path d)
      "" _ (Keeps-cleanup sys kind path f names d (λ q o. refl))
      λ k.
        or_fail-Replaces sys kind path names content mode max f (try_call sys _) "" _
          (λ q o. ap (λ (g : Files). g q) (files-try_call sys _) ∙ k q o)
          (λ k. after_reading-Replaces sys kind path names content mode max f _ k)
