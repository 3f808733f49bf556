-- ===== src/Render/Apply/Undoes.antt =====
-- One round of rollback: what a write did to a file is undone.
use opencode_advance.Prelude.{
  String, Bool, true, false, not, ◌≡◌, ◌≢◌, ◌⊎◌, refl, sym, ap, ◌∙◌, Option, none, some, List, [],
  ◌∷◌, is_blank, arith, inl, inr, Option-cases, if◌then◌else◌, All, ◌<>◌,
}
use opencode_advance.Render.Disk.{
  File, Files, Disk, System, Reading, reading, content_of, mode_of, put, tick, read, remove,
  write_file,
}
use opencode_advance.Render.Disk.Laws.{
  read-fail, read-done, remove-fail, remove-done, write_file-fail, write_file-done,
}
use opencode_advance.Render.Atomic.Names.{Kind, Keeps}
use opencode_advance.Render.Atomic.Prunes.{Others}
use opencode_advance.Render.Apply.{TargetOp, TargetResult, Done, noted, restore, undo}

module _ (sys : System) (kind : String → Kind) where
  -- What the result of a write keeps of `before`, in `after`.
  pub data Saved (path : String) (r : TargetResult) (before after : Files) : Type 0 where
    fresh :
        content_of (before path) ≡ none → is_blank r.backup_path ≡ true → Saved path r before after
    saved :
        is_blank r.backup_path ≡ false
        → kind r.backup_path ≡ Kind.backup_of path
        → content_of (after r.backup_path) ≡ content_of (before path)
        → Saved path r before after

  -- From `orig`, the targets of `done` lead to the files `f`.
  pub data Led (orig : Files) : Done → Files → Type 0 where
    start :
        {f : Files}
        → ((q : String) → kind q ≡ Kind.ordinary → content_of (f q) ≡ content_of (orig q))
        → Led orig [] f
    skipped :
        {t : TargetOp} {r : TargetResult} {done : Done} {f : Files}
        → r.wrote ≡ false
        → Led orig done f
        → Led orig ((t, r) ∷ done) f
    over :
        {t : TargetOp} {r : TargetResult} {done : Done} {f : Files} (g : Files)
        → r.wrote ≡ true
        → r.path ≡ t.path
        → Led orig done g
        → Keeps (λ q. Others sys kind t.path g q × (t.path ≢ q)) g f
        → Saved t.path r g f
        → Led orig ((t, r) ∷ done) f

  -- The names that a rollback of `done` depends on.
  abbrev pub Watched : Done → String → Type 0
  Watched [] q = kind q ≡ Kind.ordinary
  Watched ((t, r) ∷ done) q = (kind q ≡ Kind.backup_of t.path) ⊎ Watched done q

  abbrev pub SameOn : Done → Files → Files → Type 0
  SameOn done f g = (q : String) → Watched done q → content_of (g q) ≡ content_of (f q)

  pub ordinary-Watched : (done : Done) (q : String) → kind q ≡ Kind.ordinary → Watched done q
  ordinary-Watched [] q o = o
  ordinary-Watched ((t, r) ∷ done) q o = inr (ordinary-Watched done q o)

  pub Watched-Others :
      (path : String) (f : Files) (done : Done) (q : String)
      → All (λ (e : TargetOp × TargetResult). path ≢ e.0.path) done
      → Watched done q
      → Others sys kind path f q
  Watched-Others path f [] q n w = (λ e. ground (arith, e, w), λ e. ground (arith, e, w))
  Watched-Others path f ((t, r) ∷ done) q n (inl b) =
      (λ e. ground (arith, e, b), λ e. n.0 (ground (arith, e, b)))
  Watched-Others path f ((t, r) ∷ done) q n (inr w) = Watched-Others path f done q n.1 w

  -- After a round without an error the file holds what it held before the write.
  pub data Undone (t : TargetOp) (before : Option File) (d : Disk) (x : List String × Disk)
      : Type 0 where
    undone :
        (v : Option File)
        → content_of v ≡ content_of before
        → x.1.files ≡ put t.path v d.files
        → Undone t before d x

  module _ (t : TargetOp) (r : TargetResult) (p : r.path ≡ t.path) (before : Option File) where
    noted-Undone :
        (label : String) (d : Disk) (x : Option String × Disk) (v : Option File)
        → (x.0 ≡ none → x.1.files ≡ put t.path v d.files)
        → content_of v ≡ content_of before
        → (noted label x).0 ≡ []
        → Undone t before d (noted label x)
    noted-Undone label d (none, after) v f c ok = Undone.undone v c (f refl)
    noted-Undone label d (some e, after) v f c ok = absurd (ground (arith, ok))

    files-remove :
        (d : Disk)
        → (remove sys r.path d).0 ≡ none
        → (remove sys r.path d).1.files ≡ put t.path none d.files
    files-remove d ok = elim (Option-cases (sys.error d.calls)) [
      | inr (e, h) ↦ absurd (
          ground (arith, ap (λ (x : Option String × Disk). x.0) (remove-fail sys d e h r.path), ok))
      | inl h ↦ rw (remove-done sys d h r.path) (ap (λ n. put n none d.files) p)
    ]

    files-write_file :
        (d : Disk) (content : String)
        → (write_file sys r.path content t.mode d).0 ≡ none
        → (write_file sys r.path content t.mode d).1.files
          ≡ put t.path
              (some (record { content = content; mode = mode_of (d.files r.path) t.mode }))
              d.files
    files-write_file d content ok = elim (Option-cases (sys.error d.calls)) [
      | inr (e, h) ↦ absurd (
          ground (
            arith,
            ap (λ (x : Option String × Disk). x.0)
                (write_file-fail sys d e h r.path content t.mode),
            ok,
          ))
      | inl h ↦ rw (write_file-done sys d h r.path content t.mode) (
          ap
            (λ n.
              put n (some (record { content = content; mode = mode_of (d.files r.path) t.mode }))
                d.files)
            p)
    ]

    restore-Undone :
        (d : Disk) (v : Option File)
        → content_of v ≡ content_of before
        → (restore sys t r (reading v, tick d)).0 ≡ []
        → Undone t before d (restore sys t r (reading v, tick d))
    restore-Undone d none c ok = absurd (ground (arith, ok))
    restore-Undone d (some file) c ok =
        noted-Undone _ d (write_file sys r.path file.content t.mode (tick d)) _
          (files-write_file (tick d) file.content) c ok

    read-Undone :
        (d : Disk)
        → content_of (d.files r.backup_path) ≡ content_of before
        → (restore sys t r (read sys r.backup_path d)).0 ≡ []
        → Undone t before d (restore sys t r (read sys r.backup_path d))
    read-Undone d c ok = elim (Option-cases (sys.error d.calls)) [
      | inr (e, h) ↦ absurd (
          ground (
            arith,
            ap (λ (x : Reading × Disk). (restore sys t r x).0) (read-fail sys d e h r.backup_path),
            ok,
          ))
      | inl h ↦
          let x = read-done sys d h r.backup_path in
          rw x (
            restore-Undone d (d.files r.backup_path) c
              (ap (λ (y : Reading × Disk). (restore sys t r y).0) (sym x) ∙ ok))
    ]

    pick-Undone :
        (d : Disk) (a b : Bool) (x y z : List String × Disk)
        → a ≡ true
        → (b ≡ false → y.0 ≡ [] → Undone t before d y)
        → (b ≡ true → z.0 ≡ [] → Undone t before d z)
        → (if not a then x else if not b then y else z).0 ≡ []
        → Undone t before d (if not a then x else if not b then y else z)
    pick-Undone d true true x y z e f g ok = g refl ok
    pick-Undone d true false x y z e f g ok = f refl ok
    pick-Undone d false b x y z e f g ok = absurd (ground (arith, e))

    pub undo-Undone :
        (d : Disk)
        → r.wrote ≡ true
        → (is_blank r.backup_path ≡ true → none ≡ content_of before)
        → (is_blank r.backup_path ≡ false → content_of (d.files r.backup_path) ≡ content_of before)
        → (undo sys t r d).0 ≡ []
        → Undone t before d (undo sys t r d)
    unfolding undo
    undo-Undone d w f g ok =
        pick-Undone d r.wrote (is_blank r.backup_path) _
          (restore sys t r (read sys r.backup_path d)) (noted (_ <> r.path) (remove sys r.path d)) w
          (λ b y. read-Undone d (g b) y)
          (λ b y. noted-Undone _ d (remove sys r.path d) none (files-remove d) (f b) y) ok
