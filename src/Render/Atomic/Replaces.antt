-- ===== src/Render/Atomic/Replaces.antt =====
-- The second half of WriteAtomic: the temporary file is filled and renamed.
use opencode_advance.Prelude.{
  ℕ, suc, String, ◌≡◌, ◌≢◌, refl, ap, ◌∙◌, Option, none, some, arith, inl, inr, Option-cases,
  dir_path,
}
use opencode_advance.Render.Disk.{
  File, Files, Disk, put, set_file, tick, System, content_of, with_mode, mode_of, remove,
}
use opencode_advance.Render.Disk.Laws.{
  remove-fail, remove-done, try_call-fail, try_call-done, write_file-fail, write_file-done,
  rename-fail, rename-done, chmod-fail, chmod-done, create_temp-fail, create_temp-done,
}
use opencode_advance.Render.Atomic.{
  Write, wrote, discard, install, set_mode, close_temp, fill_temp, replace,
}
use opencode_advance.Render.Atomic.Names.{Kind, Names, Keeps, put-ne, put_self, Keeps-put, kind-ne}

-- Either an error, and `path` is as it was; or `path` holds the content.
pub data Filled (kind : String → Kind) (path content : String) (f : Files) (w : Write)
    : Type 0 where
  kept :
      (e : String)
      → w.failure ≡ some e
      → Keeps (λ q. kind q ≢ Kind.temporary) f w.disk.files
      → Filled kind path content f w
  filled :
      w.failure ≡ none
      → content_of (w.disk.files path) ≡ some content
      → Keeps (λ q. (kind q ≢ Kind.temporary) × (path ≢ q)) f w.disk.files
      → Filled kind path content f w

module _ (sys : System) (kind : String → Kind) (path : String) (names : Names sys kind path)
    (content : String) (f : Files) where
  abbrev Same : Files → Type 0
  Same = Keeps (λ q. kind q ≢ Kind.temporary) f

  abbrev Fills : Write → Type 0
  Fills = Filled kind path content f

  module _ (tmp backup : String) (t : kind tmp ≡ Kind.temporary) where
    Same-put : (v : Option File) (g : Files) → Same g → Same (put tmp v g)
    Same-put v g h =
        Keeps-put (λ q. kind q ≢ Kind.temporary) tmp v f g
          (λ q k. kind-ne kind tmp q Kind.temporary t k) h

    tmp-ne-path : tmp ≢ path
    tmp-ne-path e = absurd (ground (arith, ap kind e, t, names.plain))

    moved-Filled :
        (d : Disk) (file : File)
        → file.content ≡ content
        → Same d.files
        → Fills (
            wrote backup
              (record { files = put path (some file) (put tmp none d.files); calls = suc d.calls }))
    moved-Filled d file c s =
        Filled.filled refl
          (ap content_of (put_self path (some file) (put tmp none d.files)) ∙ ap some c)
          (λ q k.
            put-ne path q (some file) (put tmp none d.files) k.1 ∙ Same-put none d.files s q k.0)

    install-Filled :
        (d : Disk)
        → content_of (d.files tmp) ≡ some content
        → Same d.files
        → Fills (install sys path tmp backup d)
    install-Filled d c s = elim (Option-cases (sys.error d.calls)) [
      | inr (e, h) ↦ rw (rename-fail sys d e h tmp path) (Filled.kept e refl s)
      | inl h ↦ elim (Option-cases (d.files tmp)) [
        | inl z ↦ absurd (ground (arith, ap content_of z, c))
        | inr (file, z) ↦
            rw (rename-done sys d h tmp path (some file) z)
              (moved-Filled d file (ground (arith, ap content_of z, c)) s)
      ]
    ]

    content_of-with_mode :
        (mode : ℕ) (v : Option File)
        → content_of v ≡ some content
        → content_of (with_mode mode v) ≡ some content
    content_of-with_mode mode none c = c
    content_of-with_mode mode (some file) c = c

    set_mode-Filled :
        (mode : ℕ) (d : Disk)
        → content_of (d.files tmp) ≡ some content
        → Same d.files
        → Fills (set_mode sys path mode tmp backup d)
    set_mode-Filled mode d c s = elim (Option-cases (sys.error d.calls)) [
      | inr (e, h) ↦ rw (chmod-fail sys d e h tmp mode) (Filled.kept e refl s)
      | inl h ↦ rw (chmod-done sys d h tmp mode) (
          install-Filled (set_file tmp (with_mode mode (d.files tmp)) d)
            (ap content_of (put_self tmp (with_mode mode (d.files tmp)) d.files)
              ∙ content_of-with_mode mode (d.files tmp) c)
            (Same-put _ d.files s))
    ]

    close_temp-Filled :
        (mode : ℕ) (d : Disk)
        → content_of (d.files tmp) ≡ some content
        → Same d.files
        → Fills (close_temp sys path mode tmp backup d)
    close_temp-Filled mode d c s = elim (Option-cases (sys.error d.calls)) [
      | inr (e, h) ↦ rw (try_call-fail sys d e h) (Filled.kept e refl s)
      | inl h ↦ rw (try_call-done sys d h) (set_mode-Filled mode (tick d) c s)
    ]

    fill_temp-Filled :
        (mode : ℕ) (d : Disk) → Same d.files → Fills (fill_temp sys path content mode backup tmp d)
    unfolding fill_temp
    fill_temp-Filled mode d s = elim (Option-cases (sys.error d.calls)) [
      | inr (e, h) ↦
          rw (write_file-fail sys d e h tmp content 0) (Filled.kept _ refl (Same-put _ d.files s))
      | inl h ↦ rw (write_file-done sys d h tmp content 0) (
          close_temp-Filled mode
            (set_file tmp (some (record { content = content; mode = mode_of (d.files tmp) 0 })) d)
            (ap content_of (
              put_self tmp (some (record { content = content; mode = mode_of (d.files tmp) 0 }))
                d.files))
            (Same-put _ d.files s))
    ]

    -- The removal of the temporary file changes none of this.
    files-remove : (d : Disk) (q : String) → tmp ≢ q → (remove sys tmp d).1.files q ≡ d.files q
    files-remove d q n = elim (Option-cases (sys.error d.calls)) [
      | inr (e, h) ↦ rw (remove-fail sys d e h tmp)
      | inl h ↦ rw (remove-done sys d h tmp) (put-ne tmp q none d.files n)
    ]

    discard-Filled : (w : Write) → Fills w → Fills (discard sys tmp w)
    discard-Filled w (Filled.kept e x s) =
        Filled.kept e x
          (λ q k. files-remove w.disk q (kind-ne kind tmp q Kind.temporary t k) ∙ s q k)
    discard-Filled w (Filled.filled x c s) =
        Filled.filled x (ap content_of (files-remove w.disk path tmp-ne-path) ∙ c)
          (λ q k. files-remove w.disk q (kind-ne kind tmp q Kind.temporary t k.0) ∙ s q k)

  pub replace-Filled :
      (mode : ℕ) (backup : String) (d : Disk)
      → Same d.files
      → Fills (replace sys path content mode backup d)
  unfolding replace
  replace-Filled mode backup d s = elim (Option-cases (sys.error d.calls)) [
    | inr (e, h) ↦ rw (create_temp-fail sys d e h (dir_path path)) (Filled.kept e refl s)
    | inl h ↦
        let tmp = sys.temp d.calls (dir_path path) in
        let t = names.temps d.calls in
        rw (create_temp-done sys d h (dir_path path)) (
          discard-Filled tmp backup t _
            (fill_temp-Filled tmp backup t mode _ (Same-put tmp backup t _ d.files s)))
  ]
