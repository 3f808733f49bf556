-- ===== src/Render/Atomic/Prunes.antt =====
-- What pruning removes: none but the names that the glob matched.
use opencode_advance.Prelude.{
  ℕ, zero, suc, ℤ, pos, negsuc, String, ◌≡◌, ◌≢◌, refl, Option, none, some, List, [], ◌∷◌, map, inl,
  inr, Option-cases, Result, All, Bool-cases, ltb_ℤ,
}
use opencode_advance.Render.Disk.{Files, Disk, System, tick, remove}
use opencode_advance.Render.Disk.Laws.{remove-fail, remove-done}
use opencode_advance.Render.Atomic.{
  after_first, insert_item, newest_first, backup_items, put_item, victims, remove_all,
  remove_matches, cleanup_orphan_backup_temps, prune_backups, backup_glob, orphan_backup_temp_glob,
}
use opencode_advance.Render.Atomic.Names.{Kind, Names, Keeps, Keeps-put, kind-ne}

module _ (P : String → Type 0) where
  abbrev ItemP : String × ℤ → Type 0
  ItemP item = P item.0

  All-after_first : (n : ℕ) (xs : List (String × ℤ)) → All ItemP xs → All ItemP (after_first n xs)
  All-after_first zero xs h = h
  All-after_first (suc n) [] h = h
  All-after_first (suc n) (x ∷ xs) h = All-after_first n xs h.1

  All-insert_item :
      (x : String × ℤ) (xs : List (String × ℤ))
      → ItemP x
      → All ItemP xs
      → All ItemP (insert_item x xs)
  unfolding insert_item
  All-insert_item x [] p h = (p, tt)
  All-insert_item x (y ∷ ys) p h = elim (Bool-cases (ltb_ℤ x.1 y.1)) [
    | inl e ↦ rw e (h.0, All-insert_item x ys p h.1)
    | inr e ↦ rw e (p, h)
  ]

  All-newest_first : (xs : List (String × ℤ)) → All ItemP xs → All ItemP (newest_first xs)
  unfolding newest_first
  All-newest_first [] h = tt
  All-newest_first (x ∷ xs) h = All-insert_item x (newest_first xs) h.0 (All-newest_first xs h.1)

  All-put_item :
      (m : String) (v : Option ℤ) (xs : List (String × ℤ))
      → P m
      → All ItemP xs
      → All ItemP (put_item m v xs)
  All-put_item m none xs p h = h
  All-put_item m (some epoch) xs p h = (p, h)

  All-backup_items : (ms : List String) → All P ms → All ItemP (backup_items ms)
  unfolding backup_items
  All-backup_items [] h = tt
  All-backup_items (m ∷ ms) h = All-put_item m _ (backup_items ms) h.0 (All-backup_items ms h.1)

  All-names :
      (xs : List (String × ℤ)) → All ItemP xs → All P (map (λ (item : String × ℤ). item.0) xs)
  All-names [] h = tt
  All-names (x ∷ xs) h = (h.0, All-names xs h.1)

  pub All-victims : (keep : ℤ) (ms : List String) → All P ms → All P (victims keep ms)
  unfolding victims
  All-victims (negsuc n) ms h = h
  All-victims (pos zero) ms h = h
  All-victims (pos (suc n)) ms h =
      All-names (after_first (suc n) (newest_first (backup_items ms)))
        (All-after_first (suc n) _ (All-newest_first _ (All-backup_items ms h)))

module _ (sys : System) (kind : String → Kind) (path : String) (f : Files) where
  -- Neither a temporary name nor one of the backups of `path`.
  abbrev pub Others : String → Type 0
  Others q = (kind q ≢ Kind.temporary) × (kind q ≢ Kind.backup_of path)

  abbrev IsBackup : String → Type 0
  IsBackup m = kind m ≡ Kind.backup_of path

  Keeps-remove :
      (m : String) (d : Disk)
      → IsBackup m
      → Keeps Others f d.files
      → Keeps Others f (remove sys m d).1.files
  Keeps-remove m d b h = elim (Option-cases (sys.error d.calls)) [
    | inr (e, x) ↦ rw (remove-fail sys d e x m) h
    | inl x ↦
        rw (remove-done sys d x m) (
          Keeps-put Others m none f d.files (λ q k. kind-ne kind m q (Kind.backup_of path) b k.1) h)
  ]

  Keeps-remove_all :
      (ms : List String) (first : Option String) (d : Disk)
      → All IsBackup ms
      → Keeps Others f d.files
      → Keeps Others f (remove_all sys ms first d).1.files
  unfolding remove_all
  Keeps-remove_all [] first d b h = h
  Keeps-remove_all (m ∷ ms) first d b h =
      Keeps-remove_all ms _ (remove sys m d).1 b.1 (Keeps-remove m d b.0 h)

  Keeps-remove_matches :
      (keep : ℤ) (r : Result (List String)) (d : Disk)
      → ((ms : List String) → r ≡ Result.done ms → All IsBackup ms)
      → Keeps Others f d.files
      → Keeps Others f (remove_matches sys keep r d).1.files
  Keeps-remove_matches keep (Result.fail e) d b h = h
  Keeps-remove_matches keep (Result.done ms) d b h =
      Keeps-remove_all (victims keep ms) none d (All-victims IsBackup keep ms (b ms refl)) h

  module _ (names : Names sys kind path) (d : Disk) (h : Keeps Others f d.files) where
    pub Keeps-cleanup : Keeps Others f (cleanup_orphan_backup_temps sys path d).1.files
    unfolding cleanup_orphan_backup_temps
    Keeps-cleanup =
        Keeps-remove_matches (pos 0) (sys.glob d.calls (orphan_backup_temp_glob path)) (tick d)
          (names.globbed_temps d.calls) h

    pub Keeps-prune : (keep : ℤ) → Keeps Others f (prune_backups sys path keep d).1.files
    unfolding prune_backups
    Keeps-prune keep =
        Keeps-remove_matches keep (sys.glob d.calls (backup_glob path)) (tick d)
          (names.globbed d.calls) h
