-- ===== src/Render/Apply/Restores.antt =====
-- An Apply that fails and rolls back.
use opencode_advance.Prelude.{
  ℤ, String, Bool, true, false, ◌≡◌, ◌≢◌, refl, sym, ap, ◌∙◌, Option, none, some, List, [], ◌∷◌,
  if◌then◌else◌, All, Pairs, subst,
}
use opencode_advance.Render.Disk.{Files, Disk, System, content_of}
use opencode_advance.Render.Atomic.{write_atomic, is_positive}
use opencode_advance.Render.Atomic.Names.{Kind, Names}
use opencode_advance.Render.Atomic.Writes.{write_atomic-Replaces}
use opencode_advance.Render.Apply.{
  TargetOp, Plan, ApplyOptions, Applied, Done, is_noop, unwritten, written, max_for,
  default_backups, fail_apply, apply_targets, apply_locked, apply,
}
use opencode_advance.Render.Apply.Undoes.{Led}
use opencode_advance.Render.Apply.Rollback.{
  Distinct, Back, Restores, round-Restores, IsFresh, positive-max_for, written-Led,
  IsFresh-Replaces, Apart, Apart-cons, fail_apply-Restores,
}

module _ (sys : System) (kind : String → Kind) (orig : Files) (max : ℤ)
    (positive : is_positive max ≡ true) where
  apply_targets-Restores :
      (ts : List TargetOp) (done : Done) (d : Disk)
      → Led sys kind orig done d.files
      → Distinct done
      → All (Apart sys kind orig done) ts
      → Pairs (λ t u. t.path ≢ u.path) ts
      → All (λ t. Names sys kind t.path) ts
      → All (IsFresh sys kind orig d.files) ts
      → Restores sys kind orig (apply_targets sys false max ts done d)
  unfolding apply_targets
  apply_targets-Restores [] done d l n a p names fresh = λ bad ok. absurd (bad refl)
  apply_targets-Restores (t ∷ ts) done d l n a p names fresh =
      let m = max_for t max in
      let w = write_atomic sys t.path t.after t.mode m d in
      let x = write_atomic-Replaces sys kind t.path names.0 t.after t.mode m d in
      round-Restores sys kind orig (is_noop t) w.failure
        (apply_targets sys false max ts ((t, unwritten t) ∷ done) d)
        (apply_targets sys false max ts ((t, written sys t w) ∷ done) w.disk)
        (λ e. fail_apply sys false t w e done)
        (apply_targets-Restores ts ((t, unwritten t) ∷ done) d (Led.skipped refl l) (a.0, n)
          (Apart-cons sys kind orig t (unwritten t) done ts p.0 a.1) p.1 names.1 fresh.1)
        (λ b y.
          apply_targets-Restores ts ((t, written sys t w) ∷ done) w.disk
            (written-Led sys kind orig t m d.files w done
              (positive-max_for sys kind orig t.suppress_backup max (fresh.0 b).0 positive)
              (fresh.0 b).1 l y x)
            (a.0, n) (Apart-cons sys kind orig t (written sys t w) done ts p.0 a.1) p.1 names.1
            (IsFresh-Replaces sys kind orig t m d.files w ts x p.0 names.1 fresh.1))
        (λ e y. fail_apply-Restores sys kind orig t m w e done d.files y x l n a.0)

module _ (sys : System) (kind : String → Kind) (orig : Disk) (plan : Plan)
    (opts : ApplyOptions) where
  IsFresh-lock :
      (d : Disk)
      → ((q : String) → kind q ≡ Kind.ordinary → d.files q ≡ orig.files q)
      → (ts : List TargetOp) → All (λ t. Names sys kind t.path) ts
      → All (IsFresh sys kind orig.files orig.files) ts
      → All (IsFresh sys kind orig.files d.files) ts
  IsFresh-lock d k [] names h = tt
  IsFresh-lock d k (t ∷ ts) names h = (
    λ b. ((h.0 b).0, λ e. (h.0 b).1 (ap content_of (sym (k t.path names.0.plain)) ∙ e)),
    IsFresh-lock d k ts names.1 h.1,
  )

  Apart-nil : (ts : List TargetOp) → All (Apart sys kind orig.files []) ts
  Apart-nil [] = tt
  Apart-nil (t ∷ ts) = (tt, Apart-nil ts)

  apply_locked-Restores :
      (x : Option String × Disk)
      → ((q : String) → kind q ≡ Kind.ordinary → x.1.files q ≡ orig.files q)
      → is_positive (default_backups opts.max_backups) ≡ true
      → opts.no_rollback ≡ false
      → Pairs (λ t u. t.path ≢ u.path) plan.targets
      → All (λ t. Names sys kind t.path) plan.targets
      → All (IsFresh sys kind orig.files orig.files) plan.targets
      → Restores sys kind orig.files (apply_locked sys plan opts x)
  apply_locked-Restores (some e, d) k m b p names fresh = λ bad ok q o. ap content_of (k q o)
  apply_locked-Restores (none, d) k m b p names fresh =
      subst
        (λ z.
          Restores sys kind orig.files
            (apply_targets sys z (default_backups opts.max_backups) plan.targets [] d))
        (sym b)
        (apply_targets-Restores sys kind orig.files (default_backups opts.max_backups) m
          plan.targets [] d (Led.start (λ q o. ap content_of (k q o))) tt (Apart-nil plan.targets) p
          names (IsFresh-lock d k plan.targets names fresh))

  dry-Restores :
      (b : Bool) (x y : Applied)
      → x.failure ≡ none
      → Restores sys kind orig.files y
      → Restores sys kind orig.files (if b then x else y)
  dry-Restores true x y e h = λ bad ok. absurd (bad e)
  dry-Restores false x y e h = h

-- An Apply that fails, was not told to skip the rollback and met no error in it leaves in every file
-- what was there before. This asks that no path stands twice in the plan, that MaxBackups is not
-- negative, and that each target that is no noop takes a backup and differs from what its file holds;
-- temporary files and backups are excepted, and the lock may touch such names only.
pub apply-Restores :
    (kind : String → Kind) (sys : System) (lock : String → Disk → Option String × Disk)
    (plan : Plan) (opts : ApplyOptions) (d : Disk)
    → ((p : String) (d : Disk) (q : String)
        → kind q ≡ Kind.ordinary
        → (lock p d).1.files q ≡ d.files q)
    → is_positive (default_backups opts.max_backups) ≡ true
    → opts.no_rollback ≡ false
    → Pairs (λ t u. t.path ≢ u.path) plan.targets
    → All (λ t. Names sys kind t.path) plan.targets
    → All (IsFresh sys kind d.files d.files) plan.targets
    → (apply sys lock plan opts d).failure ≢ none
    → (apply sys lock plan opts d).rollback_errors ≡ []
    → Back sys kind d.files (apply sys lock plan opts d).disk.files
unfolding apply
apply-Restores kind sys lock plan opts d keeps m b p names fresh =
    dry-Restores sys kind d plan opts opts.dry_run _ _ refl
      (apply_locked-Restores sys kind d plan opts _ (λ q o. keeps _ d q o) m b p names fresh)
