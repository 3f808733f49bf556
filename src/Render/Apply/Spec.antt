-- ===== src/Render/Apply/Spec.antt =====
-- What Apply promises when it succeeds: the files of the plan, written one after the other.
use opencode_advance.Prelude.{
  ℤ, String, Bool, true, false, ◌≡◌, refl, sym, ap, ◌∙◌, Option, none, some, List, [], ◌∷◌, str_eq,
  eq_iff, arith, inl, inr, Bool-cases, if◌then◌else◌, All,
}
use opencode_advance.Render.Disk.{Files, Disk, System, content_of}
use opencode_advance.Render.Atomic.{Write, write_atomic}
use opencode_advance.Render.Atomic.Names.{Kind, Names}
use opencode_advance.Render.Atomic.Writes.{Replaces, write_atomic-Replaces}
use opencode_advance.Render.Apply.{
  TargetOp, Plan, ApplyOptions, Applied, Done, is_noop, unwritten, written, max_for,
  default_backups, fail_apply, apply_targets, apply_locked, apply, proceed,
}

-- The contents of the files by name.
abbrev pub View : Type 0
View = String → Option String

abbrev pub view : Files → View
view f q = content_of (f q)

abbrev pub write_view : String → String → View → View
write_view p content v q = if str_eq p q then some content else v q

-- The specification: each target that is no noop sets the content of its path.
abbrev pub put_targets : List TargetOp → View → View
put_targets [] v = v
put_targets (t ∷ ts) v = put_targets ts (if is_noop t then v else write_view t.path t.after v)

module _ (kind : String → Kind) where
  -- Equal at every name that is neither temporary nor a backup.
  abbrev pub Agrees : View → View → Type 0
  Agrees v w = (q : String) → kind q ≡ Kind.ordinary → v q ≡ w q

  write_view-Agrees :
      (p content : String) (v w : View)
      → Agrees v w
      → Agrees (write_view p content v) (write_view p content w)
  write_view-Agrees p content v w h q o = elim (Bool-cases (str_eq p q)) [
    | inl e ↦ rw e
    | inr e ↦ rw e (h q o)
  ]

  target-Agrees :
      (b : Bool) (p content : String) (v w : View)
      → Agrees v w
      → Agrees (if b then v else write_view p content v) (if b then w else write_view p content w)
  target-Agrees true p content v w h = h
  target-Agrees false p content v w h = write_view-Agrees p content v w h

  put_targets-Agrees :
      (ts : List TargetOp) (v w : View) → Agrees v w → Agrees (put_targets ts v) (put_targets ts w)
  put_targets-Agrees [] v w h = h
  put_targets-Agrees (t ∷ ts) v w h =
      put_targets-Agrees ts _ _ (target-Agrees (is_noop t) t.path t.after v w h)

  -- A write that succeeded, in the view.
  Replaces-Agrees :
      (sys : System) (path content : String) (max : ℤ) (f : Files) (w : Write)
      → Replaces sys kind path content max f w
      → w.failure ≡ none
      → Agrees (view w.disk.files) (write_view path content (view f))
  Replaces-Agrees sys path content max f w (Replaces.refused e x k) ok q o =
      absurd (ground (arith, x, ok))
  Replaces-Agrees sys path content max f w (Replaces.replaced x c k b) ok q o =
      elim (Bool-cases (str_eq path q)) [
        | inl e ↦ rw e (ap (λ n. content_of (w.disk.files n)) (sym ((eq_iff path q).0 e)) ∙ c)
        | inr e ↦ rw e (
            ap content_of (
              k q (
                (λ z. ground (arith, z, o), λ z. ground (arith, z, o)),
                λ z. absurd (ground (arith, e, (eq_iff path q).1 z)),
              )))
      ]

  -- The branches of one round.
  round-Agrees :
      (b : Bool) (o : Option String) (skip next : Applied) (bad : String → Applied)
      (ts : List TargetOp) (v w : View)
      → ((e : String) → (bad e).failure ≡ some e)
      → (skip.failure ≡ none → Agrees (view skip.disk.files) (put_targets ts v))
      → (o ≡ none → next.failure ≡ none → Agrees (view next.disk.files) (put_targets ts w))
      → (if b then skip else proceed o next bad).failure ≡ none
      → Agrees
          (view (if b then skip else proceed o next bad).disk.files)
          (put_targets ts (if b then v else w))
  round-Agrees true o skip next bad ts v w x f g ok = f ok
  round-Agrees false none skip next bad ts v w x f g ok = g refl ok
  round-Agrees false (some e) skip next bad ts v w x f g ok = absurd (ground (arith, x e, ok))

  trans-Agrees : (u v w : View) → Agrees u v → Agrees v w → Agrees u w
  trans-Agrees u v w h k q o = h q o ∙ k q o

  module _ (sys : System) (no_rollback : Bool) where
    failure-fail_apply :
        (t : TargetOp) (w : Write) (e : String) (done : Done)
        → (fail_apply sys no_rollback t w e done).failure ≡ some e
    unfolding fail_apply
    failure-fail_apply t w e done = ground arith

    apply_targets-Agrees :
        (max : ℤ) (ts : List TargetOp) (done : Done) (d : Disk)
        → All (λ t. Names sys kind t.path) ts
        → (apply_targets sys no_rollback max ts done d).failure ≡ none
        → Agrees
            (view (apply_targets sys no_rollback max ts done d).disk.files)
            (put_targets ts (view d.files))
    unfolding apply_targets
    apply_targets-Agrees max [] done d names ok = λ q o. refl
    apply_targets-Agrees max (t ∷ ts) done d names ok =
        let w = write_atomic sys t.path t.after t.mode (max_for t max) d in
        round-Agrees (is_noop t) w.failure
          (apply_targets sys no_rollback max ts ((t, unwritten t) ∷ done) d)
          (apply_targets sys no_rollback max ts ((t, written sys t w) ∷ done) w.disk)
          (λ e. fail_apply sys no_rollback t w e done) ts (view d.files)
          (write_view t.path t.after (view d.files)) (λ e. failure-fail_apply t w e done)
          (λ y. apply_targets-Agrees max ts ((t, unwritten t) ∷ done) d names.1 y)
          (λ x y.
            trans-Agrees _ (put_targets ts (view w.disk.files)) _
              (apply_targets-Agrees max ts ((t, written sys t w) ∷ done) w.disk names.1 y)
              (put_targets-Agrees ts (view w.disk.files) (write_view t.path t.after (view d.files))
                (Replaces-Agrees sys t.path t.after (max_for t max) d.files w
                  (write_atomic-Replaces sys kind t.path names.0 t.after t.mode (max_for t max) d)
                  x)))
          ok

  module _ (sys : System) (lock : String → Disk → Option String × Disk) (plan : Plan)
      (opts : ApplyOptions) where
    apply_locked-Agrees :
        (x : Option String × Disk) (v : View)
        → Agrees (view x.1.files) v
        → All (λ t. Names sys kind t.path) plan.targets
        → (apply_locked sys plan opts x).failure ≡ none
        → Agrees (view (apply_locked sys plan opts x).disk.files) (put_targets plan.targets v)
    apply_locked-Agrees (some e, d) v h names ok = absurd (ground (arith, ok))
    apply_locked-Agrees (none, d) v h names ok =
        trans-Agrees _ (put_targets plan.targets (view d.files)) _
          (apply_targets-Agrees sys opts.no_rollback (default_backups opts.max_backups) plan.targets
            [] d names ok)
          (put_targets-Agrees plan.targets (view d.files) v h)

    dry-Agrees :
        (b : Bool) (x y : Applied) (d : Disk)
        → x.disk ≡ d
        → (y.failure ≡ none → Agrees (view y.disk.files) (put_targets plan.targets (view d.files)))
        → (if b then x else y).failure ≡ none
        → Agrees
            (view (if b then x else y).disk.files)
            (put_targets (if b then [] else plan.targets) (view d.files))
    dry-Agrees true x y d e g ok = λ q o. ap (λ (z : Disk). content_of (z.files q)) e
    dry-Agrees false x y d e g ok = g ok

-- An Apply that returns no error leaves at every name what writing the targets of the plan one after
-- the other gives, the noop ones and, in a dry run, all of them left out: each target's path holds
-- its content, the last one where a path stands twice, and all else holds what it held. Names of
-- temporary files and of backups are excepted, and the lock may touch such names only.
pub apply-Agrees :
    (kind : String → Kind) (sys : System) (lock : String → Disk → Option String × Disk)
    (plan : Plan) (opts : ApplyOptions) (d : Disk)
    → ((p : String) (d : Disk) (q : String)
        → kind q ≡ Kind.ordinary
        → (lock p d).1.files q ≡ d.files q)
    → All (λ t. Names sys kind t.path) plan.targets
    → (apply sys lock plan opts d).failure ≡ none
    → Agrees kind
        (view (apply sys lock plan opts d).disk.files)
        (put_targets (if opts.dry_run then [] else plan.targets) (view d.files))
unfolding apply
apply-Agrees kind sys lock plan opts d keeps names ok =
    dry-Agrees kind sys lock plan opts opts.dry_run _ _ d refl
      (λ y.
        apply_locked-Agrees kind sys lock plan opts _ (view d.files)
          (λ q o. ap content_of (keeps _ d q o)) names y)
      ok
