-- ===== src/Render/Apply/Rollback.antt =====
-- Rollback as a whole: after an Apply that fails, the files are what they were.
use opencode_advance.Prelude.{
  ℤ, pos, String, Bool, true, false, ◌≡◌, ◌≢◌, refl, sym, ap, ◌∙◌, Option, none, some, List, [],
  ◌∷◌, str_eq, eq_iff, is_blank, arith, inl, inr, Bool-cases, if◌then◌else◌, All, Pairs,
  append-eq-nil,
}
use opencode_advance.Render.Disk.{Files, Disk, System, content_of}
use opencode_advance.Render.Atomic.{Write, is_positive}
use opencode_advance.Render.Atomic.Names.{Kind, Names, Keeps}
use opencode_advance.Render.Atomic.Prunes.{Others}
use opencode_advance.Render.Atomic.Writes.{Replaces, Backed}
use opencode_advance.Render.Apply.{
  TargetOp, TargetResult, Applied, Done, is_noop, written, undo, rollback, fail_apply, proceed,
}
use opencode_advance.Render.Apply.Undoes.{Saved, Led, SameOn, Watched-Others, Undone, undo-Undone}

abbrev pub Entry : Type 0
Entry = TargetOp × TargetResult

-- No path of `done` stands twice.
abbrev pub Distinct : Done → Type 0
Distinct = Pairs (λ (a b : Entry). a.0.path ≢ b.0.path)

module _ (sys : System) (kind : String → Kind) (orig : Files) where
  -- The files are back.
  abbrev pub Back : Files → Type 0
  Back f = (q : String) → kind q ≡ Kind.ordinary → content_of (f q) ≡ content_of (orig q)

  Saved-blank :
      (path : String) (r : TargetResult) (g f : Files)
      → Saved sys kind path r g f
      → is_blank r.backup_path ≡ true
      → none ≡ content_of (g path)
  Saved-blank path r g f (Saved.fresh c b) e = sym c
  Saved-blank path r g f (Saved.saved b k c) e = absurd (ground (arith, b, e))

  Saved-backup :
      (path : String) (r : TargetResult) (g f h : Files)
      → Saved sys kind path r g f
      → ((q : String) → kind q ≡ Kind.backup_of path → content_of (h q) ≡ content_of (f q))
      → is_blank r.backup_path ≡ false
      → content_of (h r.backup_path) ≡ content_of (g path)
  Saved-backup path r g f h (Saved.fresh c b) s e = absurd (ground (arith, b, e))
  Saved-backup path r g f h (Saved.saved b k c) s e = s r.backup_path k ∙ c

  -- A round brings the watched names back to what they were before the write.
  Undone-SameOn :
      (t : TargetOp) (r : TargetResult) (done : Done) (g f : Files) (d : Disk)
      (x : List String × Disk)
      → All (λ (e : Entry). t.path ≢ e.0.path) done
      → Keeps (λ q. Others sys kind t.path g q × (t.path ≢ q)) g f
      → SameOn sys kind ((t, r) ∷ done) f d.files
      → Undone sys kind t (g t.path) d x
      → SameOn sys kind done g x.1.files
  Undone-SameOn t r done g f d x n k s (Undone.undone v c e) q w =
      ap (λ (h : Files). content_of (h q)) e ∙ (elim (Bool-cases (str_eq t.path q)) [
        | inl y ↦ rw y (c ∙ ap (λ p. content_of (g p)) ((eq_iff t.path q).0 y))
        | inr y ↦ rw y (
            s q (inr w)
            ∙ ap content_of (
                k q (
                  Watched-Others sys kind t.path g done q n w,
                  λ z. absurd (ground (arith, y, (eq_iff t.path q).1 z)),
                )))
      ])

  -- A round for a target that was not written.
  undo-skipped :
      (t : TargetOp) (r : TargetResult) (d : Disk) → r.wrote ≡ false → (undo sys t r d).1 ≡ d
  unfolding undo
  undo-skipped t r d w = simp w

  rollback-Back :
      (done : Done) (f : Files) (d : Disk)
      → Led sys kind orig done f
      → Distinct done
      → SameOn sys kind done f d.files
      → (rollback sys done d).0 ≡ []
      → Back (rollback sys done d).1.files
  unfolding rollback
  rollback-Back [] f d (Led.start h) n s ok = λ q o. s q o ∙ h q o
  rollback-Back ((t, r) ∷ done) f d (Led.skipped w l) n s ok =
      let x = undo sys t r d in
      rollback-Back done f x.1 l n.1
        (λ q y. ap (λ (z : Disk). content_of (z.files q)) (undo-skipped t r d w) ∙ s q (inr y))
        (append-eq-nil x.0 (rollback sys done x.1).0 ok).1
  rollback-Back ((t, r) ∷ done) f d (Led.over g w p l k b) n s ok =
      let x = undo sys t r d in
      let es = append-eq-nil x.0 (rollback sys done x.1).0 ok in
      rollback-Back done g x.1 l n.1
        (Undone-SameOn t r done g f d x n.0 k s (
          undo-Undone sys kind t r p (g t.path) d w (Saved-blank t.path r g f b)
            (Saved-backup t.path r g f d.files b (λ q y. s q (inl y))) es.0))
        es.1

  -- A failed Apply without rollback errors brings the files back.
  abbrev pub Restores : Applied → Type 0
  Restores a = a.failure ≢ none → a.rollback_errors ≡ [] → Back a.disk.files

  pub round-Restores :
      (b : Bool) (o : Option String) (skip next : Applied) (bad : String → Applied)
      → Restores skip
      → (b ≡ false → o ≡ none → Restores next)
      → ((e : String) → o ≡ some e → Restores (bad e))
      → Restores (if b then skip else proceed o next bad)
  round-Restores true o skip next bad f g h = f
  round-Restores false none skip next bad f g h = g refl refl
  round-Restores false (some e) skip next bad f g h = h e refl

  -- A target that a rollback can bring back: it takes a backup and changes what its file holds.
  abbrev pub IsFresh : Files → TargetOp → Type 0
  IsFresh f t =
      is_noop t ≡ false → (t.suppress_backup ≡ false) × (content_of (f t.path) ≢ some t.after)

  pub positive-max_for :
      (b : Bool) (max : ℤ)
      → b ≡ false
      → is_positive max ≡ true
      → is_positive (if b then pos 0 else max) ≡ true
  positive-max_for true max e p = absurd (ground (arith, e))
  positive-max_for false max e p = p

  Backed-Saved :
      (t : TargetOp) (max : ℤ) (f : Files) (w : Write)
      → is_positive max ≡ true
      → content_of (f t.path) ≢ some t.after
      → Backed kind t.path t.after max f w
      → Saved sys kind t.path (written sys t w) f w.disk.files
  Backed-Saved t max f w p n (Backed.created c b) = Saved.fresh c b
  Backed-Saved t max f w p n (Backed.equal c b) = absurd (n c)
  Backed-Saved t max f w p n (Backed.without q b) = absurd (ground (arith, p, q))
  Backed-Saved t max f w p n (Backed.backed b k c) = Saved.saved b k c

  pub written-Led :
      (t : TargetOp) (max : ℤ) (f : Files) (w : Write) (done : Done)
      → is_positive max ≡ true
      → content_of (f t.path) ≢ some t.after
      → Led sys kind orig done f
      → w.failure ≡ none
      → Replaces sys kind t.path t.after max f w
      → Led sys kind orig ((t, written sys t w) ∷ done) w.disk.files
  written-Led t max f w done p n l ok (Replaces.refused e x k) = absurd (ground (arith, x, ok))
  written-Led t max f w done p n l ok (Replaces.replaced x c k b) =
      Led.over f refl refl l k (Backed-Saved t max f w p n b)

  -- A write changes no other file.
  other-Replaces :
      (t : TargetOp) (max : ℤ) (f : Files) (w : Write) (q : String)
      → kind q ≡ Kind.ordinary
      → t.path ≢ q
      → Replaces sys kind t.path t.after max f w
      → w.disk.files q ≡ f q
  other-Replaces t max f w q o n (Replaces.refused e x k) =
      k q (λ z. ground (arith, z, o), λ z. ground (arith, z, o))
  other-Replaces t max f w q o n (Replaces.replaced x c k b) =
      k q ((λ z. ground (arith, z, o), λ z. ground (arith, z, o)), n)

  pub IsFresh-Replaces :
      (t : TargetOp) (max : ℤ) (f : Files) (w : Write) (ts : List TargetOp)
      → Replaces sys kind t.path t.after max f w
      → All (λ u. t.path ≢ u.path) ts
      → All (λ u. Names sys kind u.path) ts
      → All (IsFresh f) ts
      → All (IsFresh w.disk.files) ts
  IsFresh-Replaces t max f w [] x n names h = tt
  IsFresh-Replaces t max f w (u ∷ ts) x n names h = (
    λ b. (
      (h.0 b).0,
      λ e.
          (h.0 b).1 (ap content_of (sym (other-Replaces t max f w u.path names.0.plain n.0 x)) ∙ e),
    ),
    IsFresh-Replaces t max f w ts x n.1 names.1 h.1,
  )

  -- A target joins those that are done.
  abbrev pub Apart : Done → TargetOp → Type 0
  Apart done t = All (λ (e : Entry). t.path ≢ e.0.path) done

  pub Apart-cons :
      (t : TargetOp) (r : TargetResult) (done : Done) (ts : List TargetOp)
      → All (λ u. t.path ≢ u.path) ts
      → All (Apart done) ts
      → All (Apart ((t, r) ∷ done)) ts
  Apart-cons t r done [] n h = tt
  Apart-cons t r done (u ∷ ts) n h = ((λ e. n.0 (sym e), h.0), Apart-cons t r done ts n.1 h.1)

  -- The write that fails.
  pub fail_apply-Restores :
      (t : TargetOp) (max : ℤ) (w : Write) (e : String) (done : Done) (f : Files)
      → w.failure ≡ some e
      → Replaces sys kind t.path t.after max f w
      → Led sys kind orig done f
      → Distinct done
      → Apart done t
      → Restores (fail_apply sys false t w e done)
  unfolding fail_apply
  fail_apply-Restores t max w e done f x (Replaces.refused m y k) l n a bad ok =
      rollback-Back done f w.disk l n
        (λ q z. ap content_of (k q (Watched-Others sys kind t.path f done q a z))) ok
  fail_apply-Restores t max w e done f x (Replaces.replaced y c k b) l n a bad ok =
      absurd (ground (arith, x, y))
