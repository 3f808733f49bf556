-- ===== src/Runtime/Recovery/Steps.antt =====
-- The steps are numbered from 1 and are for dry runs.
use opencode_advance.Prelude.{
  ℕ, suc, ◌+◌, String, Bool, true, false, ◌≡◌, refl, ◌∙◌, List, [], ◌∷◌, ◌++◌, arith, if◌then◌else◌,
  length, All, All-append,
}
use opencode_advance.Runtime.Types.{
  WorkflowQueueStatus, SearchAttributeStatus, SessionDebtFinding, WorktreeFinding, Finding,
  RecoveryStep, Report,
}
use opencode_advance.Runtime.Recovery.{
  Progress, add_step, doctor, attribute_step, queue_step, debt_step, worktree_step, finding_step,
  each, synthesize,
}

-- The steps are numbered one after the other, from `n`.
abbrev pub Numbered : ℕ → List RecoveryStep → Type 0
Numbered n [] = Unit
Numbered n (s ∷ ss) = (s.order ≡ n) × Numbered (suc n) ss

-- A step is for dry runs only, and destructive only as the clean-up with a backup directory.
abbrev pub IsHarmless : RecoveryStep → Type 0
IsHarmless s = (s.dry_run_only ≡ true) × (s.destructive ≡ true → s.command ≡ doctor)

Numbered-append :
    (n : ℕ) (xs : List RecoveryStep) (s : RecoveryStep)
    → Numbered n xs
    → s.order ≡ n + length xs
    → Numbered n (xs ++ s ∷ [])
Numbered-append n [] s h e = (e ∙ omega arith, tt)
Numbered-append n (x ∷ xs) s h e = (h.0, Numbered-append (suc n) xs s h.1 (e ∙ omega arith))

length-append_last :
    (xs : List RecoveryStep) (s : RecoveryStep) → length (xs ++ s ∷ []) ≡ length xs + 1
length-append_last [] s = refl
length-append_last (x ∷ xs) s = omega (arith, length-append_last xs s)

record IsSound (p : Progress) : Type 0 where
  pub next : p.order ≡ 1 + length p.steps
  pub numbered : Numbered 1 p.steps
  pub harmless : All IsHarmless p.steps

add_step-IsSound :
    (p : Progress) (title : String) (command : List String) (destructive : Bool) (reason : String)
    → (destructive ≡ true → command ≡ doctor)
    → IsSound p
    → IsSound (add_step p title command destructive reason)
add_step-IsSound p title command destructive reason d h = record {
  next = omega (
    arith,
    h.next,
    length-append_last p.steps (record {
      order = p.order;
      title = title;
      command = command;
      dry_run_only = true;
      destructive = destructive;
      reason = reason;
    }),
  );
  numbered = Numbered-append 1 p.steps _ h.numbered h.next;
  harmless = All-append IsHarmless p.steps _ h.harmless ((refl, d), tt);
}

if-IsSound : (b : Bool) (p q : Progress) → IsSound p → IsSound q → IsSound (if b then p else q)
if-IsSound true p q h k = h
if-IsSound false p q h k = k

each-IsSound {ℓ} :
    {A : Type ℓ} (step : Progress → A → Progress)
    → ((p : Progress) (x : A) → IsSound p → IsSound (step p x))
    → (xs : List A) (p : Progress) → IsSound p
    → IsSound (each step p xs)
unfolding each
each-IsSound step h [] p s = s
each-IsSound step h (x ∷ xs) p s = each-IsSound step h xs (step p x) (h p x s)

attribute_step-IsSound :
    (p : Progress) (a : SearchAttributeStatus) → IsSound p → IsSound (attribute_step p a)
attribute_step-IsSound p a h = if-IsSound _ _ p (add_step-IsSound p _ _ false _ (λ e. cc) h) h

queue_step-IsSound : (p : Progress) (q : WorkflowQueueStatus) → IsSound p → IsSound (queue_step p q)
queue_step-IsSound p q h =
    if-IsSound _ _ p (if-IsSound _ _ p (add_step-IsSound p _ _ false _ (λ e. cc) h) h) h

debt_step-IsSound : (p : Progress) (d : SessionDebtFinding) → IsSound p → IsSound (debt_step p d)
debt_step-IsSound p d h = if-IsSound _ _ p (add_step-IsSound p _ doctor true _ (λ e. refl) h) h

worktree_step-IsSound :
    (p : Progress) (w : WorktreeFinding) → IsSound p → IsSound (worktree_step p w)
worktree_step-IsSound p w h = if-IsSound _ _ p (add_step-IsSound p _ _ false _ (λ e. cc) h) h

finding_step-IsSound : (p : Progress) (f : Finding) → IsSound p → IsSound (finding_step p f)
finding_step-IsSound p f h = if-IsSound _ p _ h (add_step-IsSound p _ _ false _ (λ e. cc) h)

-- Whatever the report says: the steps are numbered 1, 2, 3 and so on, every one is marked as dry run
-- only, and one that is marked as destructive is the command `oca session doctor --apply` with a
-- backup directory.
pub synthesize-Numbered : (r : Report) → Numbered 1 (synthesize r) × All IsHarmless (synthesize r)
unfolding synthesize
synthesize-Numbered r =
    let start : IsSound (record { order = 1; steps = [] }) = record {
      next = refl;
      numbered = tt;
      harmless = tt;
    } in
    let a = each-IsSound attribute_step attribute_step-IsSound r.search_attributes _ start in
    let q = each-IsSound queue_step queue_step-IsSound r.workflow_queues _ a in
    let d = each-IsSound debt_step debt_step-IsSound r.session_debt _ q in
    let w = each-IsSound worktree_step worktree_step-IsSound r.worktrees _ d in
    let f = each-IsSound finding_step finding_step-IsSound r.findings _ w in
    (f.numbered, f.harmless)
