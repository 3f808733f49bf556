-- ===== src/Maintain/SessionGate/Blocked.antt =====
-- When the session gate blocks, and which blockers it reports.
use text.Mathlib.TextBridge.{IsPrefix}
use text.Mathlib.TextEquality.{starts_with_iff}
use opencode_advance.Prelude.{
  ◌⊎◌, ◌<>◌, subst, mem-cons, ℤ, eqb_ℤ, eqb_ℤ_iff, String, ◌≡◌, ◌≢◌, ◌↔◌, inl, inr, Bool, true,
  false, not, ◌||◌, List, [], ◌∷◌, arith, refl, sym, ap, Memᴰ, str_eq, eq_iff, Bool-cases,
  if◌then◌else◌,
}
use opencode_advance.Maintain.Types.{Blocker}
use opencode_advance.Maintain.SessionGate.{
  ProcessInfo, has_pid, caller_ancestor_pids, process_in_project, scan_processes,
  build_open_code_process_blockers, caller_blocker, active_blocker,
}
use opencode_advance.Maintain.SessionGate.Ancestors.{IsAncestor, caller_ancestor_pids_iff}

module _ (normalize : String → String) (self : ℤ) where
  -- The working directory is the project's root, or in it; both are known.
  pub record IsInside (root : String) (p : ProcessInfo) : Type 0 where
    pub root_given : root ≢ ""
    pub root_named : root ≢ "."
    pub cwd_given : p.cwd ≢ ""
    pub below : (normalize p.cwd ≡ root) ⊎ IsPrefix (root <> "/") (normalize p.cwd)

  process_in_project_iff :
      (root : String) (p : ProcessInfo)
      → (process_in_project normalize p root ≡ true) ↔ IsInside root p
  unfolding process_in_project
  process_in_project_iff root p = (
    (λ h. record {
      root_given = λ e. ground (arith, h, eq_iff root "", e);
      root_named = λ e. ground (arith, h, eq_iff root ".", e);
      cwd_given = λ e. ground (arith, h, eq_iff p.cwd "", e);
      below = elim (Bool-cases (str_eq (normalize p.cwd) root)) [
        | inl same ↦ inl ((eq_iff (normalize p.cwd) root).0 same)
        | inr other ↦
            inr ((starts_with_iff (normalize p.cwd) (root <> "/")).0 (ground (arith, h, other)))
      ];
    }),
    (λ i. ground (
      arith,
      i.root_given,
      i.root_named,
      i.cwd_given,
      i.below,
      eq_iff root "",
      eq_iff root ".",
      eq_iff p.cwd "",
      eq_iff (normalize p.cwd) root,
      starts_with_iff (normalize p.cwd) (root <> "/"),
    )),
  )

  -- Another process, named opencode, that runs in the project.
  pub record Blocks (root : String) (p : ProcessInfo) : Type 0 where
    pub other : p.pid ≢ self
    pub named : p.name ≡ "opencode"
    pub inside : IsInside root p

  -- The process that a blocker is about, and its kind.
  abbrev IsReported : List ℤ → String → List ProcessInfo → Blocker → Type 0
  IsReported ancestors root processes b =
      (p : ProcessInfo) × Memᴰ p processes
      × Blocks root p
      × (b ≡ (
          if has_pid p.pid ancestors
          then caller_blocker normalize p root
          else active_blocker normalize p root))

  abbrev skips : String → ProcessInfo → Bool
  skips root p =
      (eqb_ℤ p.pid self || not (str_eq p.name "opencode"))
      || not (process_in_project normalize p root)

  Blocks-skips : (root : String) (p : ProcessInfo) → skips root p ≡ false → Blocks root p
  Blocks-skips root p h = record {
    other = λ e. ground (arith, h, (eqb_ℤ_iff p.pid self).1 e);
    named = (eq_iff p.name "opencode").0 (ground (arith, h));
    inside = (process_in_project_iff root p).0 (ground (arith, h));
  }

  skips-Blocks : (root : String) (p : ProcessInfo) → Blocks root p → skips root p ≡ false
  skips-Blocks root p b = elim (Bool-cases (eqb_ℤ p.pid self)) [
    | inl e ↦ absurd (b.other ((eqb_ℤ_iff p.pid self).0 e))
    | inr n ↦
        ground (
          arith,
          n,
          (eq_iff p.name "opencode").1 b.named,
          (process_in_project_iff root p).1 b.inside,
        )
  ]

  module _ (ancestors : List ℤ) (root : String) where
    scan_skips :
        (p : ProcessInfo) (rest : List ProcessInfo)
        → skips root p ≡ true
        → scan_processes normalize ancestors self root (p ∷ rest)
          ≡ scan_processes normalize ancestors self root rest
    unfolding scan_processes
    scan_skips p rest h = ground arith

    scan_takes :
        (p : ProcessInfo) (rest : List ProcessInfo)
        → skips root p ≡ false
        → scan_processes normalize ancestors self root (p ∷ rest)
          ≡ (if has_pid p.pid ancestors
              then caller_blocker normalize p root
              else active_blocker normalize p root)
            ∷ scan_processes normalize ancestors self root rest
    unfolding scan_processes
    scan_takes p rest h = ground arith

    later :
        (p : ProcessInfo) (rest : List ProcessInfo) (b : Blocker)
        → IsReported ancestors root rest b
        → IsReported ancestors root (p ∷ rest) b
    later p rest b (q, m, k, e) = (q, Memᴰ.tail m, k, e)

    scan-IsReported :
        (processes : List ProcessInfo) (b : Blocker)
        → Memᴰ b (scan_processes normalize ancestors self root processes)
        → IsReported ancestors root processes b
    unfolding scan_processes
    scan-IsReported [] b m = elim m [ ]
    scan-IsReported (p ∷ rest) b m = elim (Bool-cases (skips root p)) [
      | inl s ↦ later p rest b (scan-IsReported rest b (subst (Memᴰ b) (scan_skips p rest s) m))
      | inr n ↦ elim (mem-cons (subst (Memᴰ b) (scan_takes p rest n) m)) [
        | inl e ↦ (p, Memᴰ.head refl, Blocks-skips root p n, e)
        | inr k ↦ later p rest b (scan-IsReported rest b k)
      ]
    ]

    IsReported-scan :
        (processes : List ProcessInfo) (p : ProcessInfo)
        → Memᴰ p processes
        → Blocks root p
        → Memᴰ
            (if has_pid p.pid ancestors
              then caller_blocker normalize p root
              else active_blocker normalize p root)
            (scan_processes normalize ancestors self root processes)
    IsReported-scan [] p m k = elim m [ ]
    IsReported-scan (q ∷ rest) p (Memᴰ.head e) k =
        subst (Memᴰ _)
          (sym (scan_takes q rest (subst (λ z. skips root z ≡ false) e (skips-Blocks root p k))))
          (Memᴰ.head (
            ap
              (λ (z : ProcessInfo).
                if has_pid z.pid ancestors
                then caller_blocker normalize z root
                else active_blocker normalize z root)
              e))
    IsReported-scan (q ∷ rest) p (Memᴰ.tail m) k = elim (Bool-cases (skips root q)) [
      | inl s ↦ subst (Memᴰ _) (sym (scan_skips q rest s)) (IsReported-scan rest p m k)
      | inr n ↦ subst (Memᴰ _) (sym (scan_takes q rest n)) (Memᴰ.tail (IsReported-scan rest p m k))
    ]

  -- A blocker with the code CALLER_OPENCODE_PROCESS is reported exactly when one of the blocking
  -- processes is an ancestor of the caller.
  pub caller_blocker_iff :
      (processes : List ProcessInfo) (root : String)
      → ((b : Blocker) × Memᴰ b (build_open_code_process_blockers normalize processes self root)
          × (b.code ≡ "CALLER_OPENCODE_PROCESS"))
        ↔ ((p : ProcessInfo) × Memᴰ p processes × Blocks root p × IsAncestor processes self p.pid)
  unfolding build_open_code_process_blockers
  caller_blocker_iff processes root = (
    λ (b, m, c).
        let (p, n, k, e) =
          scan-IsReported (caller_ancestor_pids processes self) root processes b m in
        (p, n, k, (caller_ancestor_pids_iff processes self p.pid).0 (is_caller p b e c)),
    λ (p, m, k, a). (
      caller_blocker normalize p root,
      subst
          (λ t.
            Memᴰ (if t then caller_blocker normalize p root else active_blocker normalize p root)
              (scan_processes normalize (caller_ancestor_pids processes self) self root processes))
          ((caller_ancestor_pids_iff processes self p.pid).1 a)
          (IsReported-scan (caller_ancestor_pids processes self) root processes p m k),
      refl,
    ),
  )
    where
      is_caller :
          (p : ProcessInfo) (b : Blocker)
          → b ≡ (
              if has_pid p.pid (caller_ancestor_pids processes self)
              then caller_blocker normalize p root
              else active_blocker normalize p root)
          → b.code ≡ "CALLER_OPENCODE_PROCESS"
          → has_pid p.pid (caller_ancestor_pids processes self) ≡ true
      is_caller p b e c = ground (
        arith,
        ap (λ (z : Blocker). z.code) e,
        c,
        eq_iff "ACTIVE_OPENCODE_PROCESS" "CALLER_OPENCODE_PROCESS",
      )
