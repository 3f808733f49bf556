-- ===== src/Maintain/SessionGate/Ancestors.antt =====
-- `callerAncestorPIDs` finds exactly the ancestors of the caller, and its loop ends.
use opencode_advance.Prelude.{
  ℕ, zero, suc, ◌+◌, ◌≤◌, ℤ, pos, ltb_ℤ, ◌<ℤ◌, eqb_ℤ, eqb_ℤ_iff, ◌≡◌, ◌≢◌, ◌⊎◌, ◌↔◌, inl, inr, true,
  false, ◌||◌, not, some, List, [], ◌∷◌, arith, refl, sym, subst, ap, ◌∙◌, length, All, All-mem,
  mem-All, Pairs, Memᴰ, Bool-cases, Option-cases, if◌then◌else◌,
}
use opencode_advance.Maintain.SessionGate.{ProcessInfo, by_pid, has_pid, walk, caller_ancestor_pids}

pub has_pid-mem : (p : ℤ) (qs : List ℤ) → has_pid p qs ≡ true → Memᴰ p qs
has_pid-mem p [] h = absurd (ground arith)
has_pid-mem p (q ∷ qs) h = elim (Bool-cases (eqb_ℤ p q)) [
  | inl e ↦ Memᴰ.head ((eqb_ℤ_iff p q).0 e)
  | inr n ↦ Memᴰ.tail (has_pid-mem p qs (ground arith))
]

pub mem-has_pid : (p : ℤ) (qs : List ℤ) → Memᴰ p qs → has_pid p qs ≡ true
mem-has_pid p [] m = elim m [ ]
mem-has_pid p (q ∷ qs) (Memᴰ.head e) = ground (arith, (eqb_ℤ_iff p q).1 e)
mem-has_pid p (q ∷ qs) (Memᴰ.tail m) = ground (arith, mem-has_pid p qs m)

-- The pids of the processes.
abbrev pids : List ProcessInfo → List ℤ
pids [] = []
pids (process ∷ rest) = process.pid ∷ pids rest

by_pid-pids :
    (processes : List ProcessInfo) (pid : ℤ) (p : ProcessInfo)
    → by_pid processes pid ≡ some p
    → Memᴰ pid (pids processes)
unfolding by_pid
by_pid-pids [] pid p h = absurd (ground arith)
by_pid-pids (process ∷ rest) pid p h = elim (Option-cases (by_pid rest pid)) [
  | inr (q, e) ↦ Memᴰ.tail (by_pid-pids rest pid q e)
  | inl e ↦ Memᴰ.head (sym ((eqb_ℤ_iff process.pid pid).0 (ground (arith, e, h))))
]

abbrev Differ : ℤ → ℤ → Type 0
Differ p q = p ≢ q

-- The list without its first `p`.
remove : ℤ → List ℤ → List ℤ
remove p [] = []
remove p (q ∷ qs) = if eqb_ℤ p q then qs else q ∷ remove p qs

length-remove : (p : ℤ) (qs : List ℤ) → Memᴰ p qs → length qs ≡ suc (length (remove p qs))
unfolding remove
length-remove p [] m = elim m [ ]
length-remove p (q ∷ qs) (Memᴰ.head e) = ground (arith, (eqb_ℤ_iff p q).1 e)
length-remove p (q ∷ qs) (Memᴰ.tail m) = ground (arith, length-remove p qs m)

mem-remove : (p q : ℤ) (qs : List ℤ) → p ≢ q → Memᴰ q qs → Memᴰ q (remove p qs)
unfolding remove
mem-remove p q [] ne m = elim m [ ]
mem-remove p q (r ∷ qs) ne (Memᴰ.head d) = elim (Bool-cases (eqb_ℤ p r)) [
  | inl e ↦ absurd (ne ((eqb_ℤ_iff p r).0 e ∙ sym d))
  | inr n ↦ rw n (Memᴰ.head d)
]
mem-remove p q (r ∷ qs) ne (Memᴰ.tail k) = elim (Bool-cases (eqb_ℤ p r)) [
  | inl e ↦ rw e k
  | inr n ↦ rw n (Memᴰ.tail (mem-remove p q qs ne k))
]

-- Distinct numbers that all stand in a list are no more than its length.
pigeonhole : (ps qs : List ℤ) → Pairs Differ ps → All (λ p. Memᴰ p qs) ps → length ps ≤ length qs
pigeonhole [] qs d h = omega arith
pigeonhole (p ∷ ps) qs d h = omega (
  arith,
  length-remove p qs h.0,
  pigeonhole ps (remove p qs) d.1
      (mem-All _ ps λ q m. mem-remove p q qs (All-mem (Differ p) ps d.0 m) (All-mem _ ps h.1 m)),
)

module _ (processes : List ProcessInfo) (self : ℤ) where
  -- The ancestors of the caller: its parent, and the parents of ancestors, as long as the processes
  -- are in the list and the pids are positive.
  pub data IsAncestor : ℤ → Type 0 where
    parent :
        (p : ProcessInfo) → by_pid processes self ≡ some p → pos 0 <ℤ p.ppid → IsAncestor p.ppid
    above :
        (q : ℤ) (p : ProcessInfo)
        → IsAncestor q
        → by_pid processes q ≡ some p
        → pos 0 <ℤ p.ppid
        → IsAncestor p.ppid

  -- The caller or a pid found.
  abbrev IsSeen : List ℤ → ℤ → Type 0
  IsSeen ancestors q = (q ≡ self) ⊎ Memᴰ q ancestors

  -- The parent of `q`, if it counts, is found.
  abbrev IsClosedAt : List ℤ → ℤ → Type 0
  IsClosedAt ancestors q =
      (p : ProcessInfo) → by_pid processes q ≡ some p → pos 0 <ℤ p.ppid → Memᴰ p.ppid ancestors

  -- What holds when a round starts at `pid`.
  record IsRound (pid : ℤ) (ancestors : List ℤ) : Type 0 where
    seen : IsSeen ancestors pid
    found : All IsAncestor ancestors
    distinct : Pairs Differ ancestors
    known : All (λ a. (a ≡ pid) ⊎ Memᴰ a (pids processes)) ancestors
    closed : (q : ℤ) → IsSeen ancestors q → (q ≡ pid) ⊎ IsClosedAt ancestors q

  -- What holds at the end.
  record IsDone (ancestors : List ℤ) : Type 0 where
    sound : All IsAncestor ancestors
    complete : (q : ℤ) → IsSeen ancestors q → IsClosedAt ancestors q

  parent-IsAncestor :
      (pid : ℤ) (ancestors : List ℤ) (p : ProcessInfo)
      → IsRound pid ancestors
      → by_pid processes pid ≡ some p
      → pos 0 <ℤ p.ppid
      → IsAncestor p.ppid
  parent-IsAncestor pid ancestors p r e g = elim r.seen [
    | inl d ↦ IsAncestor.parent p (subst (λ q. by_pid processes q ≡ some p) d e) g
    | inr m ↦ IsAncestor.above pid p (All-mem IsAncestor ancestors r.found m) e g
  ]

  IsDone-stop :
      (pid : ℤ) (ancestors : List ℤ)
      → IsRound pid ancestors
      → IsClosedAt ancestors pid
      → IsDone ancestors
  IsDone-stop pid ancestors r c = record {
    sound = r.found;
    complete =
        λ q s. elim (r.closed q s) [ inl d ↦ subst (IsClosedAt ancestors) (sym d) c | inr k ↦ k ];
  }

  closed-next :
      (pid : ℤ) (ancestors : List ℤ) (p : ProcessInfo)
      → IsRound pid ancestors
      → by_pid processes pid ≡ some p
      → (q : ℤ) → IsSeen ancestors q
      → (q ≡ p.ppid) ⊎ IsClosedAt (p.ppid ∷ ancestors) q
  closed-next pid ancestors p r e q s = elim (r.closed q s) [
    | inl d ↦ inr (λ p' e' g. Memᴰ.head (
        ap (λ (x : ProcessInfo). x.ppid)
          (same p' (subst (λ z. by_pid processes z ≡ some p') d e'))))
    | inr c ↦ inr (λ p' e' g. Memᴰ.tail (c p' e' g))
  ]
    where
      same : (p' : ProcessInfo) → by_pid processes pid ≡ some p' → p' ≡ p
      same p' e' = cc

  IsRound-next :
      (pid : ℤ) (ancestors : List ℤ) (p : ProcessInfo)
      → IsRound pid ancestors
      → by_pid processes pid ≡ some p
      → pos 0 <ℤ p.ppid
      → has_pid p.ppid ancestors ≡ false
      → IsRound p.ppid (p.ppid ∷ ancestors)
  IsRound-next pid ancestors p r e g new = record {
    seen = inr (Memᴰ.head refl);
    found = (parent-IsAncestor pid ancestors p r e g, r.found);
    distinct = (mem-All (Differ p.ppid) ancestors λ a m d. fresh a m d, r.distinct);
    known = (inl refl, mem-All _ ancestors λ a m. inr (listed a (All-mem _ ancestors r.known m)));
    closed = closed;
  }
    where
      fresh : (a : ℤ) → Memᴰ a ancestors → p.ppid ≢ a
      fresh a m d = cc (mem-has_pid p.ppid ancestors (subst (λ z. Memᴰ z ancestors) (sym d) m), new)

      listed : (a : ℤ) → (a ≡ pid) ⊎ Memᴰ a (pids processes) → Memᴰ a (pids processes)
      listed a (inl d) =
          subst (λ z. Memᴰ z (pids processes)) (sym d) (by_pid-pids processes pid p e)
      listed a (inr m) = m

      closed :
          (q : ℤ) → IsSeen (p.ppid ∷ ancestors) q → (q ≡ p.ppid) ⊎ IsClosedAt (p.ppid ∷ ancestors) q
      closed q (inl d) = closed-next pid ancestors p r e q (inl d)
      closed q (inr (Memᴰ.head d)) = inl d
      closed q (inr (Memᴰ.tail m)) = closed-next pid ancestors p r e q (inr m)

  length-pids : (ps : List ProcessInfo) → length (pids ps) ≡ length ps
  length-pids [] = refl
  length-pids (p ∷ ps) = omega (arith, length-pids ps)

  -- A round never holds more pids than there are processes, and one.
  length-round :
      (pid : ℤ) (ancestors : List ℤ)
      → IsRound pid ancestors
      → length ancestors ≤ length processes + 1
  length-round pid ancestors r = omega (
    arith,
    length-pids processes,
    pigeonhole ancestors (pid ∷ pids processes) r.distinct
        (mem-All _ ancestors λ a m. here a (All-mem _ ancestors r.known m)),
  )
    where
      here : (a : ℤ) → (a ≡ pid) ⊎ Memᴰ a (pids processes) → Memᴰ a (pid ∷ pids processes)
      here a (inl d) = Memᴰ.head d
      here a (inr m) = Memᴰ.tail m

  -- A round that finds no new pid.
  IsClosedAt-stop :
      (pid : ℤ) (ancestors : List ℤ) (p : ProcessInfo)
      → by_pid processes pid ≡ some p
      → (not (ltb_ℤ (pos 0) p.ppid) || has_pid p.ppid ancestors) ≡ true
      → IsClosedAt ancestors pid
  IsClosedAt-stop pid ancestors p e stop p' e' g =
      subst (λ (x : ProcessInfo). Memᴰ x.ppid ancestors) same
        (has_pid-mem p.ppid ancestors
          (ground (arith, stop, g, ap (λ (x : ProcessInfo). x.ppid) same)))
    where
      same : p ≡ p'
      same = cc

  walk-IsDone :
      (fuel : ℕ) (pid : ℤ) (ancestors : List ℤ)
      → length processes + 2 ≤ fuel + length ancestors
      → IsRound pid ancestors
      → IsDone (walk fuel processes pid ancestors)
  unfolding walk
  walk-IsDone zero pid ancestors b r = absurd (omega (arith, length-round pid ancestors r))
  walk-IsDone (suc fuel) pid ancestors b r = elim (Option-cases (by_pid processes pid)) [
    | inl e ↦ rw (e, walk) (IsDone-stop pid ancestors r (λ p' e' g. absurd (ground (arith, e, e'))))
    | inr (p, e) ↦
        elim (Bool-cases (not (ltb_ℤ (pos 0) p.ppid) || has_pid p.ppid ancestors))
          as (λ _. IsDone (walk (suc fuel) processes pid ancestors)) [
            | inl stop ↦
                rw (e, walk)
                  (rw stop (IsDone-stop pid ancestors r (IsClosedAt-stop pid ancestors p e stop)))
            | inr more ↦
                rw (e, walk)
                  (rw more (
                    walk-IsDone fuel p.ppid (p.ppid ∷ ancestors) (omega arith) (
                      IsRound-next pid ancestors p r e (ground (arith, more))
                        (ground (arith, more)))))
          ]
  ]

  nil-IsRound : IsRound self []
  nil-IsRound = record {
    seen = inl refl;
    found = tt;
    distinct = tt;
    known = tt;
    closed = λ q s. elim s [ inl d ↦ inl d | inr m ↦ absurd (elim m [ ]) ];
  }

  done : IsDone (caller_ancestor_pids processes self)
  unfolding caller_ancestor_pids
  done = walk-IsDone (length processes + 2) self [] (omega arith) nil-IsRound

  -- The pids that the walk from the caller collects are exactly the caller's ancestors, whatever the
  -- list of processes: cycles of parents and repeated pids included.
  pub caller_ancestor_pids_iff :
      (pid : ℤ) → (has_pid pid (caller_ancestor_pids processes self) ≡ true) ↔ IsAncestor pid
  caller_ancestor_pids_iff pid = (
    λ h. All-mem IsAncestor _ done.sound (has_pid-mem pid _ h),
    λ a. mem-has_pid pid _ (complete pid a),
  )
    where
      complete : (q : ℤ) → IsAncestor q → Memᴰ q (caller_ancestor_pids processes self)
      complete q (IsAncestor.parent p e g) = done.complete self (inl refl) p e g
      complete q (IsAncestor.above q' p a e g) = done.complete q' (inr (complete q' a)) p e g
