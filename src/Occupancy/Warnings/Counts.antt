-- ===== src/Occupancy/Warnings/Counts.antt =====
-- The warnings are the worktrees with more than one active record.
use opencode_advance.Prelude.{
  ◌+◌, ◌<◌, String, true, ◌&&◌, ◌≡◌, refl, sym, ap, subst, ◌∙◌, ◌↔◌, Option, none, some, List, [],
  ◌∷◌, ◌++◌, append_assoc, append-nil, Memᴰ, arith, inl, inr, Bool-cases, str_eq, eq_iff, ltb,
  length, lookup, insert, lookup-insert, HasDistinctKeys, lookup-Mem, Mem-lookup,
  insert-HasDistinctKeys, mem-cons, if◌then◌else◌,
}
use opencode_advance.Occupancy.Warnings.{
  Classified, Warning, Acc, is_active, worktree_of, held_acc, count_session, count_active,
  warnings_of, occupancy_warnings,
}

-- The sessions of the active records at a worktree, in their order.
pub occupants : String → List Classified → List String
occupants wt [] = []
occupants wt (c ∷ cs) =
    if is_active c.liveness && str_eq (worktree_of c) wt
    then c.pane.session_id ∷ occupants wt cs
    else occupants wt cs

abbrev extend : Acc → List String → Acc
extend a ss = record { count = a.count + length ss; sessions = a.sessions ++ ss }

acc_eq : (a b : Acc) → a.count ≡ b.count → a.sessions ≡ b.sessions → a ≡ b
acc_eq a b p q = cc

extend-none : (a : Acc) → extend a [] ≡ a
extend-none a = acc_eq (extend a []) a (omega arith) (append-nil a.sessions)

extend-count_session :
    (s : String) (ss : List String) (a : Acc) → extend (count_session s a) ss ≡ extend a (s ∷ ss)
extend-count_session s ss a =
    acc_eq (extend (count_session s a) ss) (extend a (s ∷ ss)) (omega arith)
      (append_assoc a.sessions (s ∷ []) ss)

-- What the first loop holds for a worktree.
lookup-count_active :
    (wt : String) (cs : List Classified) (m : List (String × Acc))
    → held_acc (lookup wt (count_active m cs)) ≡ extend (held_acc (lookup wt m)) (occupants wt cs)
unfolding count_active occupants
lookup-count_active wt [] m = sym (extend-none (held_acc (lookup wt m)))
lookup-count_active wt (c ∷ cs) m = elim (Bool-cases (is_active c.liveness)) [
  | inr e ↦ rw e (lookup-count_active wt cs m)
  | inl e ↦
      let at = worktree_of c in
      let a = count_session c.pane.session_id (held_acc (lookup at m)) in
      let later = lookup-count_active wt cs (insert at a m) in
      elim (Bool-cases (str_eq at wt)) [
        | inr o ↦ rw (e, o) (later ∙ rw (lookup-insert m at wt a, o))
        | inl o ↦
            rw (e, o)
              (later
                ∙ rw (lookup-insert m at wt a, o, (eq_iff at wt).0 o)
                    (extend-count_session c.pane.session_id (occupants wt cs)
                      (held_acc (lookup wt m))))
      ]
]

count_active-HasDistinctKeys :
    (cs : List Classified) (m : List (String × Acc))
    → HasDistinctKeys m
    → HasDistinctKeys (count_active m cs)
unfolding count_active
count_active-HasDistinctKeys [] m d = d
count_active-HasDistinctKeys (c ∷ cs) m d = elim (Bool-cases (is_active c.liveness)) [
  | inr e ↦ rw e (count_active-HasDistinctKeys cs m d)
  | inl e ↦ rw e (count_active-HasDistinctKeys cs _ (insert-HasDistinctKeys m (worktree_of c) _ d))
]

abbrev warning : String → Acc → Warning
warning wt a = record { path = wt; active_count = a.count; sessions = a.sessions }

-- A warning comes from an entry with a count above one.
record Comes (w : Warning) (m : List (String × Acc)) : Type 0 where
  pub acc : Acc
  pub held : Memᴰ (w.path, acc) m
  pub many : 1 < acc.count
  pub same : w ≡ warning w.path acc

later-Comes :
    {w : Warning} {e : String × Acc} {m : List (String × Acc)} → Comes w m → Comes w (e ∷ m)
later-Comes h = record { acc = h.acc; held = Memᴰ.tail h.held; many = h.many; same = h.same }

path_held : (w : Warning) (wt : String) (a : Acc) → w ≡ warning wt a → w ≡ warning w.path a
path_held w wt a e = e ∙ ap (λ p. warning p a) (sym (ap (λ (x : Warning). x.path) e))

entry_held :
    (w : Warning) (wt : String) (a : Acc)
    → w ≡ warning wt a
    → ◌≡◌ {A = String × Acc} (w.path, a) (wt, a)
entry_held w wt a e = let p : w.path ≡ wt = ap (λ (x : Warning). x.path) e in cc

warnings_of-Comes : (w : Warning) (m : List (String × Acc)) → Memᴰ w (warnings_of m) → Comes w m
unfolding warnings_of
warnings_of-Comes w [] i = elim i [ ]
warnings_of-Comes w ((wt, a) ∷ others) i = elim (Bool-cases (ltb 1 a.count)) [
  | inr e ↦ later-Comes (warnings_of-Comes w others (subst (Memᴰ w) (rw e) i))
  | inl e ↦
      let j : Memᴰ w (warning wt a ∷ warnings_of others) = subst (Memᴰ w) (rw e) i in
      elim (mem-cons j) [
        | inl q ↦ record {
          acc = a;
          held = Memᴰ.head (entry_held w wt a q);
          many = ground (arith, e);
          same = path_held w wt a q;
        }
        | inr k ↦ later-Comes (warnings_of-Comes w others k)
      ]
]

warnings_of-Mem :
    (wt : String) (a : Acc) (m : List (String × Acc))
    → 1 < a.count
    → Memᴰ (wt, a) m
    → Memᴰ (warning wt a) (warnings_of m)
unfolding warnings_of
warnings_of-Mem wt a [] many i = elim i [ ]
warnings_of-Mem wt a ((held, b) ∷ others) many (Memᴰ.head q) =
    let k : wt ≡ held = ap (λ (x : String × Acc). x.0) q in
    let v : a ≡ b = ap (λ (x : String × Acc). x.1) q in
    let c : ltb 1 b.count ≡ true =
      subst (λ (x : Acc). ltb 1 x.count ≡ true) v (ground (arith, many)) in
    rw c (Memᴰ.head cc)
warnings_of-Mem wt a ((held, b) ∷ others) many (Memᴰ.tail i) = elim (Bool-cases (ltb 1 b.count)) [
  | inl e ↦ rw e (Memᴰ.tail (warnings_of-Mem wt a others many i))
  | inr e ↦ rw e (warnings_of-Mem wt a others many i)
]

abbrev pub counted : List String → Acc
counted ss = record { count = length ss; sessions = ss }

held_count_active :
    (wt : String) (cs : List Classified)
    → held_acc (lookup wt (count_active [] cs)) ≡ counted (occupants wt cs)
unfolding lookup
held_count_active wt cs =
    lookup-count_active wt cs []
    ∙ acc_eq (extend (held_acc none) (occupants wt cs)) (counted (occupants wt cs)) (omega arith)
        refl

acc_held :
    (wt : String) (cs : List Classified) (x : Option Acc)
    → lookup wt (count_active [] cs) ≡ x
    → held_acc x ≡ counted (occupants wt cs)
acc_held wt cs x e = sym (ap held_acc e) ∙ held_count_active wt cs

found_held :
    (wt : String) (cs : List Classified) (x : Option Acc)
    → lookup wt (count_active [] cs) ≡ x
    → 1 < length (occupants wt cs)
    → x ≡ some (counted (occupants wt cs))
found_held wt cs none e h =
    let c : 0 ≡ length (occupants wt cs) = ap (λ (a : Acc). a.count) (acc_held wt cs none e) in
    absurd (omega (arith, c, h))
found_held wt cs (some a) e h = ap some (acc_held wt cs (some a) e)

-- A warning for a worktree: more than one active record is at it, and the warning counts them and
-- has their sessions in their order.
pub record Warns (cs : List Classified) (w : Warning) : Type 0 where
  pub several : 1 < length (occupants w.path cs)
  pub says : w ≡ warning w.path (counted (occupants w.path cs))

occupancy_warnings_sound :
    (cs : List Classified) (w : Warning) → Memᴰ w (occupancy_warnings cs) → Warns cs w
unfolding occupancy_warnings
occupancy_warnings_sound cs w i =
    let c = warnings_of-Comes w (count_active [] cs) i in
    let found =
      Mem-lookup (count_active [] cs) w.path c.acc (count_active-HasDistinctKeys cs [] tt) c.held in
    let a : c.acc ≡ counted (occupants w.path cs) = acc_held w.path cs (some c.acc) found in
    record {
      several = subst (λ (x : Acc). 1 < x.count) a c.many;
      says = c.same ∙ ap (warning w.path) a;
    }

occupancy_warnings_complete :
    (cs : List Classified) (w : Warning) → Warns cs w → Memᴰ w (occupancy_warnings cs)
unfolding occupancy_warnings
occupancy_warnings_complete cs w h =
    let a = counted (occupants w.path cs) in
    let i = lookup-Mem (count_active [] cs) w.path a (found_held w.path cs _ refl h.several) in
    subst (λ x. Memᴰ x (warnings_of (count_active [] cs))) (sym h.says)
      (warnings_of-Mem w.path a (count_active [] cs) h.several i)

-- OccupancyWarnings warns of exactly the worktrees at which more than one record is active; a record
-- without a worktree path counts at its directory. The warning has the number of these records and
-- their sessions in the order of the records.
pub occupancy_warnings_iff :
    (cs : List Classified) (w : Warning) → Memᴰ w (occupancy_warnings cs) ↔ Warns cs w
occupancy_warnings_iff cs w = (occupancy_warnings_sound cs w, occupancy_warnings_complete cs w)
