-- ===== src/Runtime/Sessions/Rows.antt =====
-- Deletion by id: which rows it leaves.
use opencode_advance.Prelude.{
  String, Bool, false, ◌≡◌, ◌≢◌, refl, sym, ap, List, [], ◌∷◌, inl, inr, Bool-cases, if◌then◌else◌,
  str_eq, eq_iff, All, All-mem, Pairs, Memᴰ, subst,
}
use opencode_advance.Runtime.Debt.{Row, contains, select}
use opencode_advance.Runtime.Sessions.{ids_of}

-- The rows have different ids, as the primary key of the table does.
abbrev pub HasDistinctIds : List Row → Type 0
HasDistinctIds = Pairs (λ (x y : Row). x.id ≢ y.id)

contains-other :
    (P : Row → Bool) (id : String) (rows : List Row)
    → All (λ (y : Row). id ≢ y.id) rows
    → contains id (ids_of (select P rows)) ≡ false
unfolding contains select
contains-other P id [] h = refl
contains-other P id (x ∷ xs) h = elim (Bool-cases (P x)) [
  | inr p ↦ rw p (contains-other P id xs h.1)
  | inl p ↦ elim (Bool-cases (str_eq x.id id)) [
    | inl e ↦ absurd (h.0 (sym ((eq_iff x.id id).0 e)))
    | inr e ↦ rw (p, e) (contains-other P id xs h.1)
  ]
]

contains-first :
    (P : Row → Bool) (x : Row) (xs : List Row)
    → All (λ (y : Row). x.id ≢ y.id) xs
    → contains x.id (ids_of (select P (x ∷ xs))) ≡ P x
unfolding contains select
contains-first P x xs h = elim (Bool-cases (P x)) [
  | inr p ↦ rw p (contains-other P x.id xs h)
  | inl p ↦ rw (p, (eq_iff x.id x.id).1 refl)
]

pub contains-selected :
    (P : Row → Bool) (rows : List Row)
    → HasDistinctIds rows
    → (r : Row) → Memᴰ r rows
    → contains r.id (ids_of (select P rows)) ≡ P r
unfolding contains select
contains-selected P [] h r m = elim m [ ]
contains-selected P (x ∷ xs) h r (Memᴰ.head e) =
    subst (λ (z : Row). contains z.id (ids_of (select P (x ∷ xs))) ≡ P z) (sym e)
      (contains-first P x xs h.0)
contains-selected P (x ∷ xs) h r (Memᴰ.tail m) = elim (Bool-cases (P x)) [
  | inr p ↦ rw p (contains-selected P xs h.1 r m)
  | inl p ↦ elim (Bool-cases (str_eq x.id r.id)) [
    | inl e ↦ absurd (All-mem (λ (y : Row). x.id ≢ y.id) xs h.0 m ((eq_iff x.id r.id).0 e))
    | inr e ↦ rw (p, e) (contains-selected P xs h.1 r m)
  ]
]

pub select_cong :
    (P Q : Row → Bool) (rows : List Row)
    → ((r : Row) → Memᴰ r rows → P r ≡ Q r)
    → select P rows ≡ select Q rows
unfolding select
select_cong P Q [] h = refl
select_cong P Q (x ∷ xs) h = rw (h x (Memᴰ.head refl)) (
    ap (λ (rest : List Row). if Q x then x ∷ rest else rest)
      (select_cong P Q xs (λ r m. h r (Memᴰ.tail m))))
