-- ===== src/Prelude/Lists.antt =====
-- Lists measured by native numbers, and predicates on their elements.
use Prim.Native.Nat.{ℕ, suc, ◌+◌}
use mathlib.Core.Path.{◌≡◌, refl, sym, subst, ◌∙◌}
use mathlib.Core.Logic.{◌↔◌, ◌⊎◌, inl, inr}
use mathlib.Core.Bool.{Bool, true, false}
use mathlib.Core.List.{List, [], ◌∷◌, ◌++◌, Memᴰ}
use native.Mathlib.Omega.{arith}

module _ {ℓ} {A : Type ℓ} where
  abbrev pub length : List A → ℕ
  length [] = 0
  length (x ∷ xs) = suc (length xs)

  pub length-append : (xs ys : List A) → length (xs ++ ys) ≡ length xs + length ys
  length-append [] ys = omega arith
  length-append (x ∷ xs) ys = omega (arith, length-append xs ys)

  abbrev pub is_empty : List A → Bool
  is_empty [] = true
  is_empty (x ∷ xs) = false

  -- `P` holds of every element.
  abbrev pub All {κ} : (A → Type κ) → List A → Type κ
  All P [] = Unit
  All P (x ∷ xs) = P x × All P xs

  pub append-eq-nil : (xs ys : List A) → xs ++ ys ≡ [] → (xs ≡ []) × (ys ≡ [])
  append-eq-nil [] ys h = (refl, h)
  append-eq-nil (x ∷ xs) ys h = cc

  pub nil-append-nil : (xs ys : List A) → xs ≡ [] → ys ≡ [] → xs ++ ys ≡ []
  nil-append-nil [] ys p q = q
  nil-append-nil (x ∷ xs) ys p q = cc

  pub append-eq-nil_iff : (xs ys : List A) → (xs ++ ys ≡ []) ↔ ((xs ≡ []) × (ys ≡ []))
  append-eq-nil_iff xs ys = (append-eq-nil xs ys, λ (p, q). nil-append-nil xs ys p q)

  pub mem-cons : {a x : A} {xs : List A} → Memᴰ a (x ∷ xs) → (a ≡ x) ⊎ Memᴰ a xs
  mem-cons (Memᴰ.head e) = inl e
  mem-cons (Memᴰ.tail m) = inr m

  pub mem-append_left : {a : A} (xs ys : List A) → Memᴰ a xs → Memᴰ a (xs ++ ys)
  mem-append_left [] ys m = elim m [ ]
  mem-append_left (x ∷ xs) ys (Memᴰ.head e) = Memᴰ.head e
  mem-append_left (x ∷ xs) ys (Memᴰ.tail m) = Memᴰ.tail (mem-append_left xs ys m)

  pub mem-append_last : (xs : List A) (a : A) → Memᴰ a (xs ++ a ∷ [])
  mem-append_last [] a = Memᴰ.head refl
  mem-append_last (x ∷ xs) a = Memᴰ.tail (mem-append_last xs a)

module _ {ℓ κ} {A : Type ℓ} (P : A → Type κ) where
  pub All-mem : (xs : List A) → All P xs → {a : A} → Memᴰ a xs → P a
  All-mem [] h m = elim m [ ]
  All-mem (x ∷ xs) h (Memᴰ.head e) = subst P (sym e) h.0
  All-mem (x ∷ xs) h (Memᴰ.tail m) = All-mem xs h.1 m

  pub mem-All : (xs : List A) → ((a : A) → Memᴰ a xs → P a) → All P xs
  mem-All [] h = tt
  mem-All (x ∷ xs) h = (h x (Memᴰ.head refl), mem-All xs (λ a m. h a (Memᴰ.tail m)))

  pub All-append : (xs ys : List A) → All P xs → All P ys → All P (xs ++ ys)
  All-append [] ys p q = q
  All-append (x ∷ xs) ys p q = (p.0, All-append xs ys p.1 q)

-- `R` holds of each element and each later one.
abbrev pub Pairs {ℓ κ} : {A : Type ℓ} → (A → A → Type κ) → List A → Type κ
Pairs R [] = Unit
Pairs R (x ∷ xs) = All (R x) xs × Pairs R xs

pub Pairs-mem {ℓ κ} :
    {A : Type ℓ} (R : A → A → Type κ) (xs : List A)
    → Pairs R xs
    → {a b : A} → Memᴰ a xs
    → Memᴰ b xs
    → (a ≡ b) ⊎ (R a b ⊎ R b a)
Pairs-mem R [] h m m' = elim m [ ]
Pairs-mem R (x ∷ xs) h (Memᴰ.head e) (Memᴰ.head e') = inl (e ∙ sym e')
Pairs-mem R (x ∷ xs) h {a} {b} (Memᴰ.head e) (Memᴰ.tail m) =
    inr (inl (subst (λ z. R z b) (sym e) (All-mem (R x) xs h.0 m)))
Pairs-mem R (x ∷ xs) h {a} {b} (Memᴰ.tail m) (Memᴰ.head e) =
    inr (inr (subst (λ z. R z a) (sym e) (All-mem (R x) xs h.0 m)))
Pairs-mem R (x ∷ xs) h (Memᴰ.tail m) (Memᴰ.tail m') = Pairs-mem R xs h.1 m m'

pub mem-Pairs {ℓ κ μ} :
    {A : Type ℓ} (Q : A → A → Type κ) (R : A → A → Type μ) (xs : List A)
    → Pairs Q xs
    → ((a b : A) → Memᴰ a xs → Memᴰ b xs → Q a b → R a b)
    → Pairs R xs
mem-Pairs Q R [] q h = tt
mem-Pairs Q R (x ∷ xs) q h = (
  mem-All (R x) xs λ b m. h x b (Memᴰ.head refl) (Memᴰ.tail m) (All-mem (Q x) xs q.0 m),
  mem-Pairs Q R xs q.1 λ a b m n. h a b (Memᴰ.tail m) (Memᴰ.tail n),
)

pub Pairs-append {ℓ κ} :
    {A : Type ℓ} (R : A → A → Type κ) (xs ys : List A)
    → Pairs R xs
    → Pairs R ys
    → All (λ x. All (R x) ys) xs
    → Pairs R (xs ++ ys)
Pairs-append R [] ys p q h = q
Pairs-append R (x ∷ xs) ys p q h = (All-append (R x) xs ys p.0 h.0, Pairs-append R xs ys p.1 q h.1)

-- Two lists, seen from either side.
pub All-swap {ℓ κ} :
    {A : Type ℓ} (R : A → A → Type κ) (xs ys : List A)
    → All (λ y. All (λ x. R x y) xs) ys
    → All (λ x. All (R x) ys) xs
All-swap R xs ys h = mem-All _ xs λ x m. mem-All (R x) ys λ y n. All-mem _ xs (All-mem _ ys h n) m
