-- ===== src/Prelude/Maps.antt =====
-- Go maps with string keys, as lists of entries; `sort.Strings` on their keys.
use Prim.Native.String.{String, compare}
use mathlib.Core.Path.{◌≡◌, refl}
use mathlib.Core.Logic.{◌⊎◌, ◌≢◌, inl, inr}
use mathlib.Core.Bool.{Bool, true, false}
use mathlib.Core.List.{List, [], ◌∷◌, Memᴰ}
use mathlib.Core.Option.{Option, none, some}
use native.Mathlib.Omega.{arith}
use text.Mathlib.Text.{◌==◌ as str_eq, is_le}
use text.Mathlib.TextEquality.{eq_iff}
use opencode_advance.Prelude.Tests.{if◌then◌else◌, Bool-cases}
use opencode_advance.Prelude.Lists.{All, All-mem, mem-All, Pairs}

module _ {ℓ} {V : Type ℓ} where
  -- A Go map read at a key: `none` is the missing key.
  unfoldable pub lookup : String → List (String × V) → Option V
  lookup key [] = none
  lookup key ((held, value) ∷ others) = if str_eq held key then some value else lookup key others

  -- A write of a Go map.
  unfoldable pub insert : String → V → List (String × V) → List (String × V)
  insert key value [] = (key, value) ∷ []
  insert key value ((held, old) ∷ others) =
      if str_eq held key then (key, value) ∷ others else (held, old) ∷ insert key value others

  pub lookup-insert :
      (m : List (String × V)) (written read : String) (value : V)
      → lookup read (insert written value m)
        ≡ (if str_eq written read then some value else lookup read m)
  unfolding lookup insert
  lookup-insert [] written read value = refl
  lookup-insert ((held, old) ∷ others) written read value = ground (
    arith,
    eq_iff written read,
    eq_iff held written,
    eq_iff held read,
    lookup-insert others written read value,
  )

  -- The entries of a map in the order of `sort.Strings` on its keys.
  pub insert_sorted : String × V → List (String × V) → List (String × V)
  insert_sorted e [] = e ∷ []
  insert_sorted e (x ∷ xs) = if is_le (compare e.0 x.0) then e ∷ x ∷ xs else x ∷ insert_sorted e xs

  unfoldable pub sort_entries : List (String × V) → List (String × V)
  unfolding insert_sorted
  sort_entries [] = []
  sort_entries (e ∷ xs) = insert_sorted e (sort_entries xs)

  mem-insert_sorted :
      (e : String × V) (xs : List (String × V)) {a : String × V}
      → Memᴰ a (insert_sorted e xs)
      → Memᴰ a (e ∷ xs)
  unfolding insert_sorted
  mem-insert_sorted e [] m = m
  mem-insert_sorted e (x ∷ xs) {a} m = go (is_le (compare e.0 x.0)) m (mem-insert_sorted e xs)
    where
      keep : Memᴰ a (e ∷ xs) → Memᴰ a (e ∷ x ∷ xs)
      keep (Memᴰ.head q) = Memᴰ.head q
      keep (Memᴰ.tail q) = Memᴰ.tail (Memᴰ.tail q)

      go :
          (b : Bool)
          → Memᴰ a (if b then e ∷ x ∷ xs else x ∷ insert_sorted e xs)
          → (Memᴰ a (insert_sorted e xs) → Memᴰ a (e ∷ xs))
          → Memᴰ a (e ∷ x ∷ xs)
      go true q ih = q
      go false (Memᴰ.head q) ih = Memᴰ.tail (Memᴰ.head q)
      go false (Memᴰ.tail q) ih = keep (ih q)

  insert_sorted-mem :
      (e : String × V) (xs : List (String × V)) {a : String × V}
      → Memᴰ a (e ∷ xs)
      → Memᴰ a (insert_sorted e xs)
  unfolding insert_sorted
  insert_sorted-mem e [] m = m
  insert_sorted-mem e (x ∷ xs) {a} m =
      go (is_le (compare e.0 x.0)) m (λ q. insert_sorted-mem e xs q)
    where
      move : Memᴰ a (e ∷ x ∷ xs) → (a ≡ x) ⊎ Memᴰ a (e ∷ xs)
      move (Memᴰ.head q) = inr (Memᴰ.head q)
      move (Memᴰ.tail (Memᴰ.head q)) = inl q
      move (Memᴰ.tail (Memᴰ.tail q)) = inr (Memᴰ.tail q)

      place :
          (Memᴰ a (e ∷ xs) → Memᴰ a (insert_sorted e xs))
          → (a ≡ x) ⊎ Memᴰ a (e ∷ xs)
          → Memᴰ a (x ∷ insert_sorted e xs)
      place ih (inl q) = Memᴰ.head q
      place ih (inr q) = Memᴰ.tail (ih q)

      go :
          (b : Bool)
          → Memᴰ a (e ∷ x ∷ xs)
          → (Memᴰ a (e ∷ xs) → Memᴰ a (insert_sorted e xs))
          → Memᴰ a (if b then e ∷ x ∷ xs else x ∷ insert_sorted e xs)
      go true q ih = q
      go false q ih = place ih (move q)

  -- Sorting keeps the entries.
  pub sort_entries-mem :
      (xs : List (String × V)) {a : String × V} → Memᴰ a xs → Memᴰ a (sort_entries xs)
  unfolding sort_entries
  sort_entries-mem [] m = elim m [ ]
  sort_entries-mem (x ∷ xs) (Memᴰ.head q) = insert_sorted-mem x (sort_entries xs) (Memᴰ.head q)
  sort_entries-mem (x ∷ xs) (Memᴰ.tail q) =
      insert_sorted-mem x (sort_entries xs) (Memᴰ.tail (sort_entries-mem xs q))

  pub mem-sort_entries :
      (xs : List (String × V)) {a : String × V} → Memᴰ a (sort_entries xs) → Memᴰ a xs
  unfolding sort_entries
  mem-sort_entries [] m = elim m [ ]
  mem-sort_entries (x ∷ xs) {a} m =
      go (mem-insert_sorted x (sort_entries xs) m) (mem-sort_entries xs)
    where
      go : Memᴰ a (x ∷ sort_entries xs) → (Memᴰ a (sort_entries xs) → Memᴰ a xs) → Memᴰ a (x ∷ xs)
      go (Memᴰ.head q) ih = Memᴰ.head q
      go (Memᴰ.tail q) ih = Memᴰ.tail (ih q)

-- Sorting keeps a symmetric relation between any two entries.
module _ {ℓ κ} {V : Type ℓ} (R : String × V → String × V → Type κ) where
  All-insert_sorted :
      (P : String × V → Type κ) (e : String × V) (xs : List (String × V))
      → P e
      → All P xs
      → All P (insert_sorted e xs)
  All-insert_sorted P e xs p h =
      mem-All P (insert_sorted e xs) λ a m. All-mem P (e ∷ xs) (p, h) (mem-insert_sorted e xs m)

  module _ (symmetric : (a b : String × V) → R a b → R b a) where
    Pairs-insert_sorted :
        (e : String × V) (xs : List (String × V))
        → All (R e) xs
        → Pairs R xs
        → Pairs R (insert_sorted e xs)
    unfolding insert_sorted
    Pairs-insert_sorted e [] h p = (tt, tt)
    Pairs-insert_sorted e (x ∷ xs) h p = elim (Bool-cases (is_le (compare e.0 x.0))) [
      | inl before ↦ rw before (h, p)
      | inr after ↦
          rw after
            (All-insert_sorted (R x) e xs (symmetric e x h.0) p.0, Pairs-insert_sorted e xs h.1 p.1)
    ]

    pub Pairs-sort_entries : (xs : List (String × V)) → Pairs R xs → Pairs R (sort_entries xs)
    unfolding sort_entries
    Pairs-sort_entries [] p = tt
    Pairs-sort_entries (x ∷ xs) p =
        Pairs-insert_sorted x (sort_entries xs)
          (mem-All (R x) (sort_entries xs) λ a m. All-mem (R x) xs p.0 (mem-sort_entries xs m))
          (Pairs-sort_entries xs p.1)

-- The keys of a Go map are distinct.
abbrev pub HasDistinctKeys {ℓ} : {V : Type ℓ} → List (String × V) → Type 0
HasDistinctKeys m = Pairs (λ a b. a.0 ≢ b.0) m
