-- ===== src/Prelude/Keys.antt =====
-- Maps as lists of entries with different keys: what is read is what is held.
use Prim.Native.String.{String}
use mathlib.Core.Path.{◌≡◌, sym, ap, subst, ◌∙◌}
use mathlib.Core.Logic.{◌≢◌, inl, inr}
use mathlib.Core.List.{List, [], ◌∷◌, Memᴰ}
use mathlib.Core.Option.{Option, none, some}
use native.Mathlib.Omega.{arith}
use text.Mathlib.Text.{◌==◌ as str_eq}
use text.Mathlib.TextEquality.{eq_iff}
use opencode_advance.Prelude.Tests.{Bool-cases}
use opencode_advance.Prelude.Lists.{All, All-mem}
use opencode_advance.Prelude.Maps.{lookup, insert, HasDistinctKeys}

module _ {ℓ} {V : Type ℓ} where
  abbrev value_or : V → Option V → V
  value_or v none = v
  value_or v (some w) = w

  pair_eq : {a b : String} {v w : V} → a ≡ b → v ≡ w → ◌≡◌ {A = String × V} (a, v) (b, w)
  pair_eq p q = cc

  pub lookup-Mem :
      (m : List (String × V)) (key : String) (v : V) → lookup key m ≡ some v → Memᴰ (key, v) m
  unfolding lookup
  lookup-Mem [] key v h = absurd (ground (arith, h))
  lookup-Mem ((held, old) ∷ others) key v h = elim (Bool-cases (str_eq held key)) [
    | inl e ↦
        let same : some old ≡ some v = sym (rw e) ∙ h in
        Memᴰ.head (pair_eq (sym ((eq_iff held key).0 e)) (sym (ap (value_or v) same)))
    | inr e ↦
        let later : lookup key others ≡ some v = sym (rw e) ∙ h in
        Memᴰ.tail (lookup-Mem others key v later)
  ]

  pub Mem-lookup :
      (m : List (String × V)) (key : String) (v : V)
      → HasDistinctKeys m
      → Memᴰ (key, v) m
      → lookup key m ≡ some v
  unfolding lookup
  Mem-lookup [] key v d i = elim i [ ]
  Mem-lookup ((held, old) ∷ others) key v d (Memᴰ.head e) =
      rw ((eq_iff held key).1 (sym (ap (λ x. x.0) e)), ap (λ x. x.1) e)
  Mem-lookup ((held, old) ∷ others) key v d (Memᴰ.tail i) = elim (Bool-cases (str_eq held key)) [
    | inl e ↦ absurd (All-mem (λ (y : String × V). held ≢ y.0) others d.0 i ((eq_iff held key).0 e))
    | inr e ↦ rw (e, Mem-lookup others key v d.1 i)
  ]

  All-insert :
      (k : String) (m : List (String × V)) (key : String) (v : V)
      → k ≢ key
      → All (λ (y : String × V). k ≢ y.0) m
      → All (λ (y : String × V). k ≢ y.0) (insert key v m)
  unfolding insert
  All-insert k [] key v n h = (n, tt)
  All-insert k ((held, old) ∷ others) key v n h = elim (Bool-cases (str_eq held key)) [
    | inl e ↦ rw e (n, h.1)
    | inr e ↦ rw e (h.0, All-insert k others key v n h.1)
  ]

  pub insert-HasDistinctKeys :
      (m : List (String × V)) (key : String) (v : V)
      → HasDistinctKeys m
      → HasDistinctKeys (insert key v m)
  unfolding insert
  insert-HasDistinctKeys [] key v d = (tt, tt)
  insert-HasDistinctKeys ((held, old) ∷ others) key v d = elim (Bool-cases (str_eq held key)) [
    | inl e ↦
        rw e
          (subst (λ k. All (λ (y : String × V). k ≢ y.0) others) ((eq_iff held key).0 e) d.0, d.1)
    | inr e ↦ rw e (
      All-insert held others key v (λ same. absurd (ground (arith, (eq_iff held key).1 same, e)))
          d.0,
      insert-HasDistinctKeys others key v d.1,
    )
  ]
