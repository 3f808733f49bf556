-- ===== src/Prelude/Results.antt =====
-- Results with a Go error, whose text is kept.
use Prim.Native.String.{String}
use mathlib.Core.Path.{◌≡◌, refl}
use mathlib.Core.Logic.{◌⊎◌, inl, inr}

pub data Result {ℓ} (A : Type ℓ) : Type ℓ where
  fail : String → Result A
  done : A → Result A

pub Result-cases {ℓ} :
    {A : Type ℓ} (r : Result A)
    → ((e : String) × (r ≡ Result.fail e)) ⊎ ((a : A) × (r ≡ Result.done a))
Result-cases (Result.fail e) = inl (e, refl)
Result-cases (Result.done a) = inr (a, refl)
