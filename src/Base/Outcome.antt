-- ===== src/Base/Outcome.antt =====
-- The outcome of code that can fail, with a third case for a loop that used up its fuel.
use mathlib.Core.Path.{◌≡◌, refl}
use mathlib.Core.Logic.{◌⊎◌, inl, inr}

pub data Result {ℓ} (A : Type ℓ) : Type ℓ where
  done : A → Result A
  failed : Result A
  out_of_fuel : Result A

infixl 5 ◌>>=◌
abbrev pub ◌>>=◌ {ℓ κ} : {A : Type ℓ} {B : Type κ} → Result A → (A → Result B) → Result B
done a >>= f = f a
failed >>= f = failed
out_of_fuel >>= f = out_of_fuel

pub Result-cases {ℓ} :
    {A : Type ℓ} (r : Result A) → ((a : A) × (r ≡ done a)) ⊎ ((r ≡ failed) ⊎ (r ≡ out_of_fuel))
Result-cases (done a) = inl (a, refl)
Result-cases failed = inr (inl refl)
Result-cases out_of_fuel = inr (inr refl)
