-- ===== src/Prelude/Results.antt =====
-- Values that may fail with an error of a type of the caller's.
use mathlib.Core.Path.{◌≡◌, refl}
use mathlib.Core.Logic.{◌⊎◌, inl, inr}

pub data Result {ℓ} (E A : Type ℓ) : Type ℓ where
  err : E → Result E A
  ok : A → Result E A

module _ {ℓ} {E A B : Type ℓ} where
  infixl 5 ◌>>=◌
  abbrev pub ◌>>=◌ : Result E A → (A → Result E B) → Result E B
  err failure >>= next = err failure
  ok value >>= next = next value

  -- Both parts of a chain have run.
  abbrev pub HasRun : Result E A → (A → Result E B) → B → Type ℓ
  HasRun first next last = (value : A) × (first ≡ ok value) × (next value ≡ ok last)

  pub bind-HasRun :
      (first : Result E A) (next : A → Result E B) {last : B}
      → (first >>= next) ≡ ok last
      → HasRun first next last
  bind-HasRun (err failure) next h = cc
  bind-HasRun (ok value) next h = (value, refl, h)

pub ok-injective {ℓ} : {E A : Type ℓ} {a b : A} → ◌≡◌ {A = Result E A} (ok a) (ok b) → a ≡ b
ok-injective h = cc

pub Result-cases {ℓ} :
    {E A : Type ℓ} (r : Result E A)
    → ((failure : E) × (r ≡ err failure)) ⊎ ((value : A) × (r ≡ ok value))
Result-cases (err failure) = inl (failure, refl)
Result-cases (ok value) = inr (value, refl)
