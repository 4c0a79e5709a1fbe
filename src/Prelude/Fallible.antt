-- ===== src/Prelude/Fallible.antt =====
-- What a Go function with an `error` result returns.
use mathlib.Core.Path.{◌≡◌, refl}
use mathlib.Core.Logic.{◌⊎◌, inl, inr}
use mathlib.Core.Bool.{Bool, true, false}

pub data Result {ℓ} (E : Type 0) (A : Type ℓ) : Type ℓ where
  ok : A → Result E A
  err : E → Result E A

infixl 5 ◌>>=◌ ◌>>◌
abbrev pub ◌>>=◌ {κ ℓ} :
    {E : Type 0} {B : Type κ} {A : Type ℓ} → Result E B → (B → Result E A) → Result E A
err failure >>= next_step = err failure
ok value >>= next_step = next_step value

abbrev pub ◌>>◌ {ℓ} : {E : Type 0} {A : Type ℓ} → Result E (Unit {0}) → Result E A → Result E A
before >> after = before >>= λ done. after

pub Result-cases {ℓ} :
    {E : Type 0} {A : Type ℓ} (r : Result E A) → ((a : A) × (r ≡ ok a)) ⊎ ((e : E) × (r ≡ err e))
Result-cases (ok a) = inl (a, refl)
Result-cases (err e) = inr (e, refl)

pub >>=-eq-ok {κ ℓ} :
    {E : Type 0} {B : Type κ} {A : Type ℓ} (r : Result E B) (k : B → Result E A) {result : A}
    → (r >>= k) ≡ ok result
    → (value : B) × (r ≡ ok value) × (k value ≡ ok result)
>>=-eq-ok (err failure) k h = cc
>>=-eq-ok (ok value) k h = (value, refl, h)

-- `err == nil`
abbrev pub is_ok {ℓ} : {E : Type 0} {A : Type ℓ} → Result E A → Bool
is_ok (err e) = false
is_ok (ok a) = true
