-- ===== src/Result.antt =====
-- A computation that returns a value or raises an exception.
use agdd.Prelude.{◌≡◌, ◌⊎◌, inl, inr, refl, ap}

pub data Result {ℓ} (E A : Type ℓ) : Type ℓ where
  ok : A → Result E A
  raise : E → Result E A

infixl 5 ◌>>=◌
abbrev pub ◌>>=◌ {ℓ} : {E A B : Type ℓ} → Result E A → (A → Result E B) → Result E B
raise error >>= next = raise error
ok value >>= next = next value

-- The value of the first part, where both parts return.
pub first_value {ℓ} :
    {E A B : Type ℓ} (first : Result E A) (next : A → Result E B) {b : B}
    → ok b ≡ (first >>= next)
    → (a : A) × (first ≡ ok a) × (ok b ≡ next a)
first_value (raise error) next h = cc
first_value (ok value) next h = (value, refl, h)

from_ok {ℓ} : {E A : Type ℓ} → A → Result E A → A
from_ok d (ok a) = a
from_ok d (raise e) = d

pub ok-injective {ℓ} : {E A : Type ℓ} (a b : A) → ◌≡◌ {A = Result E A} (ok a) (ok b) → a ≡ b
unfolding from_ok
ok-injective a b h = ap (from_ok a) h

pub Result-cases {ℓ} :
    {E A : Type ℓ} (r : Result E A) → ((a : A) × (r ≡ ok a)) ⊎ ((e : E) × (r ≡ raise e))
Result-cases (raise e) = inr (e, refl)
Result-cases (ok a) = inl (a, refl)
