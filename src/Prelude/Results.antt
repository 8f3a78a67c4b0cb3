-- ===== src/Prelude/Results.antt =====
-- A value or the exception that was thrown instead, chained as `await` chains calls that may throw.
use mathlib.Core.Path.{◌≡◌, refl}
use mathlib.Core.Logic.{◌⊎◌, inl, inr}

pub data Result {ℓ} (E : Type 0) (A : Type ℓ) : Type ℓ where
  err : E → Result E A
  ok : A → Result E A

infixl 5 ◌>>=◌
abbrev pub ◌>>=◌ {ℓ κ} :
    {E : Type 0} {A : Type ℓ} {B : Type κ} → Result E A → (A → Result E B) → Result E B
err thrown >>= later = err thrown
ok value >>= later = later value

-- A chain that returns has returned at its first call too.
pub >>=-eq-ok {ℓ κ} :
    {E : Type 0} {A : Type ℓ} {B : Type κ} (call : Result E A) (later : A → Result E B) {last : B}
    → (call >>= later) ≡ ok last
    → (value : A) × (call ≡ ok value) × (later value ≡ ok last)
>>=-eq-ok (err thrown) later returned = absurd (cc)
>>=-eq-ok (ok value) later returned = (value, refl, returned)

pub Result-cases {ℓ} :
    {E : Type 0} {A : Type ℓ} (r : Result E A) → ((e : E) × (r ≡ err e)) ⊎ ((a : A) × (r ≡ ok a))
Result-cases (ok a) = inr (a, refl)
Result-cases (err e) = inl (e, refl)
