-- ===== src/Results.antt =====
-- Errors as values: the HTTP exceptions that the services throw, and chains of fallible steps.
use open_chat_be.Prelude.{
  Bool, if◌then◌else◌, String, false, inl, inr, nat_eq, refl, string_eq, true, ◌≡◌, ◌⊎◌,
}

pub data Exception : Type 0 where
  bad_request unauthorized not_found service_unavailable conflict failure : String → Exception

-- What an `async` method settles with.
pub data Result {ℓ} (A : Type ℓ) : Type ℓ where
  err : Exception → Result A
  ok : A → Result A

-- `if (!test) throw e`
abbrev pub require : Bool → Exception → Result (Unit {0})
require test e = if test then ok tt else err e

infixl 5 ◌>>=◌ ◌>>◌
-- An exception skips what comes after it.
abbrev pub ◌>>=◌ {ℓ κ} :
    {Before : Type ℓ} {After : Type κ} → Result Before → (Before → Result After) → Result After
err thrown >>= next = err thrown
ok value >>= next = next value

abbrev pub ◌>>◌ {ℓ} : {After : Type ℓ} → Result (Unit {0}) → Result After → Result After
step >> next = step >>= λ _. next

-- A step that succeeded, taken apart.
pub >>=-eq-ok {ℓ κ} :
    {Before : Type ℓ} {After : Type κ} (step : Result Before) (next : Before → Result After)
    {result : After}
    → (step >>= next) ≡ ok result
    → (value : Before) × (step ≡ ok value) × (next value ≡ ok result)
>>=-eq-ok (err thrown) next done = cc
>>=-eq-ok (ok value) next done = (value, refl, done)

pub require-eq-ok : (b : Bool) (e : Exception) → require b e ≡ ok tt → b ≡ true
require-eq-ok true e h = refl
require-eq-ok false e h = cc

pub Result-cases {ℓ} :
    {A : Type ℓ} (m : Result A) → ((a : A) × (m ≡ ok a)) ⊎ ((e : Exception) × (m ≡ err e))
Result-cases (ok a) = inl (a, refl)
Result-cases (err e) = inr (e, refl)
