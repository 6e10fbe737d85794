-- ===== src/Common/Results.antt =====
-- Exceptions as values. A `$transaction` that throws is rolled back, so a transaction is a function
-- into `Result`, and `settle` keeps the old state on an exception.
use Prim.Native.String.{String}
use mathlib.Core.Path.{◌≡◌, refl}
use mathlib.Core.Logic.{◌⊎◌, inl, inr}
use mathlib.Core.Bool.{Bool, true, false}
use mathlib.Core.Option.{Option, none, some}

-- The exceptions of NestJS that the services throw, each with its message, and the error of a
-- database client that finds no row where one is required.
pub data Exception : Type 0 where
  bad_request not_found conflict forbidden unauthorized unprocessable : String → Exception
  internal : String → Exception

-- What an asynchronous function settles with: an exception, or the value of its promise.
pub data Result {ℓ} (Value : Type ℓ) : Type ℓ where
  err : Exception → Result Value
  ok : Value → Result Value

-- `await` in sequence; the first exception ends the function.
infixl 5 ◌>>=◌
abbrev pub ◌>>=◌ {ℓ κ} :
    {Value : Type ℓ} {Next : Type κ} → Result Value → (Value → Result Next) → Result Next
err thrown >>= rest = err thrown
ok value >>= rest = rest value

infixl 5 ◌>>◌
abbrev pub ◌>>◌ {κ} : {Next : Type κ} → Result (Unit {0}) → Result Next → Result Next
err thrown >> rest = err thrown
ok done >> rest = rest

-- `if (!found) throw e`.
abbrev pub or_throw {ℓ} : {Row : Type ℓ} → Option Row → Exception → Result Row
or_throw (some row) missing = ok row
or_throw none missing = err missing

-- A write by a unique key throws where the row is gone.
abbrev pub written {ℓ} : {Row : Type ℓ} → Option Row → Result Row
written o = or_throw o (internal "An operation failed because it depends on one or more records.")

-- `if (!test) throw e`.
abbrev pub require : (test : Bool) → (thrown : Exception) → Result (Unit {0})
require false thrown = err thrown
require true thrown = ok tt

-- The state after a transaction, and what the caller receives.
abbrev pub settle {ℓ κ} : {S : Type ℓ} {A : Type κ} → S → Result (S × A) → S × Result A
settle s (ok (t, a)) = (t, ok a)
settle s (err e) = (s, err e)

pub Result-cases {ℓ} :
    {A : Type ℓ} (m : Result A) → ((e : Exception) × (m ≡ err e)) ⊎ ((a : A) × (m ≡ ok a))
Result-cases (ok a) = inr (a, refl)
Result-cases (err e) = inl (e, refl)
