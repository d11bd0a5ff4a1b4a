-- ===== src/Base/Expected.antt =====
-- src/internal/expected.hpp: a value or the text of an error, and the chaining of the decoders' early
-- returns.
use mathlib.Core.Path.{◌≡◌, refl}
use mathlib.Core.Bool.{Bool, true, false, not}
use mathlib.Core.Option.{Option, none, some}
use unleash_cpp_sdk.Base.Bytes.{Text}
use unleash_cpp_sdk.Base.Tests.{is_some}

pub data Expected {ℓ} (A : Type ℓ) : Type ℓ where
  expected : A → Expected A
  unexpected : Text → Expected A

module _ {ℓ} {A : Type ℓ} where
  unfoldable pub has_value : Expected A → Bool
  has_value (expected a) = true
  has_value (unexpected e) = false

  -- `none` is the `std::logic_error` that the accessors throw.
  unfoldable pub value_of : Expected A → Option A
  value_of (expected a) = some a
  value_of (unexpected e) = none

  unfoldable pub error_of : Expected A → Option Text
  error_of (expected a) = none
  error_of (unexpected e) = some e

  abbrev pub or_error : Option A → Text → Expected A
  or_error none e = unexpected e
  or_error (some a) e = expected a

-- The wrapper of an error, from which an `Expected` is constructed.
pub record Unexpected : Type 0 where
  pub error : Text

unfoldable pub make_unexpected : Text → Unexpected
make_unexpected e = record { error = e }

module _ {ℓ} {A : Type ℓ} where
  unfoldable pub of_unexpected : Unexpected → Expected A
  of_unexpected u = unexpected u.error

  -- `operator*` and `operator->`
  unfoldable pub dereference : Expected A → Option A
  unfolding value_of
  dereference e = value_of e

  -- An accessor throws exactly if the other one does not, and a wrapped error has no value.
  pub value_or_error :
      (e : Expected A)
      → (is_some (dereference e) ≡ has_value e) × (is_some (error_of e) ≡ not (has_value e))
  unfolding has_value value_of error_of dereference
  value_or_error (expected a) = (refl, refl)
  value_or_error (unexpected s) = (refl, refl)

  pub of_unexpected-make_unexpected : (e : Text) → of_unexpected (make_unexpected e) ≡ unexpected e
  unfolding of_unexpected make_unexpected
  of_unexpected-make_unexpected e = refl

infixl 5 ◌>>=◌
abbrev pub ◌>>=◌ {ℓ κ} : {A : Type ℓ} {B : Type κ} → Expected A → (A → Expected B) → Expected B
expected a >>= f = f a
unexpected e >>= f = unexpected e

module _ {ℓ} {A : Type ℓ} where
  pub expected-injective : {a b : A} → expected a ≡ expected b → a ≡ b
  expected-injective e = cc

  pub unexpected≢expected : {a : A} {s : Text} → ¬ (unexpected s ≡ expected a)
  unexpected≢expected e = cc

-- Inversion of a bind that gives a value.
pub >>=-eq-expected {ℓ κ} :
    {A : Type ℓ} {B : Type κ} (m : Expected A) (f : A → Expected B) {b : B}
    → (m >>= f) ≡ expected b
    → (a : A) × (m ≡ expected a) × (f a ≡ expected b)
>>=-eq-expected (expected a) f h = (a, refl, h)
>>=-eq-expected (unexpected e) f h = absurd (unexpected≢expected h)
