-- ===== src/Base/Families.antt =====
-- Functions on the natural numbers, changed at one place.
use Prim.Native.Nat.{ℕ}
use mathlib.Core.Path.{◌≡◌, refl}
use mathlib.Core.Logic.{inl, inr}
use mathlib.Core.Bool.{false}
use unleash_cpp_sdk.Base.Tests.{==_iff, Bool-cases, if◌then◌else◌, ◌==◌}

module _ {ℓ} {A : Type ℓ} (f : ℕ → A) where
  unfoldable pub put_at : ℕ → A → ℕ → A
  put_at i a j = if i == j then a else f j

  pub put_at_self : (i : ℕ) (a : A) → put_at i a i ≡ a
  unfolding put_at
  put_at_self i a = rw ((==_iff i i).1 refl)

  pub put_at_other : (i j : ℕ) (a : A) → (i == j) ≡ false → put_at i a j ≡ f j
  unfolding put_at
  put_at_other i j a h = rw h

  -- An update with a value that the place may as well have had.
  pub put_at_same : (i j : ℕ) (a : A) → f j ≡ a → put_at i a j ≡ a
  unfolding put_at
  put_at_same i j a h = elim (Bool-cases (i == j)) [ inl e ↦ rw e | inr e ↦ rw (e, h) ]
