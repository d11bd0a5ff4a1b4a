-- ===== src/Base/Sorted.antt =====
-- The order of the keys of a `std::map`, and what it gives for look-ups.
use mathlib.Core.Path.{◌≡◌, refl, subst}
use mathlib.Core.Logic.{inl, inr}
use mathlib.Core.Option.{none}
use mathlib.Core.Bool.{true, false}
use mathlib.Core.List.{[], ◌∷◌}
use native.Mathlib.Omega.{arith}
use unleash_cpp_sdk.Base.Tests.{Bool-cases}
use unleash_cpp_sdk.Base.Bytes.{Text, text_eq, text_eq_iff, text_lt}
use unleash_cpp_sdk.Base.Maps.{Dict, assign, lookup}

text_lt_irrefl : (s : Text) → text_lt s s ≡ false
unfolding text_lt
text_lt_irrefl [] = refl
text_lt_irrefl (c ∷ s) = ground (arith, text_lt_irrefl s)

text_lt_trans : (s t u : Text) → text_lt s t ≡ true → text_lt t u ≡ true → text_lt s u ≡ true
unfolding text_lt
text_lt_trans s t [] h k = k
text_lt_trans [] t (e ∷ u) h k = refl
text_lt_trans (c ∷ s) [] (e ∷ u) h k = absurd (ground arith)
text_lt_trans (c ∷ s) (d ∷ t) (e ∷ u) h k = ground (arith, text_lt_trans s t u)

text_lt_total : (s t : Text) → text_eq s t ≡ false → text_lt s t ≡ false → text_lt t s ≡ true
unfolding text_lt text_eq
text_lt_total [] [] h k = absurd (ground arith)
text_lt_total [] (d ∷ t) h k = absurd (ground arith)
text_lt_total (c ∷ s) [] h k = refl
text_lt_total (c ∷ s) (d ∷ t) h k = ground (arith, text_lt_total s t)

module _ {ℓ} {V : Type ℓ} where
  -- The first key is above the given one.
  abbrev Above : Text → Dict V → Type 0
  Above k [] = Unit {0}
  Above k ((j, w) ∷ m) = text_lt k j ≡ true

  -- The keys ascend.
  abbrev pub IsSorted : Dict V → Type 0
  IsSorted [] = Unit {0}
  IsSorted ((k, v) ∷ m) = Above k m × IsSorted m

  Above-below : (k j : Text) (m : Dict V) → text_lt k j ≡ true → Above j m → Above k m
  Above-below k j [] h a = tt
  Above-below k j ((i, w) ∷ m) h a = text_lt_trans k j i h a

  pub lookup-Above : (k : Text) (m : Dict V) → Above k m → IsSorted m → lookup k m ≡ none
  unfolding lookup
  lookup-Above k [] a s = refl
  lookup-Above k ((j, w) ∷ m) a s = elim (Bool-cases (text_eq j k)) [
    | inl e ↦ absurd (ground (arith, text_eq_iff j k, text_lt_irrefl k))
    | inr e ↦ rw e (lookup-Above k m (Above-below k j m a s.0) s.1)
  ]

  -- Each key stands once.
  abbrev pub HasOnce : Dict V → Type ℓ
  HasOnce [] = Unit {ℓ}
  HasOnce ((k, v) ∷ m) = (lookup k m ≡ none) × HasOnce m

  pub IsSorted-HasOnce : (m : Dict V) → IsSorted m → HasOnce m
  IsSorted-HasOnce [] s = tt
  IsSorted-HasOnce ((k, v) ∷ m) s = (lookup-Above k m s.0 s.1, IsSorted-HasOnce m s.1)

  Above-assign :
      (i k : Text) (v : V) (m : Dict V) → text_lt i k ≡ true → Above i m → Above i (assign k v m)
  unfolding assign
  Above-assign i k v [] h a = h
  Above-assign i k v ((j, w) ∷ m) h a = elim (Bool-cases (text_eq j k)) [
    | inl e ↦ rw e h
    | inr e ↦ rw e (elim (Bool-cases (text_lt k j)) [ inl f ↦ rw f h | inr f ↦ rw f a ])
  ]

  pub assign-IsSorted : (k : Text) (v : V) (m : Dict V) → IsSorted m → IsSorted (assign k v m)
  unfolding assign
  assign-IsSorted k v [] s = (tt, tt)
  assign-IsSorted k v ((j, w) ∷ m) s = elim (Bool-cases (text_eq j k)) [
    | inl e ↦ rw e (subst (λ i. Above i m) ((text_eq_iff j k).0 e) s.0, s.1)
    | inr e ↦ rw e (elim (Bool-cases (text_lt k j)) [
      | inl f ↦ rw f (f, s)
      | inr f ↦ rw f (
        Above-assign j k v m
            (text_lt_total k j (ground (arith, text_eq_iff j k, text_eq_iff k j)) f) s.0,
        assign-IsSorted k v m s.1,
      )
    ])
  ]
