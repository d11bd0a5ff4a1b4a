-- ===== src/Base/Maps.antt =====
-- The two maps of the standard library, as association lists: `std::map`, kept in the order of its
-- keys, and `std::unordered_map`, in an order that no client may rely on.
use mathlib.Core.Path.{◌≡◌, refl}
use mathlib.Core.Option.{Option, none, some}
use mathlib.Core.List.{List, [], ◌∷◌}
use native.Mathlib.Omega.{arith}
use unleash_cpp_sdk.Base.Tests.{if◌then◌else◌, is_some}
use unleash_cpp_sdk.Base.Bytes.{Text, text_eq, text_lt, text_eq_iff}

abbrev pub Dict {ℓ} : Type ℓ → Type ℓ
Dict V = List (Text × V)

module _ {ℓ} {V : Type ℓ} where
  -- `find`; `none` is the end iterator.
  unfoldable pub lookup : Text → Dict V → Option V
  lookup k [] = none
  lookup k ((j, v) ∷ m) = if text_eq j k then some v else lookup k m

  -- `m[k] = v` of a `std::map`: a new key goes before the first key above it.
  unfoldable pub assign : Text → V → Dict V → Dict V
  assign k v [] = (k, v) ∷ []
  assign k v ((j, w) ∷ m) =
      if text_eq j k
      then (k, v) ∷ m
      else if text_lt k j
      then (k, v) ∷ (j, w) ∷ m
      else (j, w) ∷ assign k v m

  -- `insert` of an `std::unordered_map`: a key that is there keeps its value.
  unfoldable pub emplace : Text → V → Dict V → Dict V
  emplace k v [] = (k, v) ∷ []
  emplace k v ((j, w) ∷ m) = if text_eq j k then (j, w) ∷ m else (j, w) ∷ emplace k v m

  pub lookup-assign :
      (k j : Text) (v : V) (m : Dict V)
      → lookup j (assign k v m) ≡ (if text_eq k j then some v else lookup j m)
  unfolding lookup assign
  lookup-assign k j v [] = refl
  lookup-assign k j v ((i, w) ∷ m) =
      ground (arith, text_eq_iff k j, text_eq_iff i k, text_eq_iff i j, lookup-assign k j v m)

  pub lookup-emplace :
      (k j : Text) (v : V) (m : Dict V)
      → lookup j (emplace k v m)
        ≡ (if is_some (lookup j m) then lookup j m else if text_eq k j then some v else none)
  unfolding lookup emplace
  lookup-emplace k j v [] = refl
  lookup-emplace k j v ((i, w) ∷ m) =
      ground (arith, text_eq_iff k j, text_eq_iff i k, text_eq_iff i j, lookup-emplace k j v m)
