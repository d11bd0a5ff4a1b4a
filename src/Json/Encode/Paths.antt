-- ===== src/Json/Encode/Paths.antt =====
-- What a reader finds in values that are built by `j[key] = value`.
use unleash_cpp_sdk.Base.{
  Bool-cases, Dict, HasOnce, List, Option, Option-cases, Text, [], inl, inr, lookup, none, refl,
  some, subst, text_eq, text_eq_iff, ◌∙◌, ◌∷◌, ◌≡◌,
}
use unleash_cpp_sdk.Json.Library.{CanSet, Laws, Library, on_set}

-- The value under a key, or another where there is none.
unfoldable pub found : {V J : Type 0} → (V → J) → Option V → Option J → Option J
found f none o = o
found f (some v) o = some (f v)

module _ (l : Library) where
  open l use {Json, find, set}

  -- The value at the end of a path of keys.
  unfoldable pub at_path : Json → List Text → Option Json
  at_path j [] = some j
  at_path j (k ∷ ks) = elim (find k j) [ none ↦ none | some v ↦ at_path v ks ]

  pub at_path-cons :
      (k : Text) (j v : Json) (ks : List Text)
      → find k j ≡ some v
      → at_path j (k ∷ ks) ≡ at_path v ks
  unfolding at_path
  at_path-cons k j v ks e = rw (at_path, e)

  pub at_path-missing :
      (k : Text) (j : Json) (ks : List Text) → find k j ≡ none → at_path j (k ∷ ks) ≡ none
  unfolding at_path
  at_path-missing k j ks e = rw (at_path, e)

  pub at_path-single : (k : Text) (j : Json) → at_path j (k ∷ []) ≡ find k j
  unfolding at_path
  at_path-single k j = elim (Option-cases (find k j)) [
    | inl e ↦ rw (at_path, e)
    | inr (v, e) ↦ rw (at_path, e)
  ]

  -- `j[key] = value` for each entry of a map.
  unfoldable pub set_entries : {V : Type 0} → (V → Json) → Dict V → Json → Json
  set_entries f [] j = j
  set_entries f ((k, v) ∷ m) j = set_entries f m (set k (f v) j)

module _ (l : Library) (laws : Laws l) where
  open l use {Json, find, set}

  pub find-set_entries :
      {V : Type 0} (f : V → Json) (k : Text) (m : Dict V) (j : Json)
      → HasOnce m
      → CanSet l j
      → find k (set_entries l f m j) ≡ found f (lookup k m) (find k j)
  unfolding set_entries found lookup
  find-set_entries f k [] j s c = refl
  find-set_entries f k ((i, v) ∷ m) j s c =
      find-set_entries f k m (set i (f v) j) s.1 (on_set c) ∙ elim (Bool-cases (text_eq i k)) [
        | inl e ↦
            let gone : lookup k m ≡ none =
              subst (λ x. lookup x m ≡ none) ((text_eq_iff i k).0 e) s.0 in
            rw (laws.find-set i k (f v) j c, e, gone)
        | inr e ↦ rw (laws.find-set i k (f v) j c, e)
      ]
