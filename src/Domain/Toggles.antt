-- ===== src/Domain/Toggles.antt =====
-- toggleSet.hpp and toggleSet.cpp: the container of all current toggles.
pub mod View
use unleash_cpp_sdk.Base.{
  Bool, Dict, List, Option, Text, [], arith, emplace, false, if◌then◌else◌, is_empty, is_some,
  length, lookup, lookup-emplace, none, refl, some, text_eq, ℕ, ◌∙◌, ◌∷◌, ◌≡◌,
}
use unleash_cpp_sdk.Domain.Variant.{Toggle, Variant, disabled_factory}

pub record ToggleSet : Type 0 where
  pub toggles : Dict Toggle

abbrev pub empty_set : ToggleSet
empty_set = record { toggles = [] }

unfoldable pub insert_all : List Toggle → Dict Toggle → Dict Toggle
insert_all [] m = m
insert_all (t ∷ ts) m = insert_all ts (emplace t.name t m)

-- The constructors from a vector: of two toggles with one name the first is kept.
unfoldable pub from_list : List Toggle → ToggleSet
unfolding insert_all
from_list ts = record { toggles = insert_all ts [] }

unfoldable pub from_map : Dict Toggle → ToggleSet
from_map m = record { toggles = m }

unfoldable pub size : ToggleSet → ℕ
size s = length s.toggles

unfoldable pub contains : Text → ToggleSet → Bool
contains name s = is_some (lookup name s.toggles)

unfoldable pub find : Text → ToggleSet → Option Toggle
find name s = if is_empty s.toggles then none else lookup name s.toggles

is_enabled_of : Option Toggle → Bool
is_enabled_of none = false
is_enabled_of (some t) = t.enabled

unfoldable pub is_enabled : Text → ToggleSet → Bool
unfolding find is_enabled_of
is_enabled name s = is_enabled_of (find name s)

get_variant_of : Option Toggle → Variant
unfolding disabled_factory
get_variant_of none = disabled_factory
get_variant_of (some t) = t.variant

unfoldable pub get_variant : Text → ToggleSet → Variant
unfolding find get_variant_of
get_variant name s = get_variant_of (find name s)

impression_of : Option Toggle → Bool
impression_of none = false
impression_of (some t) = t.impression_data

unfoldable pub impression_data : Text → ToggleSet → Bool
unfolding find impression_of
impression_data name s = impression_of (find name s)

-- The first toggle of a list that has the name.
unfoldable pub first_named : Text → List Toggle → Option Toggle
first_named k [] = none
first_named k (t ∷ ts) = if text_eq t.name k then some t else first_named k ts

or_else {ℓ} : {A : Type ℓ} → Option A → Option A → Option A
or_else none o = o
or_else (some a) o = some a

pub find-lookup : (k : Text) (s : ToggleSet) → find k s ≡ lookup k s.toggles
unfolding find lookup
find-lookup k s = ground arith

lookup-insert_all :
    (k : Text) (ts : List Toggle) (m : Dict Toggle)
    → lookup k (insert_all ts m) ≡ or_else (lookup k m) (first_named k ts)
unfolding insert_all first_named or_else
lookup-insert_all k [] m = ground arith
lookup-insert_all k (t ∷ ts) m =
    ground (arith, lookup-insert_all k ts (emplace t.name t m), lookup-emplace t.name k t m)

-- The set built from a vector answers each look-up with the first toggle of that name, and
-- with nothing where no toggle of the vector has the name.
pub find-from_list : (k : Text) (ts : List Toggle) → find k (from_list ts) ≡ first_named k ts
unfolding from_list or_else first_named lookup
find-from_list k ts = rw (find-lookup k (from_list ts)) (lookup-insert_all k ts [] ∙ refl)

pub contains-find : (k : Text) (s : ToggleSet) → contains k s ≡ is_some (find k s)
unfolding contains
contains-find k s = rw (find-lookup k s)

pub is_enabled-missing : (k : Text) (s : ToggleSet) → contains k s ≡ false → is_enabled k s ≡ false
unfolding is_enabled contains
is_enabled-missing k s h = rw (find-lookup k s) (ground arith)

pub get_variant-missing :
    (k : Text) (s : ToggleSet) → contains k s ≡ false → get_variant k s ≡ disabled_factory
unfolding get_variant contains
get_variant-missing k s h = rw (find-lookup k s) (ground arith)
