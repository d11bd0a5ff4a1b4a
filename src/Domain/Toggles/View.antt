-- ===== src/Domain/Toggles/View.antt =====
-- What the clients of a `ToggleSet` can tell of it: its answers, and not the order of its hash table.
use native.Mathlib.Nat.{ℕ_set}
use mathlib.Core.Quot
use mathlib.Core.Quot.{Quot, Quot-set}
use unleash_cpp_sdk.Base.{Bool, Option, Text, ap, refl, ◌↔◌, ◌≡◌}
use unleash_cpp_sdk.Domain.Variant.{Toggle, Variant}
use unleash_cpp_sdk.Domain.Toggles.{
  ToggleSet, find, get_variant, get_variant_of, is_enabled, is_enabled_of,
}

-- The same toggle under each name.
abbrev pub SameToggles : ToggleSet → ToggleSet → Type 0
SameToggles s t = (k : Text) → find k s ≡ find k t

abbrev pub ToggleView : Type 0
ToggleView = Quot SameToggles

abbrev pub view : ToggleSet → ToggleView
view s = Quot.mk s

pub option_toggle_set : IsSet (Option Toggle)
option_toggle_set = hlevel ℕ_set

-- A look-up, and the answers that a set gives, as functions of the view.
unfoldable pub find_in : Text → ToggleView → Option Toggle
find_in k = Quot.lift option_toggle_set (find k) (λ s t h. h k)

unfoldable pub is_enabled_in : Text → ToggleView → Bool
unfolding find_in is_enabled_of
is_enabled_in k v = is_enabled_of (find_in k v)

unfoldable pub get_variant_in : Text → ToggleView → Variant
unfolding find_in get_variant_of
get_variant_in k v = get_variant_of (find_in k v)

-- Two sets have one view exactly if they answer each look-up alike.
pub view_iff : (s t : ToggleSet) → (view s ≡ view t) ↔ SameToggles s t
view_iff s t = (λ e k. unfold find_in in ap (find_in k) e, λ h. Quot.sound h)

-- The answers of a set are those of its view.
pub view-answers :
    (k : Text) (s : ToggleSet)
    → (is_enabled k s ≡ is_enabled_in k (view s)) × (get_variant k s ≡ get_variant_in k (view s))
unfolding is_enabled get_variant is_enabled_in get_variant_in
view-answers k s = (refl, refl)

-- Views with the same look-ups are equal.
pub view_ext : (u v : ToggleView) → ((k : Text) → find_in k u ≡ find_in k v) → u ≡ v
unfolding find_in
view_ext u v =
    Quot.ind {β = λ x. (v : ToggleView) → ((k : Text) → find_in k x ≡ find_in k v) → x ≡ v}
      (λ x. hlevel Quot-set)
      (λ s.
        Quot.ind {β = λ y. ((k : Text) → find_in k (view s) ≡ find_in k y) → view s ≡ y}
          (λ y. hlevel Quot-set) (λ t h. Quot.sound h))
      u v
