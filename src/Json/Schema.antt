-- ===== src/Json/Schema.antt =====
-- The type of the documents that the decoder reads: which values denote a payload, a variant, a toggle
-- and a response, as rules.
pub mod Variants
pub mod Exact
use unleash_cpp_sdk.Base.{
  Bool, List, Option, Text, [], codes, false, is_empty, none, some, true, ◌∷◌, ◌≡◌,
}
use unleash_cpp_sdk.Domain.Variant.{
  Payload, Toggle, Variant, disabled_factory, make_toggle, make_variant,
}
use unleash_cpp_sdk.Json.Library.{Library}

module _ (l : Library) where
  open l use {
    Json, find, is_object, is_array, is_string, is_boolean, get_string, get_bool, elements,
  }

  -- A value that is a string, or a Boolean; and the member of a key that is one.
  pub data StringOf (s : Text) : Option Json → Type 0 where
    string_of : {j : Json} → is_string j ≡ true → get_string j ≡ s → StringOf s (some j)

  pub data BoolOf (b : Bool) : Option Json → Type 0 where
    bool_of : {j : Json} → is_boolean j ≡ true → get_bool j ≡ b → BoolOf b (some j)

  abbrev pub HasString : Text → Text → Json → Type 0
  HasString k s j = StringOf s (find k j)

  abbrev pub HasBool : Text → Bool → Json → Type 0
  HasBool k b j = BoolOf b (find k j)

  -- A payload needs a type that is not empty, and a value.
  abbrev pub Filled : Text → Text → Json → Type 0
  Filled type value j =
      HasString (codes "type") type j × (is_empty type ≡ false) × HasString (codes "value") value j

  pub data PayloadOf : Option Json → Option Payload → Type 0 where
    no_payload : PayloadOf none none
    filled :
        {j : Json} {type value : Text}
        → is_object j ≡ true
        → Filled type value j
        → PayloadOf (some j) (some (record { type = type; value = value }))
    unfilled :
        {j : Json}
        → is_object j ≡ true
        → ((type value : Text) → ¬ (Filled type value j))
        → PayloadOf (some j) none

  -- A variant counts if it is enabled and its name is not empty.
  abbrev pub IsLive : Text → Json → Type 0
  IsLive name j =
      HasString (codes "name") name j × (is_empty name ≡ false) × HasBool (codes "enabled") true j

  pub data VariantOf : Option Json → Variant → Type 0 where
    no_variant : {v : Variant} → v ≡ disabled_factory → VariantOf none v
    live :
        {j : Json} {name : Text} {p : Option Payload} {v : Variant}
        → is_object j ≡ true
        → IsLive name j
        → PayloadOf (find (codes "payload") j) p
        → v ≡ make_variant name true p
        → VariantOf (some j) v
    not_live :
        {j : Json} {v : Variant}
        → is_object j ≡ true
        → ((name : Text) → ¬ (IsLive name j))
        → v ≡ disabled_factory
        → VariantOf (some j) v

  -- An impression setting that is missing is false.
  pub data ImpressionOf : Option Json → Bool → Type 0 where
    no_impression : ImpressionOf none false
    impression : {o : Option Json} {b : Bool} → BoolOf b o → ImpressionOf o b

  -- The variant of a toggle that is not enabled may be anything.
  pub data ToggleOf (j : Json) : Toggle → Type 0 where
    on :
        {name : Text} {i : Bool} {v : Variant} {t : Toggle}
        → is_object j ≡ true
        → HasString (codes "name") name j
        → HasBool (codes "enabled") true j
        → ImpressionOf (find (codes "impressionData") j) i
        → VariantOf (find (codes "variant") j) v
        → t ≡ make_toggle name true i v
        → ToggleOf j t
    off :
        {name : Text} {i : Bool} {t : Toggle}
        → is_object j ≡ true
        → HasString (codes "name") name j
        → HasBool (codes "enabled") false j
        → ImpressionOf (find (codes "impressionData") j) i
        → t ≡ make_toggle name false i disabled_factory
        → ToggleOf j t

  pub data EntriesOf : List Json → List Toggle → Type 0 where
    no_entry : EntriesOf [] []
    entry :
        {j : Json} {t : Toggle} {js : List Json} {ts : List Toggle}
        → ToggleOf j t
        → EntriesOf js ts
        → EntriesOf (j ∷ js) (t ∷ ts)

  -- A response has an array of entries; other members are free.
  pub data ResponseOf (root : Json) (ts : List Toggle) : Type 0 where
    response :
        {a : Json}
        → find (codes "toggles") root ≡ some a
        → is_array a ≡ true
        → EntriesOf (elements a) ts
        → ResponseOf root ts
