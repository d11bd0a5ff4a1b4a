-- ===== src/Domain/Context/Properties.antt =====
-- What holds of a context's custom properties and optional fields, whatever setters are called.
use unleash_cpp_sdk.Base.{
  Bool-cases, Dict, HasOnce, List, Option, Text, [], ap, arith, false, if◌then◌else◌, inl, inr,
  is_empty, lookup, none, refl, some, sym, text_eq, text_eq_iff, ◌∙◌, ◌∷◌, ◌≡◌,
}
use unleash_cpp_sdk.Domain.Context.{
  MutableContext, Setting, apply_setting, current_time, empty_mutable, is_reserved_context_key,
  property, remote_address, set_current_time, set_property, set_remote_address, set_user_id,
  store_property, user_id,
}

-- A key that may name a custom property.
abbrev pub IsCustom : Text → Type 0
IsCustom k = (is_empty k ≡ false) × (is_reserved_context_key k ≡ false)

abbrev NotEmpty : Option Text → Type 0
NotEmpty none = Unit {0}
NotEmpty (some s) = is_empty s ≡ false

-- The keys are custom and stand once each.
abbrev pub AreProperties : Dict Text → Type 0
AreProperties [] = Unit {0}
AreProperties ((k, v) ∷ m) = IsCustom k × (lookup k m ≡ none) × AreProperties m

pub record IsValid (c : MutableContext) : Type 0 where
  pub properties : AreProperties c.properties
  pub user_id : NotEmpty c.user_id
  pub remote_address : NotEmpty c.remote_address

pub lookup-store_property :
    (k j v : Text) (m : Dict Text)
    → lookup j (store_property k v m) ≡ (if text_eq k j then some v else lookup j m)
unfolding lookup store_property
lookup-store_property k j v [] = refl
lookup-store_property k j v ((i, w) ∷ m) =
    ground (arith, text_eq_iff k j, text_eq_iff i k, text_eq_iff i j, lookup-store_property k j v m)

store_property-AreProperties :
    (k v : Text) (m : Dict Text)
    → IsCustom k
    → AreProperties m
    → AreProperties (store_property k v m)
unfolding store_property lookup
store_property-AreProperties k v [] h a = (h, refl, tt)
store_property-AreProperties k v ((j, w) ∷ m) h a = ground (
  arith,
  store_property-AreProperties k v m h a.2,
  lookup-store_property k j v m,
  text_eq_iff j k,
  text_eq_iff k j,
)

set_property-IsValid : (k v : Text) (c : MutableContext) → IsValid c → IsValid (set_property k v c)
unfolding set_property
set_property-IsValid k v c h = elim (Bool-cases (is_empty k)) [
  | inl e ↦ rw e h
  | inr e ↦ rw e (elim (Bool-cases (is_reserved_context_key k)) [
    | inl r ↦ rw r h
    | inr r ↦ rw r (record {
      properties = store_property-AreProperties k v c.properties (e, r) h.properties;
      user_id = h.user_id;
      remote_address = h.remote_address;
    })
  ])
]

-- Every setter keeps the properties custom and distinct, and the optional fields non-empty.
pub apply_setting-IsValid :
    (s : Setting) (c : MutableContext) → IsValid c → IsValid (apply_setting s c)
unfolding apply_setting set_user_id set_remote_address set_current_time
apply_setting-IsValid (user_id s) c h = ground arith
apply_setting-IsValid (remote_address s) c h = ground arith
apply_setting-IsValid (current_time now) c h = ground arith
apply_setting-IsValid (property k v) c h = set_property-IsValid k v c h

unfoldable pub apply_all : List Setting → MutableContext → MutableContext
apply_all [] c = c
apply_all (s ∷ ss) c = apply_all ss (apply_setting s c)

apply_all-keeps : (ss : List Setting) (c : MutableContext) → IsValid c → IsValid (apply_all ss c)
unfolding apply_all
apply_all-keeps [] c h = h
apply_all-keeps (s ∷ ss) c h = apply_all-keeps ss _ (apply_setting-IsValid s c h)

-- After any sequence of setters on a fresh context, no custom property has an empty or a reserved
-- key or a key twice, and neither the user id nor the remote address is the empty text.
pub apply_all-IsValid : (ss : List Setting) → IsValid (apply_all ss empty_mutable)
apply_all-IsValid ss =
    apply_all-keeps ss empty_mutable (record { properties = tt; user_id = tt; remote_address = tt })

-- The value that a sequence of setters gives to a property last, or what it had before.
unfoldable pub last_value : Text → List Setting → Option Text → Option Text
last_value k [] before = before
last_value k (property j v ∷ ss) before = last_value k ss (if text_eq j k then some v else before)
last_value k (_ ∷ ss) before = last_value k ss before

apply_setting-lookup :
    (k : Text) (s : Setting) (c : MutableContext)
    → IsCustom k
    → lookup k (apply_setting s c).properties ≡ last_value k (s ∷ []) (lookup k c.properties)
unfolding apply_setting set_user_id set_remote_address set_current_time set_property last_value
apply_setting-lookup k (user_id s) c h = refl
apply_setting-lookup k (remote_address s) c h = refl
apply_setting-lookup k (current_time now) c h = refl
apply_setting-lookup k (property j v) c h =
    ground (arith, lookup-store_property j k v c.properties, text_eq_iff j k)

last_value-cons :
    (k : Text) (s : Setting) (ss : List Setting) (o : Option Text)
    → last_value k (s ∷ ss) o ≡ last_value k ss (last_value k (s ∷ []) o)
unfolding last_value
last_value-cons k (property j v) ss o = refl
last_value-cons k (user_id s) ss o = refl
last_value-cons k (remote_address s) ss o = refl
last_value-cons k (current_time s) ss o = refl

-- For a key that is neither empty nor reserved, any sequence of setters leaves the value that its
-- last `setProperty` of that key gave, and leaves the value alone where there is none.
pub lookup-apply_all :
    (k : Text) (ss : List Setting) (c : MutableContext)
    → IsCustom k
    → lookup k (apply_all ss c).properties ≡ last_value k ss (lookup k c.properties)
unfolding apply_all
lookup-apply_all k [] c h = unfold last_value in refl
lookup-apply_all k (s ∷ ss) c h =
    lookup-apply_all k ss (apply_setting s c) h
    ∙ (ap (last_value k ss) (apply_setting-lookup k s c h)
        ∙ sym (last_value-cons k s ss (lookup k c.properties)))

pub AreProperties-HasOnce : (m : Dict Text) → AreProperties m → HasOnce m
AreProperties-HasOnce [] a = tt
AreProperties-HasOnce ((k, v) ∷ m) a = (a.1, AreProperties-HasOnce m a.2)
