-- ===== src/Json/Library.antt =====
-- What jsonCodec.cpp calls of nlohmann::json, and the documented behaviour that the round trip needs.
use unleash_cpp_sdk.Base.{
  Bool, List, Option, Text, if◌then◌else◌, none, some, text_eq, true, ℕ, ◌≡◌,
}

pub record Library : Type 1 where
  pub Json : Type 0
  -- `parse(text, nullptr, false)`; `none` is a discarded value.
  pub parse : Text → Option Json
  -- `dump()` throws `type_error.316` on a value with a string or a key that is not UTF-8; `dump` is
  -- the text that it returns otherwise.
  pub is_utf8 : Json → Bool
  pub dump : Json → Text
  -- `none` is `end()`, which is also the answer for a value that is no object.
  pub find : Text → Json → Option Json
  pub is_object : Json → Bool
  pub is_array : Json → Bool
  pub is_string : Json → Bool
  pub is_boolean : Json → Bool
  pub get_string : Json → Text
  pub get_bool : Json → Bool
  pub elements : Json → List Json
  pub of_string : Text → Json
  pub of_bool : Bool → Json
  pub of_number : ℕ → Json
  -- `json::array()` after a `push_back` of each element.
  pub of_list : List Json → Json
  -- `json::object()`, and the null value of `json j;`, which the first `j[key] = value` makes an
  -- object.
  pub object : Json
  pub null : Json
  pub set : Text → Json → Json → Json

-- The values that `operator[]` with a key accepts.
pub data CanSet (l : Library) : l.Json → Type 0 where
  on_object : CanSet l l.object
  on_null : CanSet l l.null
  on_set : {k : Text} {v o : l.Json} → CanSet l o → CanSet l (l.set k v o)

pub record Laws (l : Library) : Type 0 where
  pub is_string-of_string : (s : Text) → l.is_string (l.of_string s) ≡ true
  pub get_string-of_string : (s : Text) → l.get_string (l.of_string s) ≡ s
  pub is_boolean-of_bool : (b : Bool) → l.is_boolean (l.of_bool b) ≡ true
  pub get_bool-of_bool : (b : Bool) → l.get_bool (l.of_bool b) ≡ b
  pub is_array-of_list : (xs : List l.Json) → l.is_array (l.of_list xs) ≡ true
  pub elements-of_list : (xs : List l.Json) → l.elements (l.of_list xs) ≡ xs
  pub find-object : (k : Text) → l.find k l.object ≡ none
  pub find-null : (k : Text) → l.find k l.null ≡ none
  pub is_object-set : (k : Text) (v o : l.Json) → CanSet l o → l.is_object (l.set k v o) ≡ true
  pub find-set :
      (k j : Text) (v o : l.Json)
      → CanSet l o
      → l.find j (l.set k v o) ≡ (if text_eq k j then some v else l.find j o)
