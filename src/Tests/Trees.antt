-- ===== src/Tests/Trees.antt =====
-- Test data: a JSON library of trees that knows one document.
use unleash_cpp_sdk.Base.{
  Bool, List, Option, Text, [], ap, codes, false, if◌then◌else◌, none, refl, some, text_eq, true, ℕ,
  ◌∷◌, ◌≡◌,
}
use unleash_cpp_sdk.Json.Library.{Laws, Library}

-- A JSON value; the elements of an array hang on one another.
pub data Tree : Type 0 where
  text : Text → Tree
  truth : Bool → Tree
  number : ℕ → Tree
  array_end empty_object null_value : Tree
  array_item : Tree → Tree → Tree
  member : Text → Tree → Tree → Tree

unfoldable pub find_member : Text → Tree → Option Tree
find_member j (member k v o) = if text_eq k j then some v else find_member j o
find_member j _ = none

unfoldable pub items : Tree → List Tree
items (array_item v rest) = v ∷ items rest
items _ = []

unfoldable pub array_of : List Tree → Tree
array_of [] = array_end
array_of (v ∷ vs) = array_item v (array_of vs)

unfoldable pub is_object_tree : Tree → Bool
is_object_tree (member k v o) = true
is_object_tree empty_object = true
is_object_tree _ = false

unfoldable pub is_array_tree : Tree → Bool
is_array_tree (array_item v rest) = true
is_array_tree array_end = true
is_array_tree _ = false

unfoldable pub is_text_tree : Tree → Bool
is_text_tree (text s) = true
is_text_tree _ = false

unfoldable pub is_truth_tree : Tree → Bool
is_truth_tree (truth b) = true
is_truth_tree _ = false

unfoldable pub text_of : Tree → Text
text_of (text s) = s
text_of _ = []

unfoldable pub truth_of : Tree → Bool
truth_of (truth b) = b
truth_of _ = false

-- A library that knows one document, with the value that it holds.
unfoldable pub trees : Tree → Library
unfolding find_member items array_of is_object_tree is_array_tree is_text_tree is_truth_tree text_of
    truth_of
trees document = record {
  Json = Tree;
  parse = λ s. if text_eq s (codes "document") then some document else none;
  is_utf8 = λ j. true;
  dump = λ j. codes "document";
  find = find_member;
  is_object = is_object_tree;
  is_array = is_array_tree;
  is_string = is_text_tree;
  is_boolean = is_truth_tree;
  get_string = text_of;
  get_bool = truth_of;
  elements = items;
  of_string = text;
  of_bool = truth;
  of_number = number;
  of_list = array_of;
  object = empty_object;
  null = null_value;
  set = member;
}

pub is_array-array_of : (xs : List Tree) → is_array_tree (array_of xs) ≡ true
unfolding is_array_tree array_of
is_array-array_of [] = refl
is_array-array_of (x ∷ xs) = refl

pub items-array_of : (xs : List Tree) → items (array_of xs) ≡ xs
unfolding items array_of
items-array_of [] = refl
items-array_of (x ∷ xs) = ap (λ l. x ∷ l) (items-array_of xs)

pub trees-Laws : (document : Tree) → Laws (trees document)
unfolding trees find_member is_object_tree is_text_tree is_truth_tree text_of truth_of
trees-Laws document = record {
  is_string-of_string = λ s. refl;
  get_string-of_string = λ s. refl;
  is_boolean-of_bool = λ b. refl;
  get_bool-of_bool = λ b. refl;
  is_array-of_list = is_array-array_of;
  elements-of_list = items-array_of;
  find-object = λ k. refl;
  find-null = λ k. refl;
  is_object-set = λ k v o c. refl;
  find-set = λ k j v o c. refl;
}
