-- ===== src/Transport/Headers.antt =====
-- `trimString`, `writeCb` and `headerCb` of httpClient.cpp, with the members of `std::string` that
-- they call; `npos` is `none`.
use unleash_cpp_sdk.Base.{
  Bool, Dict, Option, Text, [], assign, false, if◌then◌else◌, is_empty, none, not, some, suc, zero,
  ℕ, ◌&&◌, ◌++◌, ◌+◌, ◌-◌, ◌==◌, ◌||◌, ◌∷◌,
}
pub mod Trim
use unleash_cpp_sdk.Utils.Strings.{keys_to_lower_case}

unfoldable pub mem : ℕ → Text → Bool
mem c [] = false
mem c (d ∷ s) = c == d || mem c s

unfoldable pub shift : Option ℕ → Option ℕ
shift none = none
shift (some i) = some (i + 1)

unfoldable pub find_first_not_of : Text → Text → Option ℕ
unfolding mem shift
find_first_not_of ws [] = none
find_first_not_of ws (c ∷ s) = if mem c ws then shift (find_first_not_of ws s) else some 0

unfoldable pub find_last_not_of : Text → Text → Option ℕ
unfolding mem
find_last_not_of ws [] = none
find_last_not_of ws (c ∷ s) = elim (find_last_not_of ws s) [
  | some i ↦ some (i + 1)
  | none ↦ if mem c ws then none else some 0
]

unfoldable pub find_byte : ℕ → Text → Option ℕ
unfolding shift
find_byte b [] = none
find_byte b (c ∷ s) = if c == b then some 0 else shift (find_byte b s)

abbrev pub take : ℕ → Text → Text
take zero s = []
take (suc n) [] = []
take (suc n) (c ∷ s) = c ∷ take n s

abbrev pub drop : ℕ → Text → Text
drop zero s = s
drop (suc n) [] = []
drop (suc n) (c ∷ s) = drop n s

unfoldable pub substr : ℕ → ℕ → Text → Text
substr from count s = take count (drop from s)

-- The second index is there whenever the first is; the code does not test it.
unfoldable pub trim_string : Text → Text → Text
unfolding find_first_not_of find_last_not_of substr
trim_string s ws = elim (find_first_not_of ws s) [
  | none ↦ []
  | some first ↦ elim (find_last_not_of ws s) [
    | none ↦ drop first s
    | some last ↦ substr first (last - first + 1) s
  ]
]

abbrev pub white_space : Text
white_space = b' ' ∷ 9 ∷ 13 ∷ 10 ∷ []

-- What `writeCb` does with a chunk: appends the whole of it.
unfoldable pub write_cb : Text → Text → Text
write_cb chunk body = body ++ chunk

unfoldable pub store_header : Text → Text → Dict Text → Dict Text
store_header key val headers =
    if not (is_empty key) && not (is_empty val) then assign key val headers else headers

unfoldable pub header_cb : Text → Dict Text → Dict Text
unfolding find_byte substr trim_string keys_to_lower_case store_header
header_cb line headers = elim (find_byte b':' line) [
  | none ↦ headers
  | some at ↦
      store_header (keys_to_lower_case (take at line))
        (trim_string (drop (at + 1) line) white_space) headers
]
