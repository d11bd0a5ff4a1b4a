-- ===== src/Utils/Strings.antt =====
-- The constants of utils.hpp, `keysToLowerCase`, and the decimal text of `std::to_string`.
use unleash_cpp_sdk.Base.{
  Text, [], arith, codes, if◌then◌else◌, leb, length, ltb, map, negsuc, pos, refl, suc, zero, ℕ, ℤ,
  ◌%◌, ◌&&◌, ◌++◌, ◌+◌, ◌-◌, ◌/◌, ◌∷◌, ◌≡◌,
}

-- The version that the build passes in `UNLEASH_SDK_VERSION` is an argument.
unfoldable pub sdk_version : Text → Text
sdk_version version = codes "unleash-cpp-sdk:" ++ version

unfoldable pub agent_version : Text → Text
agent_version version = codes "unleash-cpp-sdk/" ++ version

abbrev pub default_header_name : Text
default_header_name = codes "authorization"

abbrev pub default_instance_id : Text
default_instance_id = codes "cppApplication"

-- `std::tolower` in the C locale.
unfoldable pub tolower : ℕ → ℕ
tolower c = if leb b'A' c && leb c b'Z' then c + 32 else c

unfoldable pub keys_to_lower_case : Text → Text
unfolding tolower
keys_to_lower_case s = map tolower s

tolower-tolower : (c : ℕ) → tolower (tolower c) ≡ tolower c
unfolding tolower
tolower-tolower c = ground arith

pub keys_to_lower_case_idem :
    (s : Text) → keys_to_lower_case (keys_to_lower_case s) ≡ keys_to_lower_case s
unfolding keys_to_lower_case
keys_to_lower_case_idem [] = refl
keys_to_lower_case_idem (c ∷ s) = cc (tolower-tolower c, keys_to_lower_case_idem s)

-- The fuel `n + 1` is enough, since each round divides by ten.
digits : ℕ → ℕ → Text
digits zero n = []
digits (suc f) n =
    let rest = digits f (n / 10) in (if ltb n 10 then [] else rest) ++ (b'0' + n % 10) ∷ []

-- `std::to_string` of a number and of an integer.
unfoldable pub to_string : ℕ → Text
unfolding digits
to_string n = digits (suc n) n

unfoldable pub int_to_string : ℤ → Text
unfolding to_string
int_to_string (pos n) = to_string n
int_to_string (negsuc n) = b'-' ∷ to_string (suc n)

-- `std::setw(n)` with the fill character 0.
unfoldable pub pad_zero : ℕ → Text → Text
pad_zero width s = zeros (width - length s) ++ s
  where
    zeros : ℕ → Text
    zeros zero = []
    zeros (suc n) = b'0' ∷ zeros n
