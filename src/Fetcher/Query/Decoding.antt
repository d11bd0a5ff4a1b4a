-- ===== src/Fetcher/Query/Decoding.antt =====
-- `urlEncodeContext` against a decoder of percent-encoding.
use unleash_cpp_sdk.Base.{
  ==_iff, All, All-append, Bool, Bool-cases, Text, [], ap, append-nil, append_assoc, arith,
  check_up, check_up_at, false, if◌then◌else◌, inl, inr, leb, refl, sym, true, ℕ, ◌%◌, ◌*◌, ◌++◌,
  ◌+◌, ◌-◌, ◌/◌, ◌<◌, ◌==◌, ◌||◌, ◌∙◌, ◌∷◌, ◌≡◌,
}
use unleash_cpp_sdk.Fetcher.Query.{
  encode_byte, encode_onto, is_unreserved, upper_digit, url_encode_context,
}

-- The value of an upper-case hexadecimal digit.
hex_value : ℕ → ℕ
hex_value d = if leb d b'9' then d - b'0' else d - b'A' + 10

-- Where the decoder stands: at a character, behind a percent sign, or behind its first digit.
pub data Mode : Type 0 where
  plain first_digit : Mode
  second_digit : ℕ → Mode

read : Mode → Text → Text
unfolding hex_value
read plain [] = []
read plain (c ∷ s) =
    let escaped = read first_digit s in
    let copied = c ∷ read plain s in if c == b'%' then escaped else copied
read first_digit [] = []
read first_digit (d ∷ s) = read (second_digit (hex_value d)) s
read (second_digit h) [] = []
read (second_digit h) (d ∷ s) = (h * 16 + hex_value d) ∷ read plain s

unfoldable pub percent_decode : Text → Text
unfolding read
percent_decode s = read plain s

abbrev pub IsByte : ℕ → Type 0
IsByte c = c < 256

encode_onto-append : (s out : Text) → encode_onto s out ≡ out ++ encode_onto s []
unfolding encode_onto
encode_onto-append [] out = sym (append-nil out)
encode_onto-append (c ∷ s) out =
    encode_onto-append s (out ++ encode_byte c)
    ∙ (append_assoc out (encode_byte c) (encode_onto s [])
        ∙ ap (λ l. out ++ l) (sym (encode_onto-append s (encode_byte c))))

url_encode_context-cons :
    (c : ℕ) (s : Text) → url_encode_context (c ∷ s) ≡ encode_byte c ++ url_encode_context s
unfolding url_encode_context
url_encode_context-cons c s = unfold encode_onto in encode_onto-append s (encode_byte c)

hex_value-upper_digit : (d : ℕ) → d < 16 → hex_value (upper_digit d) ≡ d
hex_value-upper_digit d h =
    (==_iff _ d).0 (check_up_at (λ x. hex_value (upper_digit x) == x) d 16 h table)
  where
    table : check_up (λ x. hex_value (upper_digit x) == x) 16 ≡ true
    table = unfold check_up hex_value upper_digit in refl

is_unreserved-upper_digit : (d : ℕ) → d < 16 → is_unreserved (upper_digit d) ≡ true
is_unreserved-upper_digit d h = check_up_at (λ x. is_unreserved (upper_digit x)) d 16 h table
  where
    table : check_up (λ x. is_unreserved (upper_digit x)) 16 ≡ true
    table = unfold check_up is_unreserved upper_digit in refl

percent_is_reserved : (c : ℕ) → is_unreserved c ≡ true → (c == b'%') ≡ false
unfolding is_unreserved
percent_is_reserved c h = ground arith

read-escape :
    (d e : ℕ) (rest : Text)
    → read plain (b'%' ∷ d ∷ e ∷ rest) ≡ (hex_value d * 16 + hex_value e) ∷ read plain rest
unfolding read
read-escape d e rest = refl

read-plain :
    (c : ℕ) (rest : Text) → (c == b'%') ≡ false → read plain (c ∷ rest) ≡ c ∷ read plain rest
unfolding read
read-plain c rest h = rw h

read-encode_byte :
    (c : ℕ) (rest : Text) → IsByte c → read plain (encode_byte c ++ rest) ≡ c ∷ read plain rest
unfolding encode_byte
read-encode_byte c rest h = elim (Bool-cases (is_unreserved c)) [
  | inl e ↦ rw e (read-plain c rest (percent_is_reserved c e))
  | inr e ↦
      rw
        (
          e,
          read-escape (upper_digit (c / 16)) (upper_digit (c % 16)) rest,
          hex_value-upper_digit (c / 16) (omega arith),
          hex_value-upper_digit (c % 16) (omega arith),
        )
        (ap (λ n. n ∷ read plain rest) (omega arith))
]

-- Decoding an encoded text gives back its bytes.
pub percent_decode-url_encode_context :
    (s : Text) → All IsByte s → percent_decode (url_encode_context s) ≡ s
unfolding percent_decode
percent_decode-url_encode_context [] h = unfold url_encode_context in refl
percent_decode-url_encode_context (c ∷ s) h =
    rw (url_encode_context-cons c s, read-encode_byte c (url_encode_context s) h.0)
      (ap (λ l. c ∷ l) (percent_decode-url_encode_context s h.1))

-- A character that a URL's query takes literally, or the percent sign.
unfoldable pub is_query_safe : ℕ → Bool
is_query_safe c = is_unreserved c || c == b'%'

abbrev pub IsQuerySafe : ℕ → Type 0
IsQuerySafe c = is_query_safe c ≡ true

encode_byte-IsQuerySafe : (c : ℕ) → IsByte c → All IsQuerySafe (encode_byte c)
unfolding encode_byte is_query_safe
encode_byte-IsQuerySafe c h = elim (Bool-cases (is_unreserved c)) [
  | inl e ↦ rw e (rw e refl, tt)
  | inr e ↦ rw e (
    unfold is_unreserved in refl,
    (
      rw (is_unreserved-upper_digit (c / 16) (omega arith)),
      (rw (is_unreserved-upper_digit (c % 16) (omega arith)), tt),
    ),
  )
]

-- An encoded text holds only unreserved characters and percent signs, so none of the delimiters
-- of a query.
pub url_encode_context-IsQuerySafe :
    (s : Text) → All IsByte s → All IsQuerySafe (url_encode_context s)
url_encode_context-IsQuerySafe [] h = unfold url_encode_context in tt
url_encode_context-IsQuerySafe (c ∷ s) h = rw (url_encode_context-cons c s) (
    All-append IsQuerySafe (encode_byte c) (url_encode_context s) (encode_byte-IsQuerySafe c h.0)
      (url_encode_context-IsQuerySafe s h.1))
