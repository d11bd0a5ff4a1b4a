-- ===== src/Utils/Uuid.antt =====
-- `uuidv4Generator`. The numbers that `dist(gen)` draws are an argument, the n-th draw at n; the
-- distribution gives numbers from 0 to 15.
use Prim.Native.Nat.{bit_and, bit_or}
use unleash_cpp_sdk.Base.{
  Bool, Bool-cases, Text, [], arith, check_up, check_up_at, codes, false, get_or, if◌then◌else◌,
  inl, inr, leb, refl, true, ℕ, ◌&&◌, ◌+◌, ◌<◌, ◌==◌, ◌||◌, ◌∷◌, ◌≡◌,
}

abbrev hex_digits : Text
hex_digits = codes "0123456789abcdef"

-- The lambda of `std::transform`, with the number that a draw would give it; no draw below 16 reads
-- past the table.
unfoldable pub digit_for : ℕ → ℕ → ℕ
digit_for c drawn =
    if c == b'x'
    then get_or hex_digits drawn 0
    else if c == b'y'
    then get_or hex_digits (bit_or (bit_and drawn 3) 8) 0
    else c

-- Only x and y take a draw.
unfoldable pub advance : ℕ → ℕ → ℕ
advance c n = if c == b'x' then n + 1 else if c == b'y' then n + 1 else n

fill : (ℕ → ℕ) → ℕ → Text → Text
unfolding digit_for advance
fill draw n [] = []
fill draw n (c ∷ s) = digit_for c (draw n) ∷ fill draw (advance c n) s

abbrev pub uuid_template : Text
uuid_template = codes "xxxxxxxx-xxxx-4xxx-yxxx-xxxxxxxxxxxx"

unfoldable pub uuidv4_generator : (ℕ → ℕ) → Text
unfolding fill
uuidv4_generator draw = fill draw 0 uuid_template

unfoldable pub is_hex : ℕ → Bool
is_hex c = (leb b'0' c && leb c b'9') || (leb b'a' c && leb c b'f')

-- The variant digit of RFC 4122: its two high bits are 10.
unfoldable pub is_variant_digit : ℕ → Bool
is_variant_digit c = c == b'8' || (c == b'9' || (c == b'a' || c == b'b'))

-- A hexadecimal digit stands for x, a variant digit for y, and any other character for itself.
unfoldable pub stands_for : ℕ → ℕ → Bool
unfolding is_hex is_variant_digit
stands_for c d = if c == b'x' then is_hex d else if c == b'y' then is_variant_digit d else c == d

unfoldable pub follows : Text → Text → Bool
unfolding stands_for
follows [] [] = true
follows [] (d ∷ t) = false
follows (c ∷ s) [] = false
follows (c ∷ s) (d ∷ t) = stands_for c d && follows s t

is_hex-char_at : (d : ℕ) → d < 16 → is_hex (get_or hex_digits d 0) ≡ true
unfolding check_up is_hex
is_hex-char_at d h = check_up_at (λ x. is_hex (get_or hex_digits x 0)) d 16 h refl

is_variant_digit-char_at :
    (d : ℕ) → d < 16 → is_variant_digit (get_or hex_digits (bit_or (bit_and d 3) 8) 0) ≡ true
unfolding check_up is_variant_digit
is_variant_digit-char_at d h =
    check_up_at (λ x. is_variant_digit (get_or hex_digits (bit_or (bit_and x 3) 8) 0)) d 16 h refl

stands_for-digit_for : (c d : ℕ) → d < 16 → stands_for c (digit_for c d) ≡ true
unfolding digit_for stands_for
stands_for-digit_for c d h = elim (Bool-cases (c == b'x')) [
  | inl e ↦ rw e (is_hex-char_at d h)
  | inr e ↦ rw e (elim (Bool-cases (c == b'y')) [
    | inl f ↦ rw f (is_variant_digit-char_at d h)
    | inr f ↦ rw f (ground arith)
  ])
]

follows-cons :
    (c d : ℕ) (s t : Text)
    → stands_for c d ≡ true
    → follows s t ≡ true
    → follows (c ∷ s) (d ∷ t) ≡ true
unfolding follows
follows-cons c d s t e f = rw (e, f)

fill-cons :
    (draw : ℕ → ℕ) (n c : ℕ) (s : Text)
    → fill draw n (c ∷ s) ≡ digit_for c (draw n) ∷ fill draw (advance c n) s
unfolding fill
fill-cons draw n c s = refl

follows-fill :
    (draw : ℕ → ℕ) (n : ℕ) (s : Text) → ((i : ℕ) → draw i < 16) → follows s (fill draw n s) ≡ true
follows-fill draw n [] h = unfold follows fill in refl
follows-fill draw n (c ∷ s) h = rw (fill-cons draw n c s) (
    follows-cons c (digit_for c (draw n)) s (fill draw (advance c n) s)
      (stands_for-digit_for c (draw n) (h n)) (follows-fill draw (advance c n) s h))

-- If every draw is below 16, the generated text follows the template of a version 4 UUID: the
-- dashes and the version 4 in their places, a variant digit, and hexadecimal digits elsewhere.
pub uuidv4_generator-follows :
    (draw : ℕ → ℕ) → ((i : ℕ) → draw i < 16) → follows uuid_template (uuidv4_generator draw) ≡ true
unfolding uuidv4_generator
uuidv4_generator-follows draw h = follows-fill draw 0 uuid_template h
