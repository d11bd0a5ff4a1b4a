-- ===== src/Fetcher/Query.antt =====
-- `urlEncodeContext` and `buildContextQuery` of toggleFetcher.cpp.
pub mod Decoding
pub mod Written
pub mod RoundTrip
use unleash_cpp_sdk.Base.{
  Bool, Dict, Option, Text, [], codes, get_or, if◌then◌else◌, is_empty, leb, none, some, ℕ, ◌%◌,
  ◌&&◌, ◌++◌, ◌/◌, ◌==◌, ◌||◌, ◌∷◌,
}
use unleash_cpp_sdk.Domain.Context.{Context}

abbrev pub upper_hex : Text
upper_hex = codes "0123456789ABCDEF"

unfoldable pub is_unreserved : ℕ → Bool
is_unreserved c =
    (leb b'a' c && leb c b'z')
    || ((leb b'A' c && leb c b'Z')
        || ((leb b'0' c && leb c b'9') || (c == b'-' || (c == b'_' || (c == b'.' || c == b'~')))))

-- `hex[i]`
unfoldable pub upper_digit : ℕ → ℕ
upper_digit i = get_or upper_hex i 0

-- `c >> 4` and `c & 0x0F` of an unsigned char.
unfoldable pub encode_byte : ℕ → Text
encode_byte c =
    if is_unreserved c then c ∷ [] else b'%' ∷ upper_digit (c / 16) ∷ upper_digit (c % 16) ∷ []

unfoldable pub encode_onto : Text → Text → Text
unfolding encode_byte is_unreserved upper_digit
encode_onto [] out = out
encode_onto (c ∷ s) out = encode_onto s (out ++ encode_byte c)

unfoldable pub url_encode_context : Text → Text
unfolding encode_onto
url_encode_context value = encode_onto value []

unfoldable pub add_parameter : Text → Text → Text → Text
add_parameter k v query =
    if is_empty v
    then query
    else query
      ++ ((if is_empty query then b'?' else b'&')
          ∷ (url_encode_context k ++ b'=' ∷ url_encode_context v))

add_optional : Text → Option Text → Text → Text
unfolding add_parameter
add_optional k none query = query
add_optional k (some v) query = add_parameter k v query

add_properties : Dict Text → Text → Text
unfolding add_parameter
add_properties [] query = query
add_properties ((k, v) ∷ m) query = add_properties m (
    if is_empty k || is_empty v
    then query
    else add_parameter (codes "properties[" ++ (k ++ codes "]")) v query)

unfoldable pub build_context_query : Context → Text
unfolding add_optional add_properties add_parameter
build_context_query ctx =
    let mc = ctx.mutable_context in
    let q₀ = add_parameter (codes "appName") ctx.app_name [] in
    let q₁ = add_parameter (codes "sessionId") ctx.session_id q₀ in
    let q₂ = add_optional (codes "environment") ctx.environment q₁ in
    let q₃ = add_optional (codes "userId") mc.user_id q₂ in
    let q₄ = add_optional (codes "remoteAddress") mc.remote_address q₃ in
    let q₅ = add_optional (codes "currentTime") mc.current_time q₄ in
    add_properties mc.properties q₅
