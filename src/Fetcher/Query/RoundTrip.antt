-- ===== src/Fetcher/Query/RoundTrip.antt =====
-- `buildContextQuery` against a reader of query strings.
use unleash_cpp_sdk.Fetcher.Query.Written.{Parameter}
use unleash_cpp_sdk.Base.{All, List, Text, [], false, if◌then◌else◌, map, ℕ, ◌==◌, ◌∷◌, ◌≡◌}
use unleash_cpp_sdk.Domain.Context.{Context}
use unleash_cpp_sdk.Fetcher.Query.Decoding.{IsByte, percent_decode}

onto_first : ℕ → List Text → List Text
onto_first c [] = (c ∷ []) ∷ []
onto_first c (s ∷ ss) = (c ∷ s) ∷ ss

-- The pieces of a text between the ampersands.
pieces : Text → List Text
unfolding onto_first
pieces [] = [] ∷ []
pieces (c ∷ s) = let rest = pieces s in if c == b'&' then [] ∷ rest else onto_first c rest

before_equals : Text → Text
before_equals [] = []
before_equals (c ∷ s) = let rest = before_equals s in if c == b'=' then [] else c ∷ rest

after_equals : Text → Text
after_equals [] = []
after_equals (c ∷ s) = if c == b'=' then s else after_equals s

read_piece : Text → Parameter
unfolding before_equals after_equals
read_piece s = (percent_decode (before_equals s), percent_decode (after_equals s))

-- The parameters of a query string, which is empty or starts with a question mark.
unfoldable pub read_query : Text → List Parameter
unfolding pieces read_piece
read_query [] = []
read_query (c ∷ s) = map read_piece (pieces s)

-- No character of the text is the given one.
abbrev IsFreeOf : ℕ → Text → Type 0
IsFreeOf d = All (λ c. (c == d) ≡ false)

-- The name and the value of a parameter are bytes.
abbrev pub HasBytes : Parameter → Type 0
HasBytes p = All IsByte p.0 × All IsByte p.1
