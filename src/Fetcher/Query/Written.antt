-- ===== src/Fetcher/Query/Written.antt =====
-- `buildContextQuery` writes the parameters of the context one behind the other.
use unleash_cpp_sdk.Base.{
  Dict, List, Option, Text, [], ap, append-nil, append_assoc, codes, if◌then◌else◌, is_empty, none,
  refl, some, sym, ◌++◌, ◌||◌, ◌∙◌, ◌∷◌, ◌≡◌,
}
use unleash_cpp_sdk.Domain.Context.{Context}
use unleash_cpp_sdk.Fetcher.Query.{
  add_optional, add_parameter, add_properties, build_context_query, url_encode_context,
}

abbrev pub Parameter : Type 0
Parameter = Text × Text

-- The parameter with the name and value, which is left out if the value is empty.
unfoldable pub parameter : Text → Text → List Parameter
parameter k v = if is_empty v then [] else (k, v) ∷ []

unfoldable pub optional_parameter : Text → Option Text → List Parameter
unfolding parameter
optional_parameter k none = []
optional_parameter k (some v) = parameter k v

-- A property whose key or value is empty is left out.
unfoldable pub property_parameters : Dict Text → List Parameter
property_parameters [] = []
property_parameters ((k, v) ∷ m) =
    (if is_empty k || is_empty v then [] else (codes "properties[" ++ (k ++ codes "]"), v) ∷ [])
    ++ property_parameters m

-- What a context says, in the order of the query.
unfoldable pub parameters : Context → List Parameter
unfolding parameter optional_parameter property_parameters
parameters ctx =
    let mc = ctx.mutable_context in
    parameter (codes "appName") ctx.app_name
    ++ (parameter (codes "sessionId") ctx.session_id
        ++ (optional_parameter (codes "environment") ctx.environment
            ++ (optional_parameter (codes "userId") mc.user_id
                ++ (optional_parameter (codes "remoteAddress") mc.remote_address
                    ++ (optional_parameter (codes "currentTime") mc.current_time
                        ++ property_parameters mc.properties)))))

-- The text of a parameter, of those behind the first, and of the whole query.
unfoldable pub written : Parameter → Text
written (k, v) = url_encode_context k ++ b'=' ∷ url_encode_context v

unfoldable pub written_rest : List Parameter → Text
unfolding written
written_rest [] = []
written_rest (p ∷ ps) = b'&' ∷ (written p ++ written_rest ps)

unfoldable pub written_query : List Parameter → Text
unfolding written_rest
written_query [] = []
written_query (p ∷ ps) = b'?' ∷ (written p ++ written_rest ps)

pub written_rest-append :
    (ps qs : List Parameter) → written_rest (ps ++ qs) ≡ written_rest ps ++ written_rest qs
unfolding written_rest
written_rest-append [] qs = refl
written_rest-append (p ∷ ps) qs =
    ap (λ s. b'&' ∷ s)
      (rw (written_rest-append ps qs)
        (sym (append_assoc (written p) (written_rest ps) (written_rest qs))))

add_parameter-written :
    (k v : Text) (ps : List Parameter)
    → add_parameter k v (written_query ps) ≡ written_query (ps ++ parameter k v)
unfolding add_parameter parameter written_query written_rest written
add_parameter-written k [] ps = rw (append-nil ps)
add_parameter-written k (d ∷ v) [] =
    ap (λ s. b'?' ∷ s)
      (sym (append-nil (url_encode_context k ++ b'=' ∷ url_encode_context (d ∷ v))))
add_parameter-written k (d ∷ v) (p ∷ ps) =
    let w = url_encode_context k ++ b'=' ∷ url_encode_context (d ∷ v) in
    ap (λ s. b'?' ∷ s)
      (rw (written_rest-append ps ((k, d ∷ v) ∷ []), written_rest, append-nil w)
        (append_assoc (written p) (written_rest ps) (b'&' ∷ w)))

add_optional-written :
    (k : Text) (o : Option Text) (ps : List Parameter)
    → add_optional k o (written_query ps) ≡ written_query (ps ++ optional_parameter k o)
unfolding add_optional optional_parameter
add_optional-written k none ps = rw (append-nil ps)
add_optional-written k (some v) ps = add_parameter-written k v ps

abbrev property_name : Text → Text
property_name k = codes "properties[" ++ (k ++ codes "]")

abbrev one_property : Text → Text → List Parameter
one_property k v = if is_empty k || is_empty v then [] else (property_name k, v) ∷ []

add_property-written :
    (k v : Text) (ps : List Parameter)
    → (if is_empty k || is_empty v
        then written_query ps
        else add_parameter (property_name k) v (written_query ps))
      ≡ written_query (ps ++ one_property k v)
unfolding parameter
add_property-written [] v ps = rw (append-nil ps)
add_property-written (c ∷ k) [] ps = rw (append-nil ps)
add_property-written (c ∷ k) (d ∷ v) ps = add_parameter-written (property_name (c ∷ k)) (d ∷ v) ps

add_properties-written :
    (m : Dict Text) (ps : List Parameter)
    → add_properties m (written_query ps) ≡ written_query (ps ++ property_parameters m)
unfolding add_properties property_parameters
add_properties-written [] ps = rw (append-nil ps)
add_properties-written ((k, v) ∷ m) ps = rw (add_property-written k v ps) (
    add_properties-written m (ps ++ one_property k v)
    ∙ ap written_query (append_assoc ps (one_property k v) (property_parameters m)))

pub build_context_query-written :
    (ctx : Context) → build_context_query ctx ≡ written_query (parameters ctx)
unfolding build_context_query parameters
build_context_query-written ctx =
    let mc = ctx.mutable_context in
    let p₀ = parameter (codes "appName") ctx.app_name in
    let p₁ = parameter (codes "sessionId") ctx.session_id in
    let p₂ = optional_parameter (codes "environment") ctx.environment in
    let p₃ = optional_parameter (codes "userId") mc.user_id in
    let p₄ = optional_parameter (codes "remoteAddress") mc.remote_address in
    let p₅ = optional_parameter (codes "currentTime") mc.current_time in
    let start : add_parameter (codes "appName") ctx.app_name [] ≡ written_query p₀ =
      unfold written_query in add_parameter-written (codes "appName") ctx.app_name [] in
    rw
      (
        start,
        add_parameter-written (codes "sessionId") ctx.session_id p₀,
        add_optional-written (codes "environment") ctx.environment (p₀ ++ p₁),
        add_optional-written (codes "userId") mc.user_id ((p₀ ++ p₁) ++ p₂),
        add_optional-written (codes "remoteAddress") mc.remote_address (((p₀ ++ p₁) ++ p₂) ++ p₃),
        add_optional-written (codes "currentTime") mc.current_time
            ((((p₀ ++ p₁) ++ p₂) ++ p₃) ++ p₄),
        add_properties-written mc.properties (((((p₀ ++ p₁) ++ p₂) ++ p₃) ++ p₄) ++ p₅),
      )
      (ap written_query (simp (append_assoc)))
