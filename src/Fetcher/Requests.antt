-- ===== src/Fetcher/Requests.antt =====
-- The headers that are sent: the connection's identity, the custom headers and the etag.
use unleash_cpp_sdk.Json.Encode.{encode_context_request_body}
use unleash_cpp_sdk.Base.{
  Bool-cases, Dict, List, Option, Option-cases, Text, [], ap, arith, assign, codes, eqb_ℤ, false,
  if◌then◌else◌, inl, inr, is_empty, leb_ℤ, lookup, lookup-assign, ltb_ℤ, none, pos, refl, some,
  subst, text_eq, text_eq_refl, ◌&&◌, ◌∙◌, ◌∷◌, ◌≡◌,
}
use unleash_cpp_sdk.Fetcher.{
  FetchResult, ToggleFetcher, add_custom_headers, fetch, fetched, keep_etag, make_fetcher, prepare,
  receive, receive_http, request_prepared,
}
use unleash_cpp_sdk.Json.Library.{Library}
use unleash_cpp_sdk.Json.Decode.{decode_client_features_response}
use unleash_cpp_sdk.Transport.Messages.{
  ComResponse, HttpRequest, HttpResponse, error_response, http_response, other_response,
}
use unleash_cpp_sdk.Config.{ClientConfig}
use unleash_cpp_sdk.Domain.Context.{Context}
use unleash_cpp_sdk.Domain.Toggles.{ToggleSet}
use unleash_cpp_sdk.Base.Expected.{Expected, expected, unexpected}
use unleash_cpp_sdk.Utils.Strings.{keys_to_lower_case}

-- The value that the custom headers give a header last, or what it had before; an empty name counts
-- for nothing, and names are compared in lower case.
unfoldable pub last_header : Text → Dict Text → Option Text → Option Text
last_header j [] before = before
last_header j ((k, v) ∷ m) before =
    last_header j m
      (if is_empty k then before else if text_eq (keys_to_lower_case k) j then some v else before)

lookup-add_one :
    (j k v : Text) (h : Dict Text)
    → lookup j (if is_empty k then h else assign (keys_to_lower_case k) v h) ≡ (
        if is_empty k
        then lookup j h
        else if text_eq (keys_to_lower_case k) j
        then some v
        else lookup j h)
lookup-add_one j k v h = ground (arith, lookup-assign (keys_to_lower_case k) j v h)

pub lookup-add_custom_headers :
    (j : Text) (m h : Dict Text) → lookup j (add_custom_headers m h) ≡ last_header j m (lookup j h)
unfolding add_custom_headers last_header
lookup-add_custom_headers j [] h = refl
lookup-add_custom_headers j ((k, v) ∷ m) h =
    lookup-add_custom_headers j m _ ∙ ap (last_header j m) (lookup-add_one j k v h)

-- Every request sends the etag that is kept, under its header.
abbrev pub SendsEtag : ToggleFetcher → Type 0
SendsEtag f =
    is_empty f.etag ≡ false → lookup (codes "if-none-match") f.http_request.headers ≡ some f.etag

module _ (l : Library) where
  keep_etag-SendsEtag :
      (o : Option Text) (f : ToggleFetcher) → SendsEtag f → SendsEtag (keep_etag l o f)
  unfolding keep_etag
  keep_etag-SendsEtag none f h = h
  keep_etag-SendsEtag (some tag) f h = elim (Bool-cases (is_empty tag)) [
    | inl e ↦ rw e h
    | inr e ↦ rw e (λ n.
        rw
          (lookup-assign (codes "if-none-match") (codes "if-none-match") tag f.http_request.headers)
          (rw (text_eq_refl (codes "if-none-match"))))
  ]

  fetched-SendsEtag :
      (resp : HttpResponse) (e : Expected ToggleSet) (f : ToggleFetcher)
      → SendsEtag f
      → SendsEtag (fetched l resp e f).0
  fetched-SendsEtag resp (unexpected s) f h = unfold fetched in h
  fetched-SendsEtag resp (expected s) f h =
      unfold fetched in keep_etag-SendsEtag (lookup (codes "etag") resp.headers) f h

  receive_http-SendsEtag :
      (resp : HttpResponse) (f : ToggleFetcher) → SendsEtag f → SendsEtag (receive_http l resp f).0
  unfolding receive_http
  receive_http-SendsEtag resp f h = elim (Bool-cases (eqb_ℤ resp.status (pos 0))) [
    | inl a ↦ rw a h
    | inr a ↦ rw a (elim (Bool-cases (eqb_ℤ resp.status (pos 304))) [
      | inl b ↦ rw b h
      | inr b ↦
          rw b (elim (Bool-cases (leb_ℤ (pos 200) resp.status && ltb_ℤ resp.status (pos 300))) [
            | inl d ↦
                rw d (fetched-SendsEtag resp (decode_client_features_response l resp.body) f h)
            | inr d ↦ rw d h
          ])
    ])
  ]

  receive-SendsEtag :
      (o : Option ComResponse) (f : ToggleFetcher) → SendsEtag f → SendsEtag (receive l o f).0
  receive-SendsEtag none f h = unfold receive in h
  receive-SendsEtag (some (error_response code message)) f h = unfold receive in h
  receive-SendsEtag (some other_response) f h = unfold receive in h
  receive-SendsEtag (some (http_response resp)) f h =
      unfold receive in receive_http-SendsEtag resp f h

  abbrev AllSend : Option ToggleFetcher → Type 0
  AllSend none = Unit {0}
  AllSend (some f) = SendsEtag f

  prepare-SendsEtag : (ctx : Context) (f : ToggleFetcher) → SendsEtag f → AllSend (prepare l ctx f)
  unfolding prepare
  prepare-SendsEtag ctx f h = elim (Bool-cases f.http_request.use_post_requests) [
    | inl e ↦ rw e (elim (Option-cases (encode_context_request_body l ctx)) [
      | inl n ↦ rw n tt
      | inr (body, n) ↦ rw n h
    ])
    | inr e ↦ rw e h
  ]

  -- The fetcher behind a fetch; an exception leaves it as it was.
  unfoldable left_behind : ToggleFetcher → Option (ToggleFetcher × FetchResult) → ToggleFetcher
  left_behind f none = f
  left_behind f (some (f', r)) = f'

  fetch-SendsEtag :
      (client : HttpRequest → Option ComResponse) (ctx : Context) (f : ToggleFetcher)
      → SendsEtag f
      → SendsEtag (left_behind f (fetch l client ctx f))
  fetch-SendsEtag client ctx f h = elim (Option-cases (prepare l ctx f)) [
    | inl e ↦ unfold fetch in rw e (unfold request_prepared left_behind in h)
    | inr (f', e) ↦
        unfold fetch in
        rw e (
          unfold request_prepared left_behind in
          receive-SendsEtag (client f'.http_request) f'
            (subst AllSend e (prepare-SendsEtag ctx f h)))
  ]

  -- Fetches one after the other, each with its context and its HTTP client.
  unfoldable pub fetch_all :
      List (Context × (HttpRequest → Option ComResponse)) → ToggleFetcher → ToggleFetcher
  unfolding left_behind
  fetch_all [] f = f
  fetch_all ((ctx, client) ∷ rest) f = fetch_all rest (left_behind f (fetch l client ctx f))

  fetch_all-keeps :
      (fs : List (Context × (HttpRequest → Option ComResponse))) (f : ToggleFetcher)
      → SendsEtag f
      → SendsEtag (fetch_all fs f)
  unfolding fetch_all
  fetch_all-keeps [] f h = h
  fetch_all-keeps ((ctx, client) ∷ rest) f h =
      fetch_all-keeps rest (left_behind f (fetch l client ctx f)) (fetch-SendsEtag client ctx f h)

module _ {W : Type 0} (version : Text) (c : ClientConfig W) where
  -- After any sequence of fetches by a new fetcher, whatever the HTTP client answers, the request that
  -- is kept carries the etag that is kept under `if-none-match`, if that etag is not empty.
  pub fetch_all-etag :
      (l : Library) (fs : List (Context × (HttpRequest → Option ComResponse)))
      → is_empty (fetch_all l fs (make_fetcher version c)).etag ≡ false
      → lookup
          (codes "if-none-match")
          (fetch_all l fs (make_fetcher version c)).http_request.headers
        ≡ some (fetch_all l fs (make_fetcher version c)).etag
  fetch_all-etag l fs =
      fetch_all-keeps l fs (make_fetcher version c) (λ e. absurd (unfold make_fetcher in cc))
