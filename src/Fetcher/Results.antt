-- ===== src/Fetcher/Results.antt =====
-- What `fetch` makes of each response.
use unleash_cpp_sdk.Json.Encode.{encode_context_request_body}
use unleash_cpp_sdk.Base.{
  Bool, Bool-cases, Option, Option-cases, ap, arith, eqb_ℤ, false, inl, inr, is_some, leb_ℤ, ltb_ℤ,
  negsuc, none, not, pos, refl, some, sym, to_int32, true, ℤ, ◌&&◌, ◌||◌, ◌∙◌, ◌≡◌, ◌⊎◌,
}
use unleash_cpp_sdk.Base.Expected.{Expected, expected, unexpected}
use unleash_cpp_sdk.Domain.Toggles.{ToggleSet}
use unleash_cpp_sdk.Domain.Context.{Context}
use unleash_cpp_sdk.Fetcher.{
  FetchResult, ToggleFetcher, fetch, fetched, prepare, receive, receive_http, request_prepared,
}
use unleash_cpp_sdk.Json.Library.{Library}
use unleash_cpp_sdk.Transport.Messages.{
  ComResponse, HttpRequest, HttpResponse, error_response, http_response, other_response,
}

abbrev pub is_success : ℤ → Bool
is_success s = leb_ℤ (pos 200) s && ltb_ℤ s (pos 300)

abbrev pub is_not_modified : ℤ → Bool
is_not_modified s = eqb_ℤ s (pos 304)

-- A result that `singleFetchToggles` has a branch for: an error without toggles, no update without
-- toggles, or a success.
abbrev pub IsHandled : FetchResult → Type 0
IsHandled r =
    ((is_some r.error ≡ true) × (r.toggles ≡ none))
    ⊎ (((r.error ≡ none) × (is_not_modified r.status ≡ true) × (r.toggles ≡ none))
        ⊎ ((r.error ≡ none) × (is_success r.status ≡ true)))

to_int32-success : (s : ℤ) → is_success s ≡ true → to_int32 s ≡ s
to_int32-success (pos n) h = ground arith
to_int32-success (negsuc n) h = ground arith

to_int32-not_modified : (s : ℤ) → is_not_modified s ≡ true → to_int32 s ≡ s
to_int32-not_modified (pos n) h = ground arith
to_int32-not_modified (negsuc n) h = ground arith

module _ (l : Library) where
  fetched-IsHandled :
      (resp : HttpResponse) (e : Expected ToggleSet) (f : ToggleFetcher)
      → is_success resp.status ≡ true
      → IsHandled (fetched l resp e f).1
  fetched-IsHandled resp (unexpected s) f h = unfold fetched in inl (refl, refl)
  fetched-IsHandled resp (expected s) f h =
      unfold fetched in inr (inr (refl, rw (to_int32-success resp.status h) h))

  receive_http-IsHandled :
      (resp : HttpResponse) (f : ToggleFetcher) → IsHandled (receive_http l resp f).1
  unfolding receive_http
  receive_http-IsHandled resp f = elim (Bool-cases (eqb_ℤ resp.status (pos 0))) [
    | inl a ↦ rw a (inl (refl, refl))
    | inr a ↦ rw a (elim (Bool-cases (is_not_modified resp.status)) [
      | inl b ↦ rw b (inr (inl (refl, rw (to_int32-not_modified resp.status b) b, refl)))
      | inr b ↦ rw b (elim (Bool-cases (is_success resp.status)) [
        | inl d ↦ rw d (fetched-IsHandled resp _ f d)
        | inr d ↦ rw d (inl (refl, refl))
      ])
    ])
  ]

  pub receive-IsHandled : (o : Option ComResponse) (f : ToggleFetcher) → IsHandled (receive l o f).1
  receive-IsHandled none f = unfold receive in inl (refl, refl)
  receive-IsHandled (some (error_response code message)) f = unfold receive in inl (refl, refl)
  receive-IsHandled (some other_response) f = unfold receive in inl (refl, refl)
  receive-IsHandled (some (http_response resp)) f = unfold receive in receive_http-IsHandled resp f

  -- Whether `fetch` gets as far as its request: with GET always, and with POST if the context has a
  -- body.
  abbrev pub encodes : Context → ToggleFetcher → Bool
  encodes ctx f =
      not f.http_request.use_post_requests || is_some (encode_context_request_body l ctx)

  prepare-encodes : (ctx : Context) (f : ToggleFetcher) → is_some (prepare l ctx f) ≡ encodes ctx f
  unfolding prepare
  prepare-encodes ctx f = elim (Bool-cases f.http_request.use_post_requests) [
    | inl p ↦ rw p (elim (Option-cases (encode_context_request_body l ctx)) [
      | inl e ↦ rw e
      | inr (body, e) ↦ rw e
    ])
    | inr p ↦ rw p
  ]

  pub prepare-cases :
      (ctx : Context) (f : ToggleFetcher)
      → ((encodes ctx f ≡ false) × (prepare l ctx f ≡ none))
        ⊎ ((encodes ctx f ≡ true) × (f' : ToggleFetcher) × (prepare l ctx f ≡ some f'))
  prepare-cases ctx f = elim (Option-cases (prepare l ctx f)) [
    | inl e ↦ inl (sym (prepare-encodes ctx f) ∙ ap is_some e, e)
    | inr (f', e) ↦ inr (sym (prepare-encodes ctx f) ∙ ap is_some e, f', e)
  ]

  pub fetch-prepared :
      (client : HttpRequest → Option ComResponse) (ctx : Context) (f f' : ToggleFetcher)
      → prepare l ctx f ≡ some f'
      → fetch l client ctx f ≡ some (receive l (client f'.http_request) f')
  fetch-prepared client ctx f f' e = unfold fetch in rw e (unfold request_prepared in refl)

  -- `fetch` throws with POST, if the context has no body because one of its strings is not UTF-8, and
  -- only then. Otherwise, whatever the HTTP client answers, its result is one that `singleFetchToggles`
  -- handles: an error or status 304, both without toggles, or no error and a status from 200 to 299.
  pub fetch-IsHandled :
      (client : HttpRequest → Option ComResponse) (ctx : Context) (f : ToggleFetcher)
      → ((encodes ctx f ≡ false) × (fetch l client ctx f ≡ none))
        ⊎ ((encodes ctx f ≡ true)
            × (f' : ToggleFetcher) × (r : FetchResult) × (fetch l client ctx f ≡ some (f', r))
            × IsHandled r)
  fetch-IsHandled client ctx f = elim (prepare-cases ctx f) [
    | inl (a, e) ↦ inl (a, unfold fetch in rw e (unfold request_prepared in refl))
    | inr (a, f', e) ↦
        inr
          (a, _, _, fetch-prepared client ctx f f' e, receive-IsHandled (client f'.http_request) f')
  ]
