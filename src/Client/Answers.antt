-- ===== src/Client/Answers.antt =====
-- What the client answers after a fetch, from the response to `isEnabled` and `getVariant`.
pub mod Restart
use unleash_cpp_sdk.Base.{
  Option, Text, [], arith, eqb_ℤ, false, is_empty, length, negsuc, pos, refl, some, true, ℤ, ◌==◌,
  ◌∙◌, ◌∷◌, ◌≡◌,
}
use unleash_cpp_sdk.Base.Expected.{expected}
use unleash_cpp_sdk.Domain.Context.{Context}
use unleash_cpp_sdk.Domain.Toggles as Toggles
use unleash_cpp_sdk.Domain.Toggles.{ToggleSet, size}
use unleash_cpp_sdk.Json.Library.{Library}
use unleash_cpp_sdk.Json.Decode.{decode_client_features_response}
use unleash_cpp_sdk.Transport.Messages.{ComResponse, HttpRequest, HttpResponse, http_response}
use unleash_cpp_sdk.Fetcher.{
  FetchResult, ToggleFetcher, fetch, fetched, prepare, receive, receive_http,
}
use unleash_cpp_sdk.Fetcher.Results.{IsHandled, fetch-prepared, is_success, receive-IsHandled}
use unleash_cpp_sdk.Store.Flags.{replace, snapshot}
use unleash_cpp_sdk.Client.State.{Client}
use unleash_cpp_sdk.Client.Threads.{single_fetch_toggles}
use unleash_cpp_sdk.Client.Threads.Fetching.{single_fetch_toggles-fetched, success_is_modified}
use unleash_cpp_sdk.Client.Evaluate as Evaluate
use unleash_cpp_sdk.Client.Evaluate.Effects.{get_variant_lem, is_enabled_lem}

-- The client answers each name as the set does.
abbrev pub AnswersAs : {W : Type 0} → ToggleSet → Client W → Type 0
AnswersAs s c =
    (name : Text)
    → ((Evaluate.is_enabled name c).1 ≡ Toggles.is_enabled name s)
      × ((Evaluate.get_variant name c).1 ≡ Toggles.get_variant name s)

success_is_answered : (s : ℤ) → is_success s ≡ true → eqb_ℤ s (pos 0) ≡ false
success_is_answered (pos n) h = ground arith
success_is_answered (negsuc n) h = ground arith

module _ (l : Library) where
  size-some : (s : ToggleSet) → is_empty s.toggles ≡ false → (size s == 0) ≡ false
  unfolding size
  size-some s n =
      elim s.toggles as (λ m. is_empty m ≡ false → (length m == 0) ≡ false) [
        | [] ↦ λ h. absurd (ground arith)
        | e ∷ m ↦ λ h. ground arith
      ]
        n

  fetched-toggles :
      (resp : HttpResponse) (s : ToggleSet) (f : ToggleFetcher)
      → is_empty s.toggles ≡ false
      → (fetched l resp (expected s) f).1.toggles ≡ some s
  unfolding fetched
  fetched-toggles resp s f n = rw (size-some s n)

  receive_http-toggles :
      (resp : HttpResponse) (s : ToggleSet) (f : ToggleFetcher)
      → is_success resp.status ≡ true
      → decode_client_features_response l resp.body ≡ expected s
      → is_empty s.toggles ≡ false
      → (receive_http l resp f).1.toggles ≡ some s
  unfolding receive_http
  receive_http-toggles resp s f h d n =
      rw (success_is_modified resp.status h, success_is_answered resp.status h, h, d)
        (fetched-toggles resp s f n)

  pub fetch-toggles :
      (client : HttpRequest → Option ComResponse) (ctx : Context) (f f' : ToggleFetcher)
      (resp : HttpResponse) (s : ToggleSet)
      → prepare l ctx f ≡ some f'
      → client f'.http_request ≡ some (http_response resp)
      → is_success resp.status ≡ true
      → decode_client_features_response l resp.body ≡ expected s
      → is_empty s.toggles ≡ false
      → (f₂ : ToggleFetcher) × (r : FetchResult) × (fetch l client ctx f ≡ some (f₂, r))
        × IsHandled r
        × (r.toggles ≡ some s)
  fetch-toggles client ctx f f' resp s p e h d n = (
    _,
    _,
    fetch-prepared l client ctx f f' p,
    receive-IsHandled l (client f'.http_request) f',
    rw e (unfold receive in receive_http-toggles resp s f' h d n),
  )

module _ {W : Type 0} where
  pub AnswersAs-stored :
      (s : ToggleSet) (c : Client W) → c.ready ≡ true → snapshot c.flag_store ≡ s → AnswersAs s c
  AnswersAs-stored s c r e name =
      let a = is_enabled_lem name c in
      let v = get_variant_lem name c in (a.0 ∙ rw (r, e), v.0 ∙ rw (r, e))

  -- The same for the client's snapshot.
  pub fetch_stores :
      (l : Library) (client : HttpRequest → Option ComResponse) (ctx : Context) (c : Client W)
      (f' : ToggleFetcher) (resp : HttpResponse) (s : ToggleSet)
      → prepare l ctx c.toggle_fetcher ≡ some f'
      → client f'.http_request ≡ some (http_response resp)
      → is_success resp.status ≡ true
      → decode_client_features_response l resp.body ≡ expected s
      → is_empty s.toggles ≡ false
      → (c' : Client W) × (single_fetch_toggles l client ctx c ≡ some c')
        × (c'.ready ≡ true)
        × (snapshot c'.flag_store ≡ s)
        × (c'.world ≡ c.config.storage_provider.save s c.world)
  fetch_stores l client ctx c f' resp s p e h d n =
      let (f₂, r, g, handled, t) =
        fetch-toggles l client ctx c.toggle_fetcher f' resp s p e h d n in
      let (c', f, (stores, saves, is_now, kept, same)) =
        single_fetch_toggles-fetched l client ctx c f₂ r g handled in
      (c', f, is_now ∙ rw t, rw (stores, t) (unfold replace snapshot in refl), saves ∙ rw t)

  -- A fetch whose request is made and is answered with a status from 200 to 299 and a text that is decoded to a set of
  -- toggles which is not empty makes the client ready, and `isEnabled` and `getVariant` then answer
  -- every name as this set does; the storage provider has saved just this set.
  pub fetch_answers :
      (l : Library) (client : HttpRequest → Option ComResponse) (ctx : Context) (c : Client W)
      (f' : ToggleFetcher) (resp : HttpResponse) (s : ToggleSet)
      → prepare l ctx c.toggle_fetcher ≡ some f'
      → client f'.http_request ≡ some (http_response resp)
      → is_success resp.status ≡ true
      → decode_client_features_response l resp.body ≡ expected s
      → is_empty s.toggles ≡ false
      → (c' : Client W) × (single_fetch_toggles l client ctx c ≡ some c')
        × (c'.ready ≡ true)
        × AnswersAs s c'
        × (c'.world ≡ c.config.storage_provider.save s c.world)
  fetch_answers l client ctx c f' resp s p e h d n =
      let (c', f, r, stored, saved) = fetch_stores l client ctx c f' resp s p e h d n in
      (c', f, r, AnswersAs-stored s c' r stored, saved)
