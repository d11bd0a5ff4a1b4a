-- ===== src/Client/Threads/Fetching.antt =====
-- The polling thread: the one exception, and what a fetch changes.
use unleash_cpp_sdk.Base.{
  Bool-cases, Option, Text, arith, false, if◌then◌else◌, inl, inr, is_some, negsuc, none, pos, refl,
  some, true, ℤ, ◌||◌, ◌∙◌, ◌≡◌, ◌⊎◌,
}
use unleash_cpp_sdk.Client.State.{Client, start_client}
use unleash_cpp_sdk.Events as Handlers
use unleash_cpp_sdk.Events.{emit, ready, update}
use unleash_cpp_sdk.Client.State.Cache.{save_if, start_client_silent}
use unleash_cpp_sdk.Client.Threads.{
  handle_fetched, handle_result, single_fetch_toggles, take_toggles,
}
use unleash_cpp_sdk.Domain.Toggles.{ToggleSet}
use unleash_cpp_sdk.Fetcher.{FetchResult, ToggleFetcher, fetch}
use unleash_cpp_sdk.Fetcher.Results.{
  IsHandled, encodes, fetch-IsHandled, is_not_modified, is_success,
}
use unleash_cpp_sdk.Json.Library.{Library}
use unleash_cpp_sdk.Transport.Messages.{ComResponse, HttpRequest}
use unleash_cpp_sdk.Domain.Context.{Context}
use unleash_cpp_sdk.Store.Flags.{is_ready, replace}

-- A result by its three fields.
abbrev pub result_with : ℤ → Option ToggleSet → Option Text → FetchResult
result_with s t e = record { status = s; toggles = t; error = e }

pub success_is_modified : (s : ℤ) → is_success s ≡ true → is_not_modified s ≡ false
success_is_modified (pos n) h = ground arith
success_is_modified (negsuc n) h = ground arith

module _ {W : Type 0} where
  -- What a result that is handled makes of the client: its toggles, if it has any, are stored, saved
  -- and make the client ready; nothing else touches these three, the configuration or the fetcher.
  abbrev pub Takes : FetchResult → Client W → Client W → Type 0
  Takes r c c' =
      (c'.flag_store ≡ replace r.toggles c.flag_store)
      × (c'.world ≡ save_if r.toggles c.config.storage_provider.save c.world)
      × (c'.ready ≡ (is_some r.toggles || c.ready))
      × (c'.config ≡ c.config)
      × (c'.toggle_fetcher ≡ c.toggle_fetcher)

  take_toggles-Takes :
      (t : ToggleSet) (c : Client W)
      → ((take_toggles t c).flag_store ≡ replace (some t) c.flag_store)
        × ((take_toggles t c).world ≡ c.config.storage_provider.save t c.world)
        × ((take_toggles t c).ready ≡ true)
        × ((take_toggles t c).config ≡ c.config)
        × ((take_toggles t c).toggle_fetcher ≡ c.toggle_fetcher)
  unfolding take_toggles
  take_toggles-Takes t c = ground arith

  handle_unchanged :
      (s : ℤ) (c : Client W)
      → IsHandled (result_with s none none)
      → handle_result (result_with s none none) c ≡ some c
  unfolding handle_result
  handle_unchanged s c (inl (e, t)) = cc
  handle_unchanged s c (inr (inl (e, h, t))) = rw h
  handle_unchanged s c (inr (inr (e, h))) = elim (Bool-cases (is_not_modified s)) [
    | inl m ↦ rw m
    | inr m ↦ rw (m, h)
  ]

  handle_taken :
      (s : ℤ) (t : ToggleSet) (c : Client W)
      → IsHandled (result_with s (some t) none)
      → handle_result (result_with s (some t) none) c ≡ some (take_toggles t c)
  unfolding handle_result
  handle_taken s t c (inl (e, n)) = cc
  handle_taken s t c (inr (inl (e, h, n))) = cc
  handle_taken s t c (inr (inr (e, h))) = rw (success_is_modified s h, h)

  handle_result-cases :
      (s : ℤ) (t : Option ToggleSet) (e : Option Text) (c : Client W)
      → IsHandled (result_with s t e)
      → (c' : Client W) × (handle_result (result_with s t e) c ≡ some c')
        × Takes (result_with s t e) c c'
  unfolding handle_result replace
  handle_result-cases s none (some e) c h = (_, refl, (refl, refl, refl, refl, refl))
  handle_result-cases s (some t) (some e) c h = absurd (ground arith)
  handle_result-cases s none none c h = (c, handle_unchanged s c h, (refl, refl, refl, refl, refl))
  handle_result-cases s (some t) none c h =
      (take_toggles t c, handle_taken s t c h, take_toggles-Takes t c)

  -- What is made of a fetch that returned.
  pub single_fetch_toggles-fetched :
      (l : Library) (client : HttpRequest → Option ComResponse) (ctx : Context) (c : Client W)
      (f : ToggleFetcher) (r : FetchResult)
      → fetch l client ctx c.toggle_fetcher ≡ some (f, r)
      → IsHandled r
      → (c' : Client W) × (single_fetch_toggles l client ctx c ≡ some c')
        × Takes r (record c { toggle_fetcher = f }) c'
  single_fetch_toggles-fetched l client ctx c f r e h =
      let (c', g, t) =
        handle_result-cases r.status r.toggles r.error (record c { toggle_fetcher = f }) h in
      (c', unfold single_fetch_toggles in rw e (unfold handle_fetched in g), t)

  -- A fetch ends by an exception with POST, if the context has no body because one of its strings is
  -- not UTF-8, and only then. Otherwise it is handled, whatever the HTTP client answers: the flag store
  -- takes the toggles that `fetch` returns and keeps its snapshot where it returns none, as with an
  -- error or status 304; the storage provider saves just these toggles; the client becomes ready by
  -- them and never stops being ready; and the fetcher is the one that `fetch` leaves behind.
  pub single_fetch_toggles_lem :
      (l : Library) (client : HttpRequest → Option ComResponse) (ctx : Context) (c : Client W)
      → ((encodes l ctx c.toggle_fetcher ≡ false) × (single_fetch_toggles l client ctx c ≡ none))
        ⊎ ((encodes l ctx c.toggle_fetcher ≡ true)
            × (f : ToggleFetcher) × (r : FetchResult) × (c' : Client W) × (fetch l client ctx
                  c.toggle_fetcher
                ≡ some (f, r))
            × (single_fetch_toggles l client ctx c ≡ some c')
            × Takes r (record c { toggle_fetcher = f }) c')
  single_fetch_toggles_lem l client ctx c = elim (fetch-IsHandled l client ctx c.toggle_fetcher) [
    | inl (a, e) ↦ inl (a, unfold single_fetch_toggles in rw e (unfold handle_fetched in refl))
    | inr (a, f, r, e, h) ↦
        let (c', g, t) = single_fetch_toggles-fetched l client ctx c f r e h in
        inr (a, f, r, c', e, g, t)
  ]

module _ {W : Type 0} where
  take_toggles-event_handler :
      (t : ToggleSet) (c : Client W)
      → (take_toggles t c).event_handler
        ≡ emit update (if c.ready then c.event_handler else emit ready c.event_handler)
  unfolding take_toggles
  take_toggles-event_handler t c = elim (Bool-cases c.ready) [
    | inl e ↦ rw (e, take_toggles)
    | inr e ↦ rw (e, take_toggles)
  ]

  -- If a client that does not run, with an event handler that is not started and a cache that is
  -- ready, is started and then receives toggles, these queue the update event alone: the ready event,
  -- which `start` did not queue, is not made up for.
  pub ready_event_lost :
      (s : ℤ) (t : ToggleSet) (c : Client W)
      → c.running ≡ false
      → c.event_handler.started ≡ false
      → is_ready c.flag_store ≡ true
      → is_success s ≡ true
      → (c' : Client W) × (handle_result (result_with s (some t) none) (start_client c) ≡ some c')
        × (c'.event_handler ≡ emit update (Handlers.start c.event_handler))
  ready_event_lost s t c r h f k =
      let (silent, is_now, on) = start_client_silent c r h in
      (
        take_toggles t (start_client c),
        handle_taken s t (start_client c) (inr (inr (refl, k))),
        take_toggles-event_handler t (start_client c) ∙ rw (is_now, silent, f) (ground arith),
      )
