-- ===== src/Client/State/Sound.antt =====
-- Which flags of the client belong together, and that `start`, `stop` and the context keep them so.
use unleash_cpp_sdk.Base.{Option, Text, arith, false, not, refl, sym, true, ℕ, ℤ, ◌&&◌, ◌∙◌, ◌≡◌}
use unleash_cpp_sdk.Client.State.{
  Client, announce, initialize_toggle_cache, load_bootstrap, load_cache, make_client, new_client,
  on_callback, persist_if, persist_toggles, start_client, stop_client, update_context,
}
use unleash_cpp_sdk.Config.{ClientConfig}
use unleash_cpp_sdk.Domain.Context.{Context, MutableContext}
use unleash_cpp_sdk.Events.{
  Event, Handler, Slot, emit, emit_push, new_handler, on_event, stop_request,
}
use unleash_cpp_sdk.Events as Handlers
use unleash_cpp_sdk.Store.Flags.{is_ready}

pub emit-started : (e : Event) (h : Handler) → (emit e h).started ≡ h.started
unfolding emit emit_push
emit-started e h = ground arith

module _ {W : Type 0} where
  -- The loop threads and the event handler live exactly while the client runs, which is never while
  -- the exit flag is set, and a client is ready only if its flag store is.
  pub record IsSound (c : Client W) : Type 0 where
    pub loops : c.loops ≡ c.running
    pub handler : c.event_handler.started ≡ c.running
    pub exits : (c.running && c.exit_threads) ≡ false
    pub snapshot : (c.ready && not (is_ready c.flag_store)) ≡ false

  pub start_client-IsSound : (c : Client W) → IsSound c → IsSound (start_client c)
  unfolding start_client announce emit emit_push Handlers.start
  start_client-IsSound c s = record {
    loops = ground (arith, s.loops);
    handler = ground (arith, s.handler);
    exits = ground (arith, s.exits);
    snapshot = ground (arith, s.snapshot);
  }

  pub stop_client-IsSound : (c : Client W) → IsSound c → IsSound (stop_client c)
  unfolding stop_client stop_request
  stop_client-IsSound c s = record {
    loops = ground (arith, s.loops);
    handler = ground (arith, s.handler);
    exits = ground (arith, s.exits);
    snapshot = ground (arith, s.snapshot);
  }

  pub update_context-IsSound :
      (mc : MutableContext) (c : Client W) → IsSound c → IsSound (update_context mc c)
  unfolding update_context
  update_context-IsSound mc c s = record {
    loops = s.loops;
    handler = s.handler;
    exits = s.exits;
    snapshot = s.snapshot;
  }

  pub on_callback-IsSound :
      (slot : Slot) (cb : Option ℕ) (c : Client W) → IsSound c → IsSound (on_callback slot cb c)
  unfolding on_callback on_event
  on_callback-IsSound slot cb c s = record {
    loops = s.loops;
    handler = s.handler;
    exits = s.exits;
    snapshot = s.snapshot;
  }

  initialize_toggle_cache-flags :
      (c : Client W)
      → ((initialize_toggle_cache c).running ≡ c.running)
        × ((initialize_toggle_cache c).loops ≡ c.loops)
        × ((initialize_toggle_cache c).event_handler.started ≡ c.event_handler.started)
        × ((initialize_toggle_cache c).ready ≡ c.ready)
  unfolding initialize_toggle_cache load_cache load_bootstrap persist_if persist_toggles
  initialize_toggle_cache-flags c = ground arith

  initialize_toggle_cache-handler :
      (c : Client W) → (initialize_toggle_cache c).event_handler ≡ c.event_handler
  unfolding initialize_toggle_cache load_cache load_bootstrap persist_if persist_toggles
  initialize_toggle_cache-handler c = ground arith

  pub make_client-handler :
      (version : Text) (now : ℤ) (config : ClientConfig W) (context : Context) (world : W)
      → (make_client version now config context world).event_handler ≡ new_handler
  unfolding make_client new_client
  make_client-handler version now config context world =
      initialize_toggle_cache-handler (new_client version now config context world)

  fresh-IsSound :
      (c : Client W)
      → c.running ≡ false
      → c.loops ≡ false
      → c.event_handler.started ≡ false
      → c.ready ≡ false
      → IsSound (initialize_toggle_cache c)
  fresh-IsSound c r l h d =
      let (a, b, e, f) = initialize_toggle_cache-flags c in
      record {
        loops = b ∙ (l ∙ sym (a ∙ r));
        handler = e ∙ (h ∙ sym (a ∙ r));
        exits = rw (a, r);
        snapshot = rw (f, d);
      }

  pub make_client-IsSound :
      (version : Text) (now : ℤ) (config : ClientConfig W) (context : Context) (world : W)
      → IsSound (make_client version now config context world)
  unfolding make_client new_client
  make_client-IsSound version now config context world =
      fresh-IsSound (new_client version now config context world) refl refl refl refl

  pub make_client-flags :
      (version : Text) (now : ℤ) (config : ClientConfig W) (context : Context) (world : W)
      → ((make_client version now config context world).running ≡ false)
        × ((make_client version now config context world).event_handler.started ≡ false)
  unfolding make_client new_client
  make_client-flags version now config context world =
      let (a, b, e, f) =
        initialize_toggle_cache-flags (new_client version now config context world) in
      (a, e)

  -- The members that `start` sets, on a client that does not run.
  pub start_client-sets :
      (c : Client W)
      → c.running ≡ false
      → ((start_client c).running ≡ true)
        × ((start_client c).exit_threads ≡ false)
        × ((start_client c).event_handler.started ≡ true)
        × ((start_client c).loops ≡ true)
        × ((start_client c).config ≡ c.config)
  unfolding start_client announce emit emit_push Handlers.start
  start_client-sets c r = ground (arith, r)

  -- The members that `stop` sets, on a client that runs.
  pub stop_client-sets :
      (c : Client W)
      → c.running ≡ true
      → ((stop_client c).running ≡ false)
        × ((stop_client c).exit_threads ≡ true)
        × ((stop_client c).event_handler.started ≡ false)
        × ((stop_client c).loops ≡ false)
        × ((stop_client c).config ≡ c.config)
  unfolding stop_client stop_request
  stop_client-sets c r = ground (arith, r)

  pub start_client_again : (c : Client W) → c.running ≡ true → start_client c ≡ c
  unfolding start_client
  start_client_again c r = rw r

  pub stop_client_again : (c : Client W) → c.running ≡ false → stop_client c ≡ c
  unfolding stop_client
  stop_client_again c r = rw r
