-- ===== src/Client/State.antt =====
-- The client's state, its constructor, and `start`, `stop` and the context.
pub mod Cache
pub mod Sound
use unleash_cpp_sdk.Base.{
  Bool, Dict, Option, Text, false, if◌then◌else◌, is_empty, ltb, none, not, some, true, ℕ, ℤ, ◌&&◌,
}
use unleash_cpp_sdk.Config.{ClientConfig}
use unleash_cpp_sdk.Domain.Context.{Context, MutableContext, update_mutable_context}
use unleash_cpp_sdk.Domain.Variant.{Toggle}
use unleash_cpp_sdk.Domain.Toggles.{ToggleSet, from_map, size}
use unleash_cpp_sdk.Events as Handlers
use unleash_cpp_sdk.Events.{Handler, Slot, emit, init, new_handler, on_event, ready, stop_request}
use unleash_cpp_sdk.Fetcher.{ToggleFetcher, make_fetcher}
use unleash_cpp_sdk.Metrics.MetricsStore.{MetricsStore, make_store}
use unleash_cpp_sdk.Metrics.MetricSender.{MetricSender, make_sender}
use unleash_cpp_sdk.Store.Flags.{FlagStore, empty_store, is_ready, replace}

pub data SdkState : Type 0 where
  sdk_started sdk_healthy sdk_error sdk_stopped : SdkState

-- `world` is what the storage provider reads and writes; `loops` tells that the two loop threads
-- were created and not joined.
pub record Client (W : Type 0) : Type 0 where
  pub config : ClientConfig W
  pub context : Context
  pub flag_store : FlagStore
  pub metric_store : MetricsStore
  pub metric_sender : MetricSender
  pub event_handler : Handler
  pub toggle_fetcher : ToggleFetcher
  pub running : Bool
  pub ready : Bool
  pub exit_threads : Bool
  pub context_updated : Bool
  pub sdk_state : SdkState
  pub world : W
  pub loops : Bool

-- The bootstrap that the constructor loads: one that is not empty, if it may override.
bootstrap_of : Bool → Option (Dict Toggle) → Option ToggleSet
unfolding from_map
bootstrap_of override none = none
bootstrap_of override (some m) = if override && not (is_empty m) then some (from_map m) else none

module _ {W : Type 0} where
  unfoldable pub persist_toggles : ToggleSet → Client W → Client W
  persist_toggles t c = record c { world = c.config.storage_provider.save t c.world }

  load_bootstrap : Option ToggleSet → Client W → Client W
  load_bootstrap none c = c
  load_bootstrap (some b) c = record c { flag_store = replace (some b) c.flag_store }

  persist_if : Option ToggleSet → Client W → Client W
  unfolding persist_toggles
  persist_if none c = c
  persist_if (some b) c = persist_toggles b c

  load_cache : Option ToggleSet → Option ToggleSet → Client W → Client W
  unfolding persist_if size
  load_cache none b c = persist_if b c
  load_cache (some s) b c =
      if ltb 0 (size s)
      then record c { flag_store = replace (some s) c.flag_store }
      else persist_if b c

  unfoldable pub initialize_toggle_cache : Client W → Client W
  unfolding load_bootstrap load_cache bootstrap_of
  initialize_toggle_cache c =
      let b = bootstrap_of c.config.bootstrap_override c.config.bootstrap in
      let c' = load_bootstrap b c in load_cache (c'.config.storage_provider.get c'.world) b c'

  -- The members after the initialiser list; `now` is the time of the metric store's constructor.
  new_client : Text → ℤ → ClientConfig W → Context → W → Client W
  unfolding make_store make_sender make_fetcher
  new_client version now config context world = record {
    config = config;
    context = context;
    flag_store = empty_store;
    metric_store = make_store config now;
    metric_sender = make_sender version config;
    event_handler = new_handler;
    toggle_fetcher = make_fetcher version config;
    running = false;
    ready = false;
    exit_threads = false;
    context_updated = false;
    sdk_state = sdk_stopped;
    world = world;
    loops = false;
  }

  unfoldable pub make_client : Text → ℤ → ClientConfig W → Context → W → Client W
  unfolding initialize_toggle_cache new_client
  make_client version now config context world =
      initialize_toggle_cache (new_client version now config context world)

  -- The two emissions of `start`, before the dispatch thread is started.
  announce : Client W → Client W
  announce c =
      let c' = record c { event_handler = emit init c.event_handler } in
      if is_ready c'.flag_store
      then record c' { event_handler = emit ready c'.event_handler; ready = true }
      else c'

  unfoldable pub start_client : Client W → Client W
  unfolding announce
  start_client c =
      if c.running
      then c
      else let c' = announce (record c { running = true }) in
        record c' {
          exit_threads = false;
          event_handler = Handlers.start c'.event_handler;
          loops = true;
        }

  -- `stop` returns when the threads have seen the flag and were joined; here the loop threads are
  -- joined, and the handler is asked to stop.
  unfoldable pub stop_client : Client W → Client W
  stop_client c =
      if c.running
      then record c {
        running = false;
        exit_threads = true;
        loops = false;
        event_handler = stop_request c.event_handler;
      }
      else c

  unfoldable pub update_context : MutableContext → Client W → Client W
  update_context mc c = record c {
    context = update_mutable_context mc c.context;
    context_updated = true;
  }

  unfoldable pub on_callback : Slot → Option ℕ → Client W → Client W
  on_callback slot cb c = record c { event_handler = on_event slot cb c.event_handler }

  -- `~UnleashClient`, before the members are destroyed.
  unfoldable pub destroy : Client W → Client W
  unfolding stop_client
  destroy c = stop_client c

  unfoldable pub is_running : Client W → Bool
  is_running c = c.running

  -- `isReady`
  unfoldable pub is_client_ready : Client W → Bool
  is_client_ready c = c.ready

  -- `context`
  unfoldable pub current_context : Client W → Context
  current_context c = c.context
