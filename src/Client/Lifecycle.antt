-- ===== src/Client/Lifecycle.antt =====
-- The client over any sequence of calls of its public methods and of rounds of its two threads.
pub mod Silent
use unleash_cpp_sdk.Base.{List, Option, Text, [], arith, false, ℕ, ℤ, ◌∷◌, ◌≡◌}
use unleash_cpp_sdk.Client.State.{
  Client, destroy, is_running, make_client, on_callback, start_client, stop_client, update_context,
}
use unleash_cpp_sdk.Client.State.Sound.{
  IsSound, make_client-IsSound, on_callback-IsSound, start_client-IsSound, stop_client-IsSound,
  update_context-IsSound,
}
use unleash_cpp_sdk.Client.Threads.{MetricWake, single_fetch_toggles, wait_and_maybe_send}
use unleash_cpp_sdk.Client.Threads.Sound.{
  or_same, sent_or_same, single_fetch_toggles-IsSound, wait_and_maybe_send-IsSound,
}
use unleash_cpp_sdk.Client.Evaluate as Evaluate
use unleash_cpp_sdk.Client.Evaluate.Sound.{get_variant-IsSound, is_enabled-IsSound}
use unleash_cpp_sdk.Config.{ClientConfig}
use unleash_cpp_sdk.Domain.Context.{Context, MutableContext}
use unleash_cpp_sdk.Events.{Slot, stop_request}
use unleash_cpp_sdk.Json.Library.{Library}
use unleash_cpp_sdk.Transport.Messages.{ComResponse, HttpRequest}

-- A call of a method, or a fetch or a report of one of the two threads with what it meets.
pub data Call : Type 0 where
  call_start call_stop : Call
  ask_enabled ask_variant : Text → Call
  new_context : MutableContext → Call
  new_callback : Slot → Option ℕ → Call
  poll : (HttpRequest → Option ComResponse) → Context → Call
  report : MetricWake → Call

module _ {W : Type 0} (l : Library) (utc : ℤ → Text) where
  -- An exception out of the function of a thread terminates the process; the client that it ends with
  -- is the one before that fetch or report.
  unfoldable pub perform : Call → Client W → Client W
  perform call_start c = start_client c
  perform call_stop c = stop_client c
  perform (ask_enabled name) c = (Evaluate.is_enabled name c).0
  perform (ask_variant name) c = (Evaluate.get_variant name c).0
  perform (new_context mc) c = update_context mc c
  perform (new_callback slot cb) c = on_callback slot cb c
  perform (poll client ctx) c = or_same (single_fetch_toggles l client ctx c) c
  perform (report w) c = sent_or_same (wait_and_maybe_send l utc w c) c

  unfoldable pub perform_all : List Call → Client W → Client W
  perform_all [] c = c
  perform_all (a ∷ rest) c = perform_all rest (perform a c)

  perform-IsSound : (a : Call) (c : Client W) → IsSound c → IsSound (perform a c)
  unfolding perform
  perform-IsSound call_start c s = start_client-IsSound c s
  perform-IsSound call_stop c s = stop_client-IsSound c s
  perform-IsSound (ask_enabled name) c s = is_enabled-IsSound name c s
  perform-IsSound (ask_variant name) c s = get_variant-IsSound name c s
  perform-IsSound (new_context mc) c s = update_context-IsSound mc c s
  perform-IsSound (new_callback slot cb) c s = on_callback-IsSound slot cb c s
  perform-IsSound (poll client ctx) c s = single_fetch_toggles-IsSound l client ctx c s
  perform-IsSound (report w) c s = wait_and_maybe_send-IsSound l utc w c s

  perform_all-keeps : (calls : List Call) (c : Client W) → IsSound c → IsSound (perform_all calls c)
  unfolding perform_all
  perform_all-keeps [] c s = s
  perform_all-keeps (a ∷ rest) c s = perform_all-keeps rest (perform a c) (perform-IsSound a c s)

  -- After any sequence of starts, stops, questions, changes of context and callbacks, fetches and
  -- reports on a new client: its loop threads and its event handler are up exactly while it runs, the
  -- exit flag is not set while it runs, and it is ready only if its flag store is.
  pub perform_all-IsSound :
      (calls : List Call) (version : Text) (now : ℤ) (config : ClientConfig W) (context : Context)
      (world : W)
      → IsSound (perform_all calls (make_client version now config context world))
  perform_all-IsSound calls version now config context world =
      perform_all-keeps calls _ (make_client-IsSound version now config context world)

  destroy-IsSound :
      (c : Client W)
      → IsSound c
      → (is_running (destroy c) ≡ false)
        × ((destroy c).loops ≡ false)
        × ((destroy c).event_handler.started ≡ false)
  unfolding destroy is_running stop_client stop_request
  destroy-IsSound c s = ground (arith, s.loops, s.handler)

  -- Whatever calls, fetches and reports a new client has seen, one after the other: when it is
  -- destroyed, it does not run, no loop thread is left to join, and its event handler was stopped.
  pub destroy-perform_all :
      (calls : List Call) (version : Text) (now : ℤ) (config : ClientConfig W) (context : Context)
      (world : W)
      → let c = destroy (perform_all calls (make_client version now config context world)) in
        (is_running c ≡ false) × (c.loops ≡ false) × (c.event_handler.started ≡ false)
  destroy-perform_all calls version now config context world =
      destroy-IsSound _ (perform_all-IsSound calls version now config context world)
