-- ===== src/Examples.antt =====
-- examples/live_example.cpp: a program that prints what the client answers, once a second.
pub mod Lines
use unleash_cpp_sdk.Base.{
  Bool, List, Option, Text, [], codes, false, none, pos, some, true, ℕ, ℤ, ◌++◌, ◌∷◌,
}
use unleash_cpp_sdk.Client.Evaluate as Evaluate
use unleash_cpp_sdk.Client.State.{Client, make_client, on_callback, start_client}
use unleash_cpp_sdk.Client.Threads.{MetricWake, single_fetch_toggles, wait_and_maybe_send}
use unleash_cpp_sdk.Config.{
  ClientConfig, configure, make_config, metrics_interval, metrics_interval_initial,
  refresh_interval,
}
use unleash_cpp_sdk.Domain.Context.{Context, make_context, property, set_context, user_id}
use unleash_cpp_sdk.Domain.Variant.{Variant}
use unleash_cpp_sdk.Events.{
  Task, error_task, impression_task, init_task, on_error, on_init, on_ready, on_update, ready_task,
  update_task,
}
use unleash_cpp_sdk.Events.Loop.{loop_step, rounds}
use unleash_cpp_sdk.Json.Library.{Library}
use unleash_cpp_sdk.Transport.Messages.{ComResponse, HttpRequest}

-- What a callback prints, by the task that the dispatch thread runs.
unfoldable pub callback_line : Task → Text
callback_line (init_task cb) = codes "[init] client starting"
callback_line (ready_task cb) = codes "[ready] first successful fetch completed"
callback_line (update_task cb) = codes "[update] toggles changed"
callback_line (error_task cb e) = codes "[error] " ++ (e.message ++ (codes ": " ++ e.details))
callback_line (impression_task cb e) = []

-- A step of the client's threads while the program sleeps or between its two questions.
pub data Work : Type 0 where
  poll : (HttpRequest → Option ComResponse) → Context → Work
  report : MetricWake → Work
  dispatch : Work

-- What happens in the second before the questions of a round, and between them.
pub record Round : Type 0 where
  pub before : List Work
  pub between : List Work

-- The program's end, by a status or by an exception out of one of the client's threads, or the client
-- after some rounds of its endless loop; with the lines that are complete.
pub data Outcome (W : Type 0) : Type 0 where
  exits : ℕ → Text → Outcome W
  terminates : List Text → Outcome W
  goes_on : Client W → List Text → Outcome W

unfoldable pub with_line : {W : Type 0} → Text → Outcome W → Outcome W
with_line line (exits status message) = exits status message
with_line line (terminates lines) = terminates (line ∷ lines)
with_line line (goes_on c lines) = goes_on c (line ∷ lines)

-- A round's line, and what follows it.
unfoldable pub print : {W : Type 0} → (Client W → Outcome W) → Option (Client W × Text) → Outcome W
unfolding with_line
print next none = terminates []
print next (some (c, line)) = with_line line (next c)

unfoldable pub and_then :
    {W : Type 0} → (Client W → Option (Client W)) → Option (Client W) → Option (Client W)
and_then next none = none
and_then next (some c) = next c

unfoldable pub client_of : {W : Type 0} → Option (Client W × Bool) → Option (Client W)
client_of none = none
client_of (some (c, b)) = some c

unfoldable pub boolalpha : Bool → Text
boolalpha true = codes "true"
boolalpha false = codes "false"

unfoldable pub answer_line : Text → Bool → Variant → Text
unfolding boolalpha
answer_line flag enabled v =
    codes "Flag '"
    ++ (flag ++ (codes "' enabled: " ++ (boolalpha enabled ++ (codes "  variant: " ++ v.name))))

unfoldable pub flag_name : Option Text → Text
flag_name none = codes "demo-flag"
flag_name (some name) = name

module _ {W : Type 0} where
  unfoldable pub live_config : Text → Text → (ℕ → ℕ) → ClientConfig W
  live_config url api_key draw = configure (metrics_interval_initial (pos 2)) (
      configure (metrics_interval (pos 2)) (
        configure (refresh_interval (pos 1))
          (make_config url api_key (codes "cpp-live-example") draw)))

unfoldable pub live_context : Text → Context
live_context random_id = set_context (property (codes "tennantId") (codes "tennant-123")) (
    set_context (user_id (codes "123"))
      (make_context (codes "cpp-live-example") (codes "development") [] random_id))

module _ {W : Type 0} (l : Library) (utc : ℤ → Text) where
  -- `none` is an exception.
  unfoldable pub work : Work → Client W → Option (Client W)
  unfolding client_of
  work (poll client ctx) c = single_fetch_toggles l client ctx c
  work (report w) c = client_of (wait_and_maybe_send l utc w c)
  work dispatch c = some (record c { event_handler = loop_step c.event_handler })

  unfoldable pub work_all : List Work → Client W → Option (Client W)
  unfolding and_then
  work_all [] c = some c
  work_all (a ∷ rest) c = and_then (work_all rest) (work a c)

  unfoldable pub second_question : Text → Bool → Option (Client W) → Option (Client W × Text)
  second_question flag enabled none = none
  second_question flag enabled (some c) =
      let (c', v) = Evaluate.get_variant flag c in some (c', answer_line flag enabled v)

  unfoldable pub both_questions : Text → List Work → Option (Client W) → Option (Client W × Text)
  unfolding second_question
  both_questions flag between none = none
  both_questions flag between (some c) =
      let (c', enabled) = Evaluate.is_enabled flag c in
      second_question flag enabled (work_all between c')

  unfoldable pub live_round : Text → Round → Client W → Option (Client W × Text)
  unfolding both_questions
  live_round flag r c = both_questions flag r.between (work_all r.before c)

  unfoldable pub live_rounds : Text → List Round → Client W → Outcome W
  unfolding print
  live_rounds flag [] c = goes_on c []
  live_rounds flag (r ∷ rs) c = print (live_rounds flag rs) (live_round flag r c)

-- From the construction of the client to its start; the callbacks are numbered in this order.
unfoldable pub live_client : {W : Type 0} → Text → ℤ → (ℕ → ℕ) → Text → W → Text → Text → Client W
live_client version now draw random_id world url api_key =
    let c = make_client version now (live_config url api_key draw) (live_context random_id) world in
    start_client (
      on_callback on_error (some 3) (
        on_callback on_update (some 2)
          (on_callback on_ready (some 1) (on_callback on_init (some 0) c))))

-- `main`, with the three variables of the environment.
unfoldable pub live_main :
    {W : Type 0}
    → Library
    → (ℤ → Text)
    → Text
    → ℤ
    → (ℕ → ℕ)
    → Text
    → W
    → Option Text
    → Option Text
    → Option Text
    → List Round
    → Outcome W
unfolding live_client live_rounds flag_name
live_main l utc version now draw random_id world (some url) (some api_key) name rounds =
    live_rounds l utc (flag_name name) rounds
      (live_client version now draw random_id world url api_key)
live_main l utc version now draw random_id world url api_key name rounds =
    exits 1 (codes "Set UNLEASH_URL and UNLEASH_API_KEY before running this example.")
