-- ===== src/Tests/Threads.antt =====
-- The event handler and the client.
use unleash_cpp_sdk.Json.Encode.{encode_context_request_body}
use unleash_cpp_sdk.Json.Library.{Library}
use unleash_cpp_sdk.Events.Loop.{loop_steps}
use unleash_cpp_sdk.Events.SelfStop.{
  callback_stop_terminates, destroy_handler, destroyed, stop_in_callback, terminated,
}
use unleash_cpp_sdk.Base.{
  List, Option, [], arith, codes, false, if◌then◌else◌, inl, is_some, none, not, pos, refl, some,
  true, ◌&&◌, ◌++◌, ◌∷◌, ◌≡◌, ◌⊎◌,
}
use unleash_cpp_sdk.Domain.Toggles as Toggles
use unleash_cpp_sdk.Domain.Toggles.{ToggleSet}
use unleash_cpp_sdk.Domain.Variant.{disabled_factory}
use unleash_cpp_sdk.Events as Handlers
use unleash_cpp_sdk.Events.{emit, emit_check, impression, init_task, ready, ready_task, task_for}
use unleash_cpp_sdk.Events.System.Order.{accepted, emission_after_stop, run-trace, trace}
use unleash_cpp_sdk.Events.System.{
  Action, IsBounded, System, begin_emit, dispatch, end_emit, request_stop, run, run-IsBounded,
}
use unleash_cpp_sdk.Store.Flags.{is_ready, replace, snapshot}
use unleash_cpp_sdk.Fetcher.{FetchResult, ToggleFetcher, fetch, prepare, request_prepared}
use unleash_cpp_sdk.Fetcher.Results.{encodes, is_success}
use unleash_cpp_sdk.Metrics.MetricsStore.{add_metric, is_store_empty, reset}
use unleash_cpp_sdk.Metrics.MetricSender.{MetricResult}
use unleash_cpp_sdk.Metrics.MetricList.{enable, variant}
use unleash_cpp_sdk.Client.State.{Client, initialize_toggle_cache, make_client}
use unleash_cpp_sdk.Client.State.Cache.{
  first_of_two, initialize_toggle_cache_lem, save_if, stored, usable_bootstrap,
}
use unleash_cpp_sdk.Client.Threads.{
  MetricWake, PollWake, handle_fetched, send_metrics, single_fetch_toggles,
}
use unleash_cpp_sdk.Client.Threads.Fetching.{Takes, single_fetch_toggles_lem}
use unleash_cpp_sdk.Client.Threads.Sending.{send_metrics_lem}
use unleash_cpp_sdk.Client.State.Sound.{IsSound}
use unleash_cpp_sdk.Client.Lifecycle.{
  Call, ask_enabled, call_start, call_stop, perform_all, perform_all-IsSound, poll, report,
}
use unleash_cpp_sdk.Client.Evaluate as Evaluate
use unleash_cpp_sdk.Client.Evaluate.Effects.{
  get_variant_lem, is_enabled_lem, is_known, wants_impression,
}
use unleash_cpp_sdk.Tests.Data.{
  answers, idle_client, live_client, sample_config, sample_context, sample_handler, two_documents,
}

abbrev acts : List Action
acts = dispatch ∷ begin_emit ready ∷ dispatch ∷ end_emit 0 ∷ []

abbrev sample_system : System
sample_system = record { handler = sample_handler; pending = [] }

-- The handler runs a callback.
abbrev in_callback : Handlers.Handler
in_callback = record sample_handler { thread = some (Handlers.running (init_task 1)) }

run-IsBounded_example : IsBounded (run acts sample_system)
run-IsBounded_example = run-IsBounded acts sample_system (omega arith)

run-trace_example :
    trace (run acts sample_system).handler ≡ trace sample_handler ++ accepted acts sample_system
run-trace_example = run-trace acts sample_system (tt, (tt, (tt, (tt, tt)))) (inl refl)

ready-emit_check : emit_check ready sample_handler ≡ some (ready_task 4)
unfolding emit_check task_for
ready-emit_check = refl

emission_after_stop_example :
    let s =
      run
        (begin_emit ready ∷ request_stop ∷ end_emit 0 ∷ [])
        (record { handler = sample_handler; pending = [] }) in
    (s.handler.started ≡ false) × (s.handler.queue ≡ ready_task 4 ∷ [])
emission_after_stop_example =
    emission_after_stop ready (ready_task 4) sample_handler ready-emit_check

initialize_toggle_cache_lem_example :
    let cached = stored (idle_client.config.storage_provider.get idle_client.world) in
    let boot = usable_bootstrap idle_client.config in
    ((initialize_toggle_cache idle_client).flag_store
      ≡ replace (first_of_two cached boot) idle_client.flag_store)
    × ((initialize_toggle_cache idle_client).world ≡ (
        if is_some cached
        then idle_client.world
        else save_if boot idle_client.config.storage_provider.save idle_client.world))
initialize_toggle_cache_lem_example = initialize_toggle_cache_lem idle_client

single_fetch_toggles_lem_example :
    let f₀ = live_client.toggle_fetcher in
    ((encodes two_documents sample_context f₀ ≡ false)
      × (single_fetch_toggles two_documents answers sample_context live_client ≡ none))
    ⊎ ((encodes two_documents sample_context f₀ ≡ true)
        × (f : ToggleFetcher) × (r : FetchResult) × (c' : Client (Option ToggleSet)) × (fetch
              two_documents answers sample_context f₀
            ≡ some (f, r))
        × (single_fetch_toggles two_documents answers sample_context live_client ≡ some c')
        × Takes r (record live_client { toggle_fetcher = f }) c')
single_fetch_toggles_lem_example =
    single_fetch_toggles_lem two_documents answers sample_context live_client

-- A library for which no string is UTF-8, and a client that fetches with POST.
abbrev strict : Library
strict = record two_documents { is_utf8 = λ j. false }

abbrev posting_client : Client (Option ToggleSet)
posting_client = record live_client {
  toggle_fetcher = record (live_client.toggle_fetcher) {
    http_request = record (live_client.toggle_fetcher.http_request) { use_post_requests = true };
  };
}

posted_fetch-throws : single_fetch_toggles strict answers sample_context posting_client ≡ none
unfolding single_fetch_toggles handle_fetched fetch request_prepared prepare
    encode_context_request_body two_documents
posted_fetch-throws = refl

ok-is_success : is_success (pos 200) ≡ true
ok-is_success = ground arith

stored-is_ready : is_ready idle_client.flag_store ≡ true
unfolding is_ready
stored-is_ready = refl

abbrev counting_client : Client (Option ToggleSet)
counting_client = record live_client {
  metric_store = add_metric (enable (codes "plain") true) live_client.metric_store;
}

abbrev wake : MetricWake
wake = record { exit = false; stop_ms = pos 2500; reset_ms = pos 2501; client = answers }

send_metrics_lem_example :
    (c' : Client (Option ToggleSet)) × (r : Option MetricResult) × (send_metrics two_documents
        (λ s. codes "1970-01-01T00:00:02")
        wake
        counting_client
      ≡ some (c', r))
    × (c'.metric_store ≡ reset (pos 2501) counting_client.metric_store)
    × (is_some r ≡ not (is_store_empty counting_client.metric_store))
send_metrics_lem_example =
    send_metrics_lem two_documents (λ s. codes "1970-01-01T00:00:02") wake counting_client

is_enabled_lem_example :
    let enabled = Toggles.is_enabled (codes "tried") (snapshot live_client.flag_store) in
    ((Evaluate.is_enabled (codes "tried") live_client).1 ≡ (live_client.ready && enabled))
    × ((Evaluate.is_enabled (codes "tried") live_client).0.metric_store ≡ (
        if is_known (codes "tried") live_client
        then add_metric (enable (codes "tried") enabled) live_client.metric_store
        else live_client.metric_store))
    × ((Evaluate.is_enabled (codes "tried") live_client).0.event_handler ≡ (
        if is_known (codes "tried") live_client && wants_impression (codes "tried") live_client
        then emit
            (impression (record {
              ctx = live_client.context;
              flag_name = codes "tried";
              enabled = enabled;
              event_type = codes "isEnabled";
              impression_data =
                  Toggles.impression_data (codes "tried") (snapshot live_client.flag_store);
              variant = [];
            }))
            live_client.event_handler
        else live_client.event_handler))
    × ((Evaluate.is_enabled (codes "tried") live_client).0.flag_store ≡ live_client.flag_store)
is_enabled_lem_example = is_enabled_lem (codes "tried") live_client

get_variant_lem_example :
    let variant_of = Toggles.get_variant (codes "tried") (snapshot live_client.flag_store) in
    let enabled = Toggles.is_enabled (codes "tried") (snapshot live_client.flag_store) in
    ((Evaluate.get_variant (codes "tried") live_client).1
      ≡ (if live_client.ready then variant_of else disabled_factory))
    × ((Evaluate.get_variant (codes "tried") live_client).0.metric_store ≡ (
        if is_known (codes "tried") live_client
        then add_metric (variant (codes "tried") enabled variant_of.name) live_client.metric_store
        else live_client.metric_store))
    × ((Evaluate.get_variant (codes "tried") live_client).0.event_handler ≡ (
        if is_known (codes "tried") live_client && wants_impression (codes "tried") live_client
        then emit
            (impression (record {
              ctx = live_client.context;
              flag_name = codes "tried";
              enabled = enabled;
              event_type = codes "getVariant";
              impression_data =
                  Toggles.impression_data (codes "tried") (snapshot live_client.flag_store);
              variant = variant_of.name;
            }))
            live_client.event_handler
        else live_client.event_handler))
    × ((Evaluate.get_variant (codes "tried") live_client).0.flag_store ≡ live_client.flag_store)
get_variant_lem_example = get_variant_lem (codes "tried") live_client

abbrev calls : List Call
calls =
    call_start
    ∷ poll answers sample_context
    ∷ ask_enabled (codes "tried")
    ∷ report wake
    ∷ call_stop
    ∷ call_start
    ∷ []

perform_all-IsSound_example : IsSound (
    perform_all two_documents
      (λ s. codes "1970-01-01T00:00:02")
      calls
      (make_client (codes "1.0") (pos 0) sample_config sample_context none))
perform_all-IsSound_example =
    perform_all-IsSound two_documents (λ s. codes "1970-01-01T00:00:02") calls (codes "1.0") (pos 0)
      sample_config sample_context none

abbrev first_wake : PollWake
first_wake = record { exit = false; client = λ r. none }

callback_stop_terminates_example :
    (destroy_handler 3 in_callback ≡ destroyed)
    × (destroy_handler 3 (loop_steps 4 (stop_in_callback in_callback)) ≡ terminated)
callback_stop_terminates_example =
    callback_stop_terminates 3 4 (init_task 1) in_callback (omega arith) refl refl
