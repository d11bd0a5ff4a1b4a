-- ===== src/Tests/Windows.antt =====
-- Two reports with questions in between, and questions during a report.
use unleash_cpp_sdk.Client.Evaluate.Questions.Effects.{ask_all-others}
use unleash_cpp_sdk.Base.{Option, Text, codes, false, pos, refl, some, true, ℤ, ◌≡◌}
use unleash_cpp_sdk.Client.State.{Client}
use unleash_cpp_sdk.Client.Threads.{MetricWake, send_metrics, wait_and_maybe_send}
use unleash_cpp_sdk.Client.Threads.InFlight.{in_flight_lost, send_metrics_while}
use unleash_cpp_sdk.Client.Threads.Windows.{Posts, next_window, with_body}
use unleash_cpp_sdk.Client.Evaluate.Questions.{ask_all}
use unleash_cpp_sdk.Client.Evaluate.Questions.Payload.{Tells}
use unleash_cpp_sdk.Domain.Toggles.{ToggleSet}
use unleash_cpp_sdk.Metrics.MetricSender.{MetricResult}
use unleash_cpp_sdk.Store.Flags.{snapshot}
use unleash_cpp_sdk.Utils.Times.{from_ms_ts_to_utc_time}
use unleash_cpp_sdk.Tests.Data.{answers, live_client, two_documents}
use unleash_cpp_sdk.Tests.Documents.{laws}
use unleash_cpp_sdk.Tests.Questions.{questions, tried-asked, tried-contains}

abbrev some_time : ℤ → Text
some_time s = codes "1970-01-01T00:00:02"

abbrev first_wake : MetricWake
first_wake = record { exit = false; stop_ms = pos 2500; reset_ms = pos 2501; client = answers }

abbrev next_wake : MetricWake
next_wake = record { exit = false; stop_ms = pos 4500; reset_ms = pos 4501; client = answers }

next_window_example :
    (c₁ c₂ : Client (Option ToggleSet)) × (root : two_documents.Json) × (wait_and_maybe_send
        two_documents some_time first_wake live_client
      ≡ some (c₁, true))
    × (wait_and_maybe_send two_documents some_time next_wake (ask_all questions c₁)
        ≡ some (c₂, true))
    × (c₂.metric_sender.http_request ≡ with_body c₁.metric_sender (two_documents.dump root))
    × Posts two_documents some_time next_wake
        (ask_all questions c₁)
        (with_body c₁.metric_sender (two_documents.dump root))
    × Tells two_documents root
        (snapshot live_client.flag_store)
        live_client.metric_store
        (from_ms_ts_to_utc_time some_time (pos 2501))
        (from_ms_ts_to_utc_time some_time (pos 4500))
        questions
next_window_example =
    next_window two_documents some_time laws first_wake next_wake questions live_client
      (codes "tried") refl refl refl tried-contains tried-asked

asked-ready : (ask_all questions live_client).ready ≡ true
asked-ready = (ask_all-others questions live_client refl).1

in_flight_lost_example :
    (c' c'' : Client (Option ToggleSet)) × (r : Option MetricResult) × (send_metrics_while
        two_documents some_time first_wake questions
        (ask_all questions live_client)
      ≡ some (c', r))
    × (send_metrics two_documents some_time first_wake (ask_all questions live_client)
        ≡ some (c'', r))
    × (c'.metric_store ≡ c''.metric_store)
    × (c'.metric_sender ≡ c''.metric_sender)
in_flight_lost_example =
    in_flight_lost two_documents some_time first_wake questions (ask_all questions live_client)
      asked-ready
