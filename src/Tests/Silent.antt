-- ===== src/Tests/Silent.antt =====
-- Calls, threads and dispatches, one after the other.
use unleash_cpp_sdk.Base.{List, [], codes, none, pos, some, ◌∷◌}
use unleash_cpp_sdk.Client.Lifecycle.{call_start, call_stop, new_callback, poll}
use unleash_cpp_sdk.Client.Lifecycle.Silent.{
  Move, called, dispatches, joins, perform_moves, perform_moves-NeverInit,
}
use unleash_cpp_sdk.Client.State.{make_client}
use unleash_cpp_sdk.Events as Handlers
use unleash_cpp_sdk.Events.Loop.Uninitialised.{NeverInit}
use unleash_cpp_sdk.Tests.Data.{answers, sample_config, sample_context, two_documents}

-- An init callback is registered, and the client is started twice.
abbrev two_starts : List Move
two_starts =
    called (new_callback Handlers.on_init (some 0))
    ∷ called call_start
    ∷ dispatches
    ∷ called (poll answers sample_context)
    ∷ dispatches
    ∷ called call_stop
    ∷ dispatches
    ∷ joins
    ∷ called call_start
    ∷ []

perform_moves-NeverInit_example :
    NeverInit
      (perform_moves two_documents
        (λ s. codes "1970-01-01T00:00:02")
        two_starts
        (make_client (codes "1.0") (pos 0) sample_config sample_context none)).event_handler
perform_moves-NeverInit_example =
    perform_moves-NeverInit two_documents (λ s. codes "1970-01-01T00:00:02") two_starts
      (codes "1.0") (pos 0) sample_config sample_context none
