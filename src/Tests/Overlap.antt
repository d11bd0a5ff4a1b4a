-- ===== src/Tests/Overlap.antt =====
-- Calls of `start` and `stop` that overlap, and that do not.
use unleash_cpp_sdk.Base.{arith, false, put_at, refl, true, ℕ, ◌≡◌, ◌⊎◌}
use unleash_cpp_sdk.Client.State.{start_client}
use unleash_cpp_sdk.Client.State.Sound.{IsSound}
use unleash_cpp_sdk.Client.Overlap.{
  Reach, Shared, StopMove, System, absent, create_polling, exit_cleared, idle_system, is_absent,
  looping, outside, shared, start_again, start_first,
}
use unleash_cpp_sdk.Client.Overlap.Starts.{Started, started, starts_never_terminate, uncalled}
use unleash_cpp_sdk.Client.Overlap.Single.{Alone-Moves, Moves, calls-Alone}
use unleash_cpp_sdk.Client.Overlap.Races.{
  StartRun, before_last, behind_exchange, overlap_terminates, stop_orphans_loops,
}
use unleash_cpp_sdk.Store.Flags.{is_ready}
use unleash_cpp_sdk.Tests.Data.{idle_client}

abbrev down : Shared
down = record {
  running = false;
  exit_threads = false;
  handler_started = false;
  sending = absent;
  polling = absent;
  terminated = false;
  reports = true;
  refreshes = true;
}

abbrev up : Shared
up = record {
  running = true;
  exit_threads = false;
  handler_started = true;
  sending = looping;
  polling = looping;
  terminated = false;
  reports = true;
  refreshes = true;
}

-- Caller 0 is past the exchange when caller 1 calls.
abbrev two_starts : (s : System) × Started (idle_system down) s
unfolding put_at
two_starts =
    let s₁ = started uncalled 0 (start_first refl) in
    let s₂ = started s₁ 1 (start_again refl) in (_, started s₂ 0 exit_cleared)

starts_never_terminate_example :
    (two_starts.0.mem.terminated ≡ false)
    × ((two_starts.0.pc 0 ≡ outside) ⊎ (two_starts.0.pc 1 ≡ outside))
starts_never_terminate_example =
    starts_never_terminate down two_starts.0 refl refl (refl, refl) two_starts.1 0 1 (omega arith)

idle_client-IsSound : IsSound idle_client
unfolding is_ready
idle_client-IsSound = record { loops = refl; handler = refl; exits = refl; snapshot = refl }

Alone-Moves_example :
    ((shared (start_client idle_client)).terminated ≡ false)
    × Moves (shared (start_client idle_client)) outside
Alone-Moves_example =
    Alone-Moves idle_client (shared (start_client idle_client)) outside idle_client-IsSound
      (calls-Alone idle_client idle_client-IsSound).0

overlap_terminates_example :
    Reach (idle_system up) (behind_exchange up)
    × (s : System) × StartRun 1 (behind_exchange up) s
    × (s.pc 1 ≡ create_polling)
    × (s.mem.terminated ≡ true)
overlap_terminates_example = overlap_terminates up refl (unfold is_absent in refl)

stop_orphans_loops_example :
    Reach (idle_system up) (before_last up)
    × (s : System) × StartRun 1 (before_last up) s
    × (s.pc 1 ≡ outside)
    × (s.mem.running ≡ true)
    × (n : Shared) × StopMove s.mem (s.pc 0) n outside
    × ((i : ℕ) → put_at s.pc 0 outside i ≡ outside)
    × (n.running ≡ false)
    × (n.exit_threads ≡ false)
    × (n.sending ≡ looping)
    × (n.polling ≡ looping)
    × StopMove n outside n outside
stop_orphans_loops_example = stop_orphans_loops up refl refl refl
