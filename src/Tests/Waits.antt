-- ===== src/Tests/Waits.antt =====
-- The polling thread, a caller of `updateContext` and a `stop`.
use unleash_cpp_sdk.Client.Waits.Fetched.{LoopRun, moved, no_move, update_fetched}
use unleash_cpp_sdk.Base.{arith, false, put_at, refl, true, ℕ, ◌<◌, ◌≡◌, ◌≢◌, ◌≤◌, ◌⊎◌}
use unleash_cpp_sdk.Domain.Context.{empty_mutable}
use unleash_cpp_sdk.Client.Waits.{
  LoopMove, Reach, Shared, Step, System, asleep, at_start, blocks, calls, copied, fails,
  fetched_again, finished, first_copied, first_fetched, goes_on, holds_mutex, joins, later,
  leaves_on, locked, locks_late, loop_moves, new_loop, notifies, notify, outside, passes, requests,
  stopping, times_out, to_notify, updates, wakes,
}
use unleash_cpp_sdk.Client.Waits.Newest.{asleep_newest}
use unleash_cpp_sdk.Client.Waits.Exit.{
  CanMove, about_to_sleep, exit_ends, moves_in, requests_in, requests_left, stop_unheard,
}
use unleash_cpp_sdk.Tests.Data.{sample_context}

abbrev fresh : Shared
fresh = record {
  context = sample_context;
  context_updated = false;
  exit_threads = false;
  snapshot = sample_context;
  fetched = sample_context;
}

-- A change falls into the initial request, and the thread asks again before it sleeps.
abbrev changed_run : (s : System) × Reach (new_loop fresh) s
unfolding put_at holds_mutex notify
changed_run =
    let s₁ = later at_start (calls 0 empty_mutable refl) in
    let s₂ = later s₁ (loop_moves first_copied) in
    let s₃ = later s₂ (updates 0 empty_mutable refl refl) in
    let s₄ = later s₃ (notifies 0 refl) in
    let s₅ = later s₄ (loop_moves first_fetched) in
    let s₆ = later s₅ (loop_moves (goes_on refl)) in
    let s₇ = later s₆ (loop_moves locked) in
    let s₈ = later s₇ (loop_moves (passes refl)) in
    let s₉ = later s₈ (loop_moves (leaves_on refl)) in
    let t₁ = later s₉ (loop_moves copied) in
    let t₂ = later t₁ (loop_moves (requests refl)) in
    let t₃ = later t₂ (loop_moves fetched_again) in
    let t₄ = later t₃ (loop_moves (goes_on refl)) in
    let t₅ = later t₄ (loop_moves locked) in
    let t₆ = later t₅ (loop_moves (fails refl)) in (_, later t₆ (loop_moves blocks))

changed_run-outside : (i : ℕ) → changed_run.0.pc i ≢ to_notify
unfolding changed_run put_at
changed_run-outside i h = ground arith

asleep_newest_example :
    (changed_run.0.mem.context_updated ≡ false)
    × (changed_run.0.mem.fetched ≡ changed_run.0.mem.context)
unfolding changed_run notify
asleep_newest_example = asleep_newest fresh changed_run.0 changed_run.1 refl changed_run-outside

-- The system after the change, and the thirteen moves that follow.
abbrev in_request : (s : System) × Reach (new_loop fresh) s
unfolding put_at holds_mutex notify
in_request =
    let s₁ = later at_start (calls 0 empty_mutable refl) in
    let s₂ = later s₁ (loop_moves first_copied) in
    let s₃ = later s₂ (updates 0 empty_mutable refl refl) in (_, later s₃ (notifies 0 refl))

abbrev asks_again : (t : System) × LoopRun in_request.0 13 t
unfolding in_request notify
asks_again =
    let s₁ = moved no_move first_fetched in
    let s₂ = moved s₁ (goes_on refl) in
    let s₃ = moved s₂ locked in
    let s₄ = moved s₃ (passes refl) in
    let s₅ = moved s₄ (leaves_on refl) in
    let s₆ = moved s₅ copied in
    let s₇ = moved s₆ (requests refl) in
    let s₈ = moved s₇ fetched_again in
    let s₉ = moved s₈ (goes_on refl) in
    let t₁ = moved s₉ locked in
    let t₂ = moved t₁ (fails refl) in let t₃ = moved t₂ blocks in (_, moved t₃ wakes)

in_request-outside : (i : ℕ) → in_request.0.pc i ≢ to_notify
unfolding in_request put_at
in_request-outside i h = ground arith

update_fetched_example :
    (12 < 13 → asks_again.0.mem.fetched ≡ in_request.0.mem.context)
    × (asks_again.0.mem.fetched ≢ in_request.0.mem.context → asks_again.0.place ≢ asleep)
unfolding in_request
update_fetched_example =
    update_fetched fresh in_request.0 asks_again.0 13 in_request.1 in_request-outside refl
      asks_again.1

-- The thread sleeps while the flag is set.
abbrev stopped_asleep : System
stopped_asleep = record { mem = stopping fresh; place = asleep; pc = λ i. outside; stopper = joins }

abbrev late_run : (s : System) × Reach stopped_asleep s
late_run = let s₁ = later at_start (loop_moves times_out) in (_, later s₁ (loop_moves locks_late))

exit_ends_example :
    (moves_in late_run.1 ≤ 6)
    × (requests_in late_run.1 ≤ requests_left asleep)
    × (requests_left asleep ≤ 1)
    × ((late_run.0.place ≡ finished) ⊎ CanMove late_run.0.mem late_run.0.place)
exit_ends_example = exit_ends stopped_asleep late_run.0 late_run.1 refl

stop_unheard_example :
    (t : System) × Reach (about_to_sleep fresh (λ i. outside)) t
    × (t.stopper ≡ joins)
    × (t.mem.exit_threads ≡ true)
    × (t.place ≡ asleep)
    × ((u : System) → Step t u → (u.place ≡ asleep) ⊎ LoopMove t.mem t.place u.mem u.place)
stop_unheard_example = stop_unheard fresh (λ i. outside) (λ i. refl)
