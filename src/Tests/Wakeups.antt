-- ===== src/Tests/Wakeups.antt =====
-- The dispatch thread, an emission and a `stop`.
use unleash_cpp_sdk.Events.Wakeups.Coarse.{
  Run, Run-loop_steps, goes, handler_at, having_run, moves_of, stays, tasks_of,
}
use unleash_cpp_sdk.Events.Loop.{loop_steps}
use unleash_cpp_sdk.Base.{[], length, put_at, refl, true, ℕ, ◌*◌, ◌+◌, ◌∷◌, ◌≡◌, ◌≢◌, ◌≤◌, ◌⊎◌}
use unleash_cpp_sdk.Events.{Callbacks, ready, ready_task, task_for}
use unleash_cpp_sdk.Events.Wakeups.{
  Reach, Shared, System, asleep, at_start, blocks, done, emits, fails, goes_on, holds_mutex, joins,
  later, locked, locks_again, loop_moves, new_loop, notify, passes, pops, push, pushes, ran,
  relocked, stop_called, swaps, to_notify, unlocks, wakes_all, woken,
}
use unleash_cpp_sdk.Events.Wakeups.Heard.{asleep_idle}
use unleash_cpp_sdk.Events.Wakeups.Drained.{CanMove, moves_in, pushes_in, stop_returns}
use unleash_cpp_sdk.Tests.Data.{sample_handler}

abbrev on_ready_only : Callbacks
on_ready_only = sample_handler.callbacks

abbrev idle_run : (s : System) × Reach on_ready_only (new_loop []) s
idle_run =
    let s₁ = later at_start (loop_moves (goes_on refl)) in
    let s₂ = later s₁ (loop_moves locked) in
    let s₃ = later s₂ (loop_moves (fails refl)) in (_, later s₃ (loop_moves blocks))

asleep_idle_example :
    (((i : ℕ) → idle_run.0.pc i ≢ to_notify) → idle_run.0.mem.queue ≡ [])
    × (idle_run.0.stopper ≢ joins)
asleep_idle_example = asleep_idle on_ready_only [] idle_run.0 idle_run.1 refl

-- An emission passes its test, then the handler is stopped, with the thread asleep.
abbrev joining : (s : System) × Reach on_ready_only (new_loop []) s
unfolding task_for holds_mutex notify put_at
joining =
    let s₁ = later idle_run.1 (emits 0 ready (ready_task 4) refl refl refl) in
    let s₂ = later s₁ (stop_called refl refl) in
    let s₃ = later s₂ (swaps refl refl) in (_, later s₃ (wakes_all refl))

-- Its task is pushed during the join, and the thread takes it.
abbrev draining : (t : System) × Reach on_ready_only joining.0 t
unfolding joining push holds_mutex notify put_at
draining =
    let s₁ = later at_start (pushes 0 (ready_task 4) refl refl) in
    let s₂ = later s₁ (loop_moves locks_again) in
    let s₃ = later s₂ (loop_moves (passes refl)) in
    (_, later s₃ (loop_moves (pops (ready_task 4) [] refl)))

stop_returns_example :
    (moves_in draining.1 ≤ 3 * (length joining.0.mem.queue + pushes_in draining.1) + 6)
    × ((draining.0.spot ≡ done)
        ⊎ ((draining.0.spot ≢ asleep) × CanMove draining.0.mem draining.0.spot))
unfolding joining
stop_returns_example = stop_returns on_ready_only [] joining.0 draining.0 joining.1 refl draining.1

abbrev one_task : Shared
one_task = record { started = true; queue = ready_task 4 ∷ [] }

-- The thread wakes, runs the task, and blocks again.
abbrev one_round : Run one_task woken (record { started = true; queue = [] }) asleep
one_round = goes locks_again (
    goes (passes refl) (
      goes (pops (ready_task 4) [] refl) (
        goes (ran (ready_task 4)) (
          goes relocked (
            goes (unlocks refl)
              (goes (goes_on refl) (goes locked (goes (fails refl) (goes blocks stays)))))))))

Run-loop_steps_example :
    (k : ℕ) × (k ≤ moves_of one_round)
    × (handler_at
          (record { started = true; queue = [] })
          asleep
          (having_run (tasks_of one_round) sample_handler)
        ≡ loop_steps k (handler_at one_task woken sample_handler))
Run-loop_steps_example = Run-loop_steps sample_handler one_round
