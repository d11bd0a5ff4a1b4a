-- ===== src/Client/Overlap/Races.antt =====
-- What a `stop` and a `start` of two callers can lead to when they overlap.
use unleash_cpp_sdk.Base.{arith, false, fun_ext, put_at, refl, subst, true, ℕ, ◌≡◌}
use unleash_cpp_sdk.Client.Overlap.{
  Pc, Reach, Shared, StartMove, StopMove, System, absent, at_start, create_polling, exit_cleared,
  exit_set, handler_off, handler_on, idle_system, is_absent, later, loop_moves, looping, outside,
  polling_created, polling_joined, polling_returns, running_stored, sending_assigned,
  sending_created, sending_joined, sending_returns, set_exit, start_first, stop_again, stop_first,
  stop_stored, stopping, store_stopped,
}

-- Moves of one caller in `start`, with no other move between them.
pub data StartRun (i : ℕ) (s : System) : System → Type 0 where
  no_move : StartRun i s s
  one_more :
      {t : System} {m : Shared} {p : Pc}
      → StartRun i s t
      → StartMove t.mem (t.pc i) m p
      → StartRun i s (record { mem = m; pc = put_at t.pc i p })

-- The client's members and its callers when the first of them is in `stop`, just behind its exchange.
abbrev pub behind_exchange : Shared → System
behind_exchange m = record {
  mem = record m { running = false };
  pc = put_at (λ i. outside) 0 set_exit;
}

-- On a client that runs, with a metrics thread that can be joined: one caller can be in `stop` just
-- behind its exchange, with all others outside; and if another then makes its moves in `start`, and
-- nothing else moves, up to and including the assignment of the metrics thread, then the process is
-- terminated.
pub overlap_terminates :
    (m : Shared)
    → m.running ≡ true
    → is_absent m.sending ≡ false
    → Reach (idle_system m) (behind_exchange m)
      × (s : System) × StartRun 1 (behind_exchange m) s
      × (s.pc 1 ≡ create_polling)
      × (s.mem.terminated ≡ true)
unfolding put_at
overlap_terminates m r t =
    let s₂ = one_more no_move (start_first refl) in
    let s₃ = one_more s₂ exit_cleared in
    let s₄ = one_more s₃ handler_on in
    (later at_start (stopping 0 (stop_first r)), _, one_more s₄ (sending_assigned t), refl, refl)

-- The first caller before its last access in `stop`, with both loops joined and the handler stopped.
abbrev pub before_last : Shared → System
before_last m = record {
  mem = record m {
    running = false;
    exit_threads = true;
    sending = absent;
    polling = absent;
    handler_started = false;
  };
  pc = put_at (λ i. outside) 0 store_stopped;
}

-- On a client that runs, with both loops running: one caller can be in `stop` before its last access,
-- with all others outside; a whole `start` of another caller can follow, from its exchange to its
-- return, with no other move between; and the first caller's last access then leaves all callers
-- outside and a client that does not count as running although both loops do run and the exit flag is
-- not set. Then `stop` returns at once.
pub stop_orphans_loops :
    (m : Shared)
    → m.running ≡ true
    → m.sending ≡ looping
    → m.polling ≡ looping
    → Reach (idle_system m) (before_last m)
      × (s : System) × StartRun 1 (before_last m) s
      × (s.pc 1 ≡ outside)
      × (s.mem.running ≡ true)
      × (n : Shared) × StopMove s.mem (s.pc 0) n outside
      × ((i : ℕ) → put_at s.pc 0 outside i ≡ outside)
      × (n.running ≡ false)
      × (n.exit_threads ≡ false)
      × (n.sending ≡ looping)
      × (n.polling ≡ looping)
      × StopMove n outside n outside
unfolding put_at
stop_orphans_loops m r t u =
    let s₁ = later at_start (stopping 0 (stop_first r)) in
    let s₂ = later s₁ (stopping 0 exit_set) in
    let s₃ = later s₂ (loop_moves (sending_returns t refl)) in
    let s₄ = later s₃ (loop_moves (polling_returns u refl)) in
    let s₅ = later s₄ (stopping 0 (sending_joined refl)) in
    let s₆ = later s₅ (stopping 0 (polling_joined refl)) in
    let s₈ = one_more no_move (start_first refl) in
    let s₉ = one_more s₈ exit_cleared in
    let s₁₀ = one_more s₉ handler_on in
    let s₁₁ = one_more s₁₀ (sending_created refl) in
    let s₁₂ = one_more s₁₁ (polling_created refl) in
    (
      subst (λ (pc : ℕ → Pc). Reach (idle_system m) (record (before_last m) { pc = pc }))
          (fun_ext (λ i. ground arith)) (later s₆ (stopping 0 handler_off)),
      _,
      one_more s₁₂ running_stored,
      refl,
      refl,
      _,
      stop_stored,
      (λ i. ground arith),
      refl,
      refl,
      refl,
      refl,
      stop_again refl,
    )
