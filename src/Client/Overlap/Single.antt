-- ===== src/Client/Overlap/Single.antt =====
-- Calls of `start` and `stop` one after the other, between which the loops move.
use unleash_cpp_sdk.Client.Overlap.Invariant.{
  Inv, exit_set_at, handler_at, loop-Inv, polling_at, running_at, sending_at, start-Inv, stop-Inv,
}
use unleash_cpp_sdk.Base.{Bool-cases, arith, false, inl, inr, not, refl, true, ◌≡◌, ◌⊎◌}
use unleash_cpp_sdk.Client.State.{Client, start_client, stop_client}
use unleash_cpp_sdk.Client.State.Sound.{
  IsSound, start_client-sets, start_client_again, stop_client-sets, stop_client_again,
}
use unleash_cpp_sdk.Client.Overlap.{
  Loop, LoopMove, Pc, Shared, StartMove, StopMove, absent, clear_exit, create_polling,
  create_sending, exit_cleared, exit_set, handler_off, handler_on, is_absent, join_polling,
  join_sending, looping, outside, polling_assigned, polling_created, polling_joined,
  polling_missing, polling_returns, returned, running_stored, sending_assigned, sending_created,
  sending_joined, sending_missing, sending_returns, set_exit, shared, start_again, start_first,
  start_handler, stop_again, stop_first, stop_handler, stop_stored, store_running, store_stopped,
}

-- Where one caller and the loops come to from the members `m₀` with the caller outside.
pub data Alone (m₀ : Shared) : Shared → Pc → Type 0 where
  uncalled : Alone m₀ m₀ outside
  started : {m m' : Shared} {q p : Pc} → Alone m₀ m q → StartMove m q m' p → Alone m₀ m' p
  stopped : {m m' : Shared} {q p : Pc} → Alone m₀ m q → StopMove m q m' p → Alone m₀ m' p
  looped : {m m' : Shared} {q : Pc} → Alone m₀ m q → LoopMove m m' → Alone m₀ m' q

Alone-Inv : {m₀ m : Shared} {q : Pc} → Inv m₀ outside → Alone m₀ m q → Inv m q
Alone-Inv k uncalled = k
Alone-Inv k (started r mv) = start-Inv mv (Alone-Inv k r)
Alone-Inv k (stopped r mv) = stop-Inv mv (Alone-Inv k r)
Alone-Inv k (looped r mv) = loop-Inv mv (Alone-Inv k r)

-- The caller or a loop can move.
pub data Moves (m : Shared) (q : Pc) : Type 0 where
  by_start : {m' : Shared} {p : Pc} → StartMove m q m' p → Moves m q
  by_stop : {m' : Shared} {p : Pc} → StopMove m q m' p → Moves m q
  by_loop : {m' : Shared} → LoopMove m m' → Moves m q

Loop-cases : (t : Loop) → (t ≡ absent) ⊎ ((t ≡ looping) ⊎ (t ≡ returned))
Loop-cases absent = inl refl
Loop-cases looping = inr (inl refl)
Loop-cases returned = inr (inr refl)

absent_if : (t : Loop) → is_absent t ≡ true → t ≡ absent
unfolding is_absent
absent_if absent e = refl
absent_if looping e = cc
absent_if returned e = cc

Inv-Moves : {m : Shared} (q : Pc) → Inv m q → Moves m q
unfolding is_absent sending_at polling_at exit_set_at
Inv-Moves {m} outside k = elim (Bool-cases m.running) [
  | inl e ↦ by_start (start_again e)
  | inr e ↦ by_start (start_first e)
]
Inv-Moves clear_exit k = by_start exit_cleared
Inv-Moves start_handler k = by_start handler_on
Inv-Moves {m} create_sending k = elim (Bool-cases (is_absent m.sending)) [
  | inl e ↦ by_start (sending_created (absent_if m.sending e))
  | inr e ↦ by_start (sending_assigned e)
]
Inv-Moves {m} create_polling k = elim (Bool-cases (is_absent m.polling)) [
  | inl e ↦ by_start (polling_created (absent_if m.polling e))
  | inr e ↦ by_start (polling_assigned e)
]
Inv-Moves store_running k = by_start running_stored
Inv-Moves set_exit k = by_stop exit_set
Inv-Moves {m} join_sending k = elim (Loop-cases m.sending) [
  | inl e ↦ by_stop (sending_missing e)
  | inr (inl e) ↦ by_loop (sending_returns e (ground (arith, k.exit)))
  | inr (inr e) ↦ by_stop (sending_joined e)
]
Inv-Moves {m} join_polling k = elim (Loop-cases m.polling) [
  | inl e ↦ by_stop (polling_missing e)
  | inr (inl e) ↦ by_loop (polling_returns e (ground (arith, k.exit)))
  | inr (inr e) ↦ by_stop (polling_joined e)
]
Inv-Moves stop_handler k = by_stop handler_off
Inv-Moves store_stopped k = by_stop stop_stored

module _ {W : Type 0} where
  shared-Inv : (c : Client W) → IsSound c → Inv (shared c) outside
  unfolding shared running_at sending_at polling_at handler_at exit_set_at is_absent
  shared-Inv c s = record {
    running = refl;
    sending = ground (arith, s.loops);
    polling = ground (arith, s.loops);
    handler = s.handler;
    exit = refl;
    alive = refl;
  }

  -- From a sound client, and while calls do not overlap: no thread is assigned onto one that can be
  -- joined, and the caller or a loop can always move, so no join waits for a loop that does not
  -- return.
  pub Alone-Moves :
      (c : Client W) (m : Shared) (q : Pc)
      → IsSound c
      → Alone (shared c) m q
      → (m.terminated ≡ false) × Moves m q
  Alone-Moves c m q s r = let k = Alone-Inv (shared-Inv c s) r in (k.alive, Inv-Moves q k)

  -- After calls that do not overlap, on a sound client, there are threads to join and the handler is
  -- started exactly if the client runs.
  pub Alone-outside :
      (c : Client W) (m : Shared)
      → IsSound c
      → Alone (shared c) m outside
      → (not (is_absent m.sending) ≡ m.running)
        × (not (is_absent m.polling) ≡ m.running)
        × (m.handler_started ≡ m.running)
  unfolding sending_at polling_at handler_at
  Alone-outside c m s r = let k = Alone-Inv (shared-Inv c s) r in (k.sending, k.polling, k.handler)

  -- The shared members at the end of a `start`, and of a `stop`, that does its work.
  shared_up : Client W → Shared
  unfolding shared
  shared_up c = record (shared c) {
    running = true;
    exit_threads = false;
    handler_started = true;
    sending = looping;
    polling = looping;
  }

  shared_down : Client W → Shared
  unfolding shared
  shared_down c = record (shared c) {
    running = false;
    exit_threads = true;
    handler_started = false;
    sending = absent;
    polling = absent;
  }

  shared-start_client : (c : Client W) → c.running ≡ false → shared (start_client c) ≡ shared_up c
  unfolding shared shared_up
  shared-start_client c r = let (a, b, d, e, f) = start_client-sets c r in rw (a, b, d, e, f)

  shared-stop_client : (c : Client W) → c.running ≡ true → shared (stop_client c) ≡ shared_down c
  unfolding shared shared_down
  shared-stop_client c r = let (a, b, d, e, f) = stop_client-sets c r in rw (a, b, d, e, f)

  started_afresh :
      (c : Client W) → IsSound c → c.running ≡ false → Alone (shared c) (shared_up c) outside
  unfolding shared shared_up
  started_afresh c s r =
      let gone : (shared c).sending ≡ absent = rw (s.loops, r) in
      started
        (started
          (started (started (started (started uncalled (start_first r)) exit_cleared) handler_on)
            (sending_created gone))
          (polling_created gone))
        running_stored

  stopped_whole :
      (c : Client W) → IsSound c → c.running ≡ true → Alone (shared c) (shared_down c) outside
  unfolding shared shared_down
  stopped_whole c s r =
      let there : (shared c).sending ≡ looping = rw (s.loops, r) in
      let asked = stopped (stopped uncalled (stop_first r)) exit_set in
      let done = looped (looped asked (sending_returns there refl)) (polling_returns there refl) in
      stopped
        (stopped (stopped (stopped done (sending_joined refl)) (polling_joined refl)) handler_off)
        stop_stored

  -- Each whole call of `start` or of `stop` is one of the runs, the loops returning in between.
  pub calls-Alone :
      (c : Client W)
      → IsSound c
      → Alone (shared c) (shared (start_client c)) outside
        × Alone (shared c) (shared (stop_client c)) outside
  unfolding shared
  calls-Alone c s = elim (Bool-cases c.running) [
    | inl r ↦ (
      rw (start_client_again c r) (started uncalled (start_again r)),
      rw (shared-stop_client c r) (stopped_whole c s r),
    )
    | inr r ↦ (
      rw (shared-start_client c r) (started_afresh c s r),
      rw (stop_client_again c r) (stopped uncalled (stop_again r)),
    )
  ]
