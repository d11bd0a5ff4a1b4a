-- ===== src/Events/System.antt =====
-- The handler under any interleaving of its dispatch thread and the threads that use it. An emission
-- is two actions, since its test of `_started` stands outside the lock.
pub mod Order
use unleash_cpp_sdk.Base.{
  List, Option, Option-cases, [], arith, inl, inr, length, length-append, none, some, suc, zero, ℕ,
  ◌++◌, ◌∷◌, ◌≤◌,
}
use unleash_cpp_sdk.Events.{
  Event, Handler, Slot, Task, clear_all, emit_check, emit_push, join, max_event_queue_size,
  on_event, start, stop_request,
}
use unleash_cpp_sdk.Events.Loop.{loop_step}

-- `pending` holds the tasks of the emissions between their two halves.
pub record System : Type 0 where
  pub handler : Handler
  pub pending : List Task

pub data Action : Type 0 where
  start_up request_stop join_thread clear dispatch : Action
  begin_emit : Event → Action
  end_emit : ℕ → Action
  on : Slot → Option ℕ → Action

abbrev pub take_at {ℓ} : {A : Type ℓ} → ℕ → List A → Option A
take_at n [] = none
take_at zero (x ∷ xs) = some x
take_at (suc n) (x ∷ xs) = take_at n xs

abbrev pub remove_at {ℓ} : {A : Type ℓ} → ℕ → List A → List A
remove_at n [] = []
remove_at zero (x ∷ xs) = xs
remove_at (suc n) (x ∷ xs) = x ∷ remove_at n xs

abbrev pub push_if : Option Task → Handler → Handler
push_if none h = h
push_if (some t) h = emit_push t h

abbrev pub add_if {ℓ} : {A : Type ℓ} → Option A → List A → List A
add_if none xs = xs
add_if (some x) xs = xs ++ x ∷ []

unfoldable pub act : Action → System → System
act start_up s = record s { handler = start s.handler }
act request_stop s = record s { handler = stop_request s.handler }
act join_thread s = record s { handler = join s.handler }
act clear s = record s { handler = clear_all s.handler }
act dispatch s = record s { handler = loop_step s.handler }
act (begin_emit e) s = record s { pending = add_if (emit_check e s.handler) s.pending }
act (end_emit n) s = record {
  handler = push_if (take_at n s.pending) s.handler;
  pending = remove_at n s.pending;
}
act (on slot cb) s = record s { handler = on_event slot cb s.handler }

unfoldable pub run : List Action → System → System
run [] s = s
run (a ∷ rest) s = run rest (act a s)

abbrev pub IsBounded : System → Type 0
IsBounded s = length s.handler.queue ≤ max_event_queue_size

emit_push-bound :
    (t : Task) (h : Handler)
    → length h.queue ≤ max_event_queue_size
    → length (emit_push t h).queue ≤ max_event_queue_size
unfolding emit_push
emit_push-bound t h b = ground (arith, length-append h.queue (t ∷ []))

loop_step-bound : (h : Handler) → length (loop_step h).queue ≤ length h.queue
unfolding loop_step
loop_step-bound h = ground arith

act-IsBounded : (a : Action) (s : System) → IsBounded s → IsBounded (act a s)
unfolding act start stop_request join clear_all on_event
act-IsBounded start_up s b = ground arith
act-IsBounded request_stop s b = ground arith
act-IsBounded join_thread s b = ground arith
act-IsBounded clear s b = b
act-IsBounded dispatch s b = omega (arith, loop_step-bound s.handler)
act-IsBounded (begin_emit e) s b = b
act-IsBounded (end_emit n) s b = elim (Option-cases (take_at n s.pending)) [
  | inl e ↦ rw e b
  | inr (t, e) ↦ rw e (emit_push-bound t s.handler b)
]
act-IsBounded (on slot cb) s b = b

-- However emissions, dispatches, starts and stops interleave, the event queue never holds more than
-- `maxEventQueueSize` tasks if it does not at first.
pub run-IsBounded : (acts : List Action) (s : System) → IsBounded s → IsBounded (run acts s)
unfolding run
run-IsBounded [] s b = b
run-IsBounded (a ∷ rest) s b = run-IsBounded rest (act a s) (act-IsBounded a s b)
