-- ===== src/Events/System/Order.antt =====
-- In which order the tasks that were queued are run, and what a stop leaves behind.
use unleash_cpp_sdk.Base.{
  All, Bool-cases, List, Option, Option-cases, [], ap, append-nil, append_assoc, arith, false,
  if◌then◌else◌, inl, inr, length, ltb, none, none≢some, refl, some, subst, sym, true, ◌++◌, ◌∙◌,
  ◌∷◌, ◌≡◌, ◌⊎◌,
}
use unleash_cpp_sdk.Events.{
  Event, Handler, Place, Task, at_queue, at_top, clear_all, emit_check, emit_push, finished, join,
  max_event_queue_size, on_event, running, start, stop_request, waiting,
}
use unleash_cpp_sdk.Events.Loop.{at, loop_step, pop_front, step_at}
use unleash_cpp_sdk.Events.System.{
  Action, System, act, begin_emit, clear, dispatch, end_emit, join_thread, on, push_if,
  request_stop, run, start_up, take_at,
}

current : Option Place → List Task
current (some (running t)) = t ∷ []
current _ = []

-- The tasks that were run, the one that is running, and the ones that wait, in this order.
unfoldable pub trace : Handler → List Task
unfolding current
trace h = h.ran ++ (current h.thread ++ h.queue)

-- The task that an action adds to the queue, if any: the second half of an emission that finds room.
unfoldable pub taken : Action → System → List Task
taken (end_emit n) s = elim (take_at n s.pending) [
  | none ↦ []
  | some t ↦ if ltb (length s.handler.queue) max_event_queue_size then t ∷ [] else []
]
taken _ s = []

unfoldable pub accepted : List Action → System → List Task
accepted [] s = []
accepted (a ∷ rest) s = taken a s ++ accepted rest (act a s)

abbrev pub NoStop : Action → Type 0
NoStop request_stop = ⊥
NoStop _ = Unit {0}

-- The handler is started, or its last thread was joined.
abbrev pub IsJoined : System → Type 0
IsJoined s = (s.handler.started ≡ true) ⊎ (s.handler.thread ≡ none)

pop_front-trace :
    (q : List Task) (h : Handler)
    → trace (pop_front q (record (at at_queue h) { queue = q })) ≡ h.ran ++ q
unfolding trace pop_front
pop_front-trace [] h = refl
pop_front-trace (t ∷ ts) h = refl

step_at-trace : (p : Place) (h : Handler) → trace (step_at p (at p h)) ≡ trace (at p h)
unfolding trace step_at
step_at-trace at_top h = ground arith
step_at-trace waiting h = ground arith
step_at-trace at_queue h = pop_front-trace h.queue h
step_at-trace finished h = refl
step_at-trace (running t) h = append_assoc h.ran (t ∷ []) h.queue

at_self : (p : Place) (h : Handler) → h.thread ≡ some p → at p h ≡ h
at_self p h e = ground arith

loop_step-none : (h : Handler) → h.thread ≡ none → loop_step h ≡ h
unfolding loop_step
loop_step-none h e = rw e

loop_step-at : (p : Place) (h : Handler) → loop_step (at p h) ≡ step_at p (at p h)
unfolding loop_step
loop_step-at p h = refl

-- A step of the dispatch thread loses no task, makes none up and keeps their order.
loop_step-trace : (h : Handler) → trace (loop_step h) ≡ trace h
loop_step-trace h = elim (Option-cases h.thread) [
  | inl e ↦ ap trace (loop_step-none h e)
  | inr (p, e) ↦
      subst (λ k. trace (loop_step k) ≡ trace k) (at_self p h e)
        (ap trace (loop_step-at p h) ∙ step_at-trace p h)
]

start-trace : (h : Handler) → (h.started ≡ true) ⊎ (h.thread ≡ none) → trace (start h) ≡ trace h
unfolding start trace
start-trace h (inl e) = rw (e, start)
start-trace h (inr n) = elim (Bool-cases h.started) [
  | inl e ↦ rw (e, start)
  | inr e ↦ rw (e, start, n)
]

join-trace : (h : Handler) → trace (join h) ≡ trace h
unfolding join trace
join-trace h = ground arith

push-trace :
    (o : Option Task) (h : Handler)
    → trace (push_if o h)
      ≡ trace h ++ elim o [
        | none ↦ []
        | some t ↦ if ltb (length h.queue) max_event_queue_size then t ∷ [] else []
      ]
unfolding trace emit_push
push-trace none h = sym (append-nil _)
push-trace (some t) h = ground (
  arith,
  append-nil (h.ran ++ (current h.thread ++ h.queue)),
  append_assoc h.ran (current h.thread ++ h.queue) (t ∷ []),
  append_assoc (current h.thread) h.queue (t ∷ []),
)

act-trace :
    (a : Action) (s : System)
    → NoStop a
    → IsJoined s
    → trace (act a s).handler ≡ trace s.handler ++ taken a s
unfolding act taken
act-trace start_up s n j = start-trace s.handler j ∙ sym (append-nil _)
act-trace request_stop s n j = absurd n
act-trace join_thread s n j = join-trace s.handler ∙ sym (append-nil _)
act-trace clear s n j = unfold clear_all trace in sym (append-nil _)
act-trace dispatch s n j = loop_step-trace s.handler ∙ sym (append-nil _)
act-trace (begin_emit e) s n j = sym (append-nil _)
act-trace (end_emit k) s n j = push-trace (take_at k s.pending) s.handler
act-trace (on slot cb) s n j = unfold on_event trace in sym (append-nil _)

act-IsJoined : (a : Action) (s : System) → NoStop a → IsJoined s → IsJoined (act a s)
unfolding act start join clear_all on_event loop_step
act-IsJoined start_up s n j = ground arith
act-IsJoined request_stop s n j = absurd n
act-IsJoined join_thread s n j = ground arith
act-IsJoined clear s n j = j
act-IsJoined dispatch s n j = ground arith
act-IsJoined (begin_emit e) s n j = j
act-IsJoined (end_emit k) s n j = unfold emit_push in ground arith
act-IsJoined (on slot cb) s n j = j

-- Until a stop is requested, however emissions, dispatches and new callbacks interleave: the tasks
-- run so far, then the one in progress, then the queued ones, are the tasks that found room in the
-- queue, in the order in which they were queued. None is lost, doubled, reordered or made up.
pub run-trace :
    (acts : List Action) (s : System)
    → All NoStop acts
    → IsJoined s
    → trace (run acts s).handler ≡ trace s.handler ++ accepted acts s
unfolding run accepted
run-trace [] s n j = sym (append-nil _)
run-trace (a ∷ rest) s n j =
    run-trace rest (act a s) n.1 (act-IsJoined a s n.0 j)
    ∙ (ap (λ l. l ++ accepted rest (act a s)) (act-trace a s n.0 j)
        ∙ append_assoc (trace s.handler) (taken a s) (accepted rest (act a s)))

emit_check-started :
    (e : Event) (t : Task) (h : Handler) → emit_check e h ≡ some t → h.started ≡ true
unfolding emit_check
emit_check-started e t h p = elim (Bool-cases h.started) [
  | inl s ↦ s
  | inr s ↦ absurd (none≢some (rw s at p))
]

stop_request-started :
    (h : Handler) → h.started ≡ true → stop_request h ≡ record h { started = false; queue = [] }
unfolding stop_request
stop_request-started h s = rw s

-- An emission that has passed its test when a stop is requested still queues its task, behind the
-- swap that was to drop all pending tasks: the task is left in the queue of a handler that is stopped.
pub emission_after_stop :
    (e : Event) (t : Task) (h : Handler)
    → emit_check e h ≡ some t
    → let s =
        run
          (begin_emit e ∷ request_stop ∷ end_emit 0 ∷ [])
          (record { handler = h; pending = [] }) in
      (s.handler.started ≡ false) × (s.handler.queue ≡ t ∷ [])
unfolding run act emit_push
emission_after_stop e t h p =
    rw (p, stop_request-started h (emit_check-started e t h p)) (refl, refl)
