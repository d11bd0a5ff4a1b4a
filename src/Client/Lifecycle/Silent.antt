-- ===== src/Client/Lifecycle/Silent.antt =====
-- The init event over any sequence of calls, of work of the threads and of dispatches.
use unleash_cpp_sdk.Domain.Context.{Context}
use unleash_cpp_sdk.Config.{ClientConfig}
use unleash_cpp_sdk.Base.{
  Bool, Bool-cases, List, Option, Text, [], ap, arith, false, if◌then◌else◌, inl, inr, none, refl,
  some, subst, sym, true, ℤ, ◌&&◌, ◌∙◌, ◌∷◌, ◌≡◌, ◌⊎◌,
}
use unleash_cpp_sdk.Client.Evaluate.Effects.{
  get_variant_lem, is_enabled_lem, is_known, wants_impression,
}
use unleash_cpp_sdk.Client.Lifecycle.{
  Call, ask_enabled, ask_variant, call_start, call_stop, new_callback, new_context, perform,
  perform-IsSound, poll, report,
}
use unleash_cpp_sdk.Client.State.{
  Client, make_client, on_callback, start_client, stop_client, update_context,
}
use unleash_cpp_sdk.Client.State.Cache.{start_client_silent}
use unleash_cpp_sdk.Client.State.Sound.{
  IsSound, make_client-IsSound, make_client-handler, start_client_again,
}
use unleash_cpp_sdk.Client.Threads.Emissions.{
  IsKept, single_fetch_toggles-kept, wait_and_maybe_send-kept,
}
use unleash_cpp_sdk.Events as Handlers
use unleash_cpp_sdk.Events.{
  Handler, Place, emit, error, finished, impression, on_event, ready, stop_request, update,
}
use unleash_cpp_sdk.Events.Loop.{loop_step}
use unleash_cpp_sdk.Events.Loop.Uninitialised.{NeverInit, emit-NeverInit, loop_step-NeverInit}
use unleash_cpp_sdk.Json.Library.{Library}

-- A call or a fetch or a report, a step of the dispatch thread, or the handler's join.
pub data Move : Type 0 where
  called : Call → Move
  dispatches joins : Move

NeverInit-IsKept : IsKept NeverInit
NeverInit-IsKept = record {
  at_ready = λ h k. emit-NeverInit ready h tt k;
  at_update = λ h k. emit-NeverInit update h tt k;
  at_error = λ e h k. emit-NeverInit (error e) h tt k;
  at_impression = λ e h k. emit-NeverInit (impression e) h tt k;
}

start-NeverInit : (h : Handler) → NeverInit h → NeverInit (Handlers.start h)
unfolding Handlers.start
start-NeverInit h (q, p, r) = elim (Bool-cases h.started) [
  | inl s ↦ rw s (q, p, r)
  | inr s ↦ rw s (q, tt, r)
]

stop_request-NeverInit : (h : Handler) → NeverInit h → NeverInit (stop_request h)
unfolding stop_request
stop_request-NeverInit h (q, p, r) = elim (Bool-cases h.started) [
  | inl s ↦ rw s (tt, p, r)
  | inr s ↦ rw s (q, p, r)
]

join_at :
    (h : Handler) (o : Option Place)
    → let r : Handler = elim o [ some finished ↦ record h { thread = none } | _ ↦ h ] in
      (r ≡ h) ⊎ (r ≡ record h { thread = none })
join_at h none = inl refl
join_at h (some finished) = inr refl
join_at h (some p) = inl refl

join-cases : (h : Handler) → (Handlers.join h ≡ h) ⊎ (Handlers.join h ≡ record h { thread = none })
unfolding Handlers.join
join-cases h = join_at h h.thread

join-NeverInit : (h : Handler) → NeverInit h → NeverInit (Handlers.join h)
join-NeverInit h (q, p, r) = elim (join-cases h) [
  | inl e ↦ subst NeverInit (sym e) (q, p, r)
  | inr e ↦ subst NeverInit (sym e) (q, tt, r)
]

-- An impression is emitted, or not.
impression_if-NeverInit :
    (b : Bool) (e : Handlers.ClientImpression) (h : Handler)
    → NeverInit h
    → NeverInit (if b then emit (impression e) h else h)
impression_if-NeverInit true e h k = emit-NeverInit (impression e) h tt k
impression_if-NeverInit false e h k = k

loop_step-started : (h : Handler) → (loop_step h).started ≡ h.started
unfolding loop_step
loop_step-started h = ground arith

join-started : (h : Handler) → (Handlers.join h).started ≡ h.started
join-started h = elim (join-cases h) [
  | inl e ↦ ap (λ (x : Handler). x.started) e
  | inr e ↦ ap (λ (x : Handler). x.started) e
]

module _ {W : Type 0} where
  make_client-Quiet :
      (version : Text) (now : ℤ) (config : ClientConfig W) (context : Context) (world : W)
      → NeverInit (make_client version now config context world).event_handler
  make_client-Quiet version now config context world =
      subst NeverInit (sym (make_client-handler version now config context world)) (tt, tt, tt)

  abbrev Quiet : Client W → Type 0
  Quiet c = NeverInit c.event_handler

  start_client-Quiet : (c : Client W) → IsSound c → Quiet c → Quiet (start_client c)
  start_client-Quiet c s k = elim (Bool-cases c.running) [
    | inl r ↦ subst Quiet (sym (start_client_again c r)) k
    | inr r ↦
        subst NeverInit (sym (start_client_silent c r (s.handler ∙ r)).0)
          (start-NeverInit c.event_handler k)
  ]

  stop_client-Quiet : (c : Client W) → Quiet c → Quiet (stop_client c)
  unfolding stop_client
  stop_client-Quiet c k = elim (Bool-cases c.running) [
    | inl r ↦ rw r (stop_request-NeverInit c.event_handler k)
    | inr r ↦ rw r k
  ]

module _ {W : Type 0} (l : Library) (utc : ℤ → Text) where
  perform-Quiet : (a : Call) (c : Client W) → IsSound c → Quiet c → Quiet (perform l utc a c)
  unfolding perform
  perform-Quiet call_start c s k = start_client-Quiet c s k
  perform-Quiet call_stop c s k = stop_client-Quiet c k
  perform-Quiet (ask_enabled name) c s k =
      subst NeverInit (sym (is_enabled_lem name c).2)
        (impression_if-NeverInit (is_known name c && wants_impression name c) _ c.event_handler k)
  perform-Quiet (ask_variant name) c s k =
      subst NeverInit (sym (get_variant_lem name c).2)
        (impression_if-NeverInit (is_known name c && wants_impression name c) _ c.event_handler k)
  perform-Quiet (new_context mc) c s k = unfold update_context in k
  perform-Quiet (new_callback slot cb) c s k = unfold on_callback on_event in k
  perform-Quiet (poll client ctx) c s k =
      single_fetch_toggles-kept NeverInit NeverInit-IsKept l client ctx c k
  perform-Quiet (report w) c s k = wait_and_maybe_send-kept NeverInit NeverInit-IsKept l utc w c k

  unfoldable pub perform_move : Move → Client W → Client W
  perform_move (called a) c = perform l utc a c
  perform_move dispatches c = record c { event_handler = loop_step c.event_handler }
  perform_move joins c = record c { event_handler = Handlers.join c.event_handler }

  unfoldable pub perform_moves : List Move → Client W → Client W
  unfolding perform_move
  perform_moves [] c = c
  perform_moves (m ∷ ms) c = perform_moves ms (perform_move m c)

  perform_move-Quiet : (m : Move) (c : Client W) → IsSound c → Quiet c → Quiet (perform_move m c)
  unfolding perform_move
  perform_move-Quiet (called a) c s k = perform-Quiet a c s k
  perform_move-Quiet dispatches c s k = loop_step-NeverInit c.event_handler k
  perform_move-Quiet joins c s k = join-NeverInit c.event_handler k

  perform_move-IsSound : (m : Move) (c : Client W) → IsSound c → IsSound (perform_move m c)
  unfolding perform_move
  perform_move-IsSound (called a) c s = perform-IsSound l utc a c s
  perform_move-IsSound dispatches c s = record {
    loops = s.loops;
    handler = loop_step-started c.event_handler ∙ s.handler;
    exits = s.exits;
    snapshot = s.snapshot;
  }
  perform_move-IsSound joins c s = record {
    loops = s.loops;
    handler = join-started c.event_handler ∙ s.handler;
    exits = s.exits;
    snapshot = s.snapshot;
  }

  perform_moves-Quiet :
      (ms : List Move) (c : Client W) → IsSound c → Quiet c → Quiet (perform_moves ms c)
  unfolding perform_moves
  perform_moves-Quiet [] c s k = k
  perform_moves-Quiet (m ∷ ms) c s k =
      perform_moves-Quiet ms (perform_move m c) (perform_move-IsSound m c s)
        (perform_move-Quiet m c s k)

  -- However starts, stops, questions, callbacks, fetches and reports on a new client follow one another,
  -- and wherever the steps of the dispatch thread and its joins fall between them: the callback of the init
  -- event is never queued, in progress or past, although each `start` emits this event.
  pub perform_moves-NeverInit :
      (ms : List Move) (version : Text) (now : ℤ) (config : ClientConfig W) (context : Context)
      (world : W)
      → NeverInit (perform_moves ms (make_client version now config context world)).event_handler
  perform_moves-NeverInit ms version now config context world =
      perform_moves-Quiet ms _ (make_client-IsSound version now config context world)
        (make_client-Quiet version now config context world)
