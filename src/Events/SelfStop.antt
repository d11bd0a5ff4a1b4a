-- ===== src/Events/SelfStop.antt =====
-- The end of the event handler: `stop` to its join, the destructor, and a `stop` that a callback calls.
use unleash_cpp_sdk.Base.{
  [], ap, arith, false, if◌then◌else◌, is_some, some, suc, true, zero, ℕ, ◌∙◌, ◌≡◌, ◌≤◌,
}
use unleash_cpp_sdk.Events.{
  Handler, Place, Task, at_queue, at_top, finished, join, running, stop_request, waiting,
}
use unleash_cpp_sdk.Events.Loop.{loop_step, loop_steps}

-- `stop` of another thread; the dispatch thread makes n steps before the join looks at it.
unfoldable pub stop_outside : ℕ → Handler → Handler
stop_outside n h = if h.started then join (loop_steps n (stop_request h)) else h

-- `stop` called on the dispatch thread: it cannot join itself, `join` throws, and the loop catches the
-- exception. All that `stop` did before stands.
unfoldable pub stop_in_callback : Handler → Handler
stop_in_callback h = stop_request h

-- The destructor of a `std::thread` that can be joined calls `std::terminate`.
pub data End : Type 0 where
  destroyed terminated : End

unfoldable pub end_of_thread : Handler → End
end_of_thread h = if is_some h.thread then terminated else destroyed

-- `~EventHandler`, and then the destruction of its members.
unfoldable pub destroy_handler : ℕ → Handler → End
unfolding stop_outside end_of_thread
destroy_handler n h = end_of_thread (stop_outside n h)

-- Three steps take a thread whose handler is stopped out of its loops, and there it stays.
finished_stays :
    (n : ℕ) (h : Handler) → h.thread ≡ some finished → (loop_steps n h).thread ≡ some finished
unfolding loop_steps loop_step
finished_stays zero h e = e
finished_stays (suc n) h e = finished_stays n (loop_step h) (ground arith)

three_steps :
    (p : Place) (h : Handler)
    → h.started ≡ false
    → h.queue ≡ []
    → h.thread ≡ some p
    → (loop_steps 3 h).thread ≡ some finished
unfolding loop_steps loop_step
three_steps at_top h s q e = ground arith
three_steps waiting h s q e = ground arith
three_steps at_queue h s q e = ground arith
three_steps (running t) h s q e = ground arith
three_steps finished h s q e = ground arith

leaves_loops :
    (n : ℕ) (p : Place) (h : Handler)
    → 3 ≤ n
    → h.started ≡ false
    → h.queue ≡ []
    → h.thread ≡ some p
    → (loop_steps n h).thread ≡ some finished
unfolding loop_steps
leaves_loops zero p h k s q e = absurd (omega arith)
leaves_loops (suc zero) p h k s q e = absurd (omega arith)
leaves_loops (suc (suc zero)) p h k s q e = absurd (omega arith)
leaves_loops (suc (suc (suc n))) p h k s q e =
    finished_stays n (loop_step (loop_step (loop_step h))) (three_steps p h s q e)

-- A loop step keeps a handler that has a thread, and that is not started, so.
keeps_thread :
    (n : ℕ) (h : Handler)
    → h.started ≡ false
    → is_some h.thread ≡ true
    → ((loop_steps n h).started ≡ false) × (is_some (loop_steps n h).thread ≡ true)
unfolding loop_steps loop_step
keeps_thread zero h s e = (s, e)
keeps_thread (suc n) h s e = keeps_thread n (loop_step h) (ground arith) (ground arith)

destroy_stopped :
    (n : ℕ) (h : Handler)
    → h.started ≡ false
    → is_some h.thread ≡ true
    → destroy_handler n h ≡ terminated
unfolding destroy_handler
destroy_stopped n h s e = ground arith

join-finished : (h : Handler) → h.thread ≡ some finished → end_of_thread (join h) ≡ destroyed
unfolding join end_of_thread
join-finished h e = ground arith

stop_outside-started :
    (n : ℕ) (h : Handler)
    → h.started ≡ true
    → stop_outside n h ≡ join (loop_steps n (stop_request h))
unfolding stop_outside
stop_outside-started n h s = simp s

destroy_started :
    (n : ℕ) (p : Place) (h : Handler)
    → 3 ≤ n
    → h.started ≡ true
    → h.thread ≡ some p
    → destroy_handler n h ≡ destroyed
unfolding destroy_handler
destroy_started n p h k s e =
    ap end_of_thread (stop_outside-started n h s)
    ∙ join-finished (loop_steps n (stop_request h)) (
        leaves_loops n p (stop_request h) k (unfold stop_request in rw s)
          (unfold stop_request in rw s) (unfold stop_request in rw (s, e)))

-- While a handler that is started runs a callback: if another thread destroys it, and no emission adds a
-- task, then the dispatch thread leaves its loops within three steps and is joined, and the destruction
-- is in order. But if the callback calls `stop`, then the destruction of the handler terminates the
-- process, however many steps the thread makes before and meanwhile: the `stop` of the destructor
-- returns at once and joins nothing.
pub callback_stop_terminates :
    (n k : ℕ) (t : Task) (h : Handler)
    → 3 ≤ n
    → h.started ≡ true
    → h.thread ≡ some (running t)
    → (destroy_handler n h ≡ destroyed)
      × (destroy_handler n (loop_steps k (stop_in_callback h)) ≡ terminated)
unfolding stop_in_callback
callback_stop_terminates n k t h m s e =
    let (down, kept) =
      keeps_thread k (stop_request h) (unfold stop_request in rw s)
        (unfold stop_request in rw (s, e)) in
    (
      destroy_started n (running t) h m s e,
      destroy_stopped n (loop_steps k (stop_request h)) down kept,
    )
