-- ===== src/Events/Loop.antt =====
-- `EventHandler::eventLoop`, one atomic step of the dispatch thread at a time.
pub mod Uninitialised
use unleash_cpp_sdk.Base.{
  List, [], append-nil, append_assoc, arith, if◌then◌else◌, is_empty, none, not, refl, some, subst,
  suc, zero, ℕ, ◌++◌, ◌||◌, ◌∙◌, ◌∷◌, ◌≡◌,
}
use unleash_cpp_sdk.Events.{Handler, Place, Task, at_queue, at_top, finished, running, waiting}

-- At the test of the inner loop the front task is popped, and the lock released to run it.
unfoldable pub pop_front : List Task → Handler → Handler
pop_front [] h = record h { thread = some at_top }
pop_front (t ∷ ts) h = record h { queue = ts; thread = some (running t) }

-- One step of the thread; a wait whose predicate is false does not move.
unfoldable pub step_at : Place → Handler → Handler
unfolding pop_front
step_at at_top h = record h { thread = some (if h.started then waiting else finished) }
step_at waiting h =
    if not (is_empty h.queue) || not h.started then record h { thread = some at_queue } else h
step_at at_queue h = pop_front h.queue h
step_at (running t) h = record h { ran = h.ran ++ t ∷ []; thread = some at_queue }
step_at finished h = h

unfoldable pub loop_step : Handler → Handler
unfolding step_at
loop_step h = elim h.thread [ none ↦ h | some p ↦ step_at p h ]

unfoldable pub loop_steps : ℕ → Handler → Handler
loop_steps zero h = h
loop_steps (suc n) h = loop_steps n (loop_step h)

abbrev pub at : Place → Handler → Handler
at p h = record h { thread = some p }

-- The two steps by which the thread takes a task and runs it.
run_one :
    (h : Handler) (t : Task) (ts : List Task) (n : ℕ)
    → loop_steps (suc (suc n)) (record (at at_queue h) { queue = t ∷ ts })
      ≡ loop_steps n (record (at at_queue h) { queue = ts; ran = h.ran ++ t ∷ [] })
unfolding loop_steps loop_step
run_one h t ts n = refl

-- Enough steps to run every task of a queue.
abbrev pub rounds : List Task → ℕ
rounds [] = 2
rounds (t ∷ ts) = suc (suc (rounds ts))

drain-from :
    (q : List Task) (h : Handler)
    → loop_steps (rounds q) (record (at at_queue h) { queue = q }) ≡ record h {
      queue = [];
      ran = h.ran ++ q;
      thread = some (if h.started then waiting else finished);
    }
unfolding loop_steps loop_step
drain-from [] h = rw append-nil
drain-from (t ∷ ts) h =
    drain-from ts (record h { ran = h.ran ++ t ∷ [] }) ∙ rw (append_assoc h.ran (t ∷ []) ts)

-- Unless a thread emits meanwhile, the dispatch thread runs every queued task, once and in the order
-- of the queue, within two steps for each and two more; then it waits if the handler is started, and
-- has left its loops if a stop was requested.
pub loop_steps-drain :
    (h : Handler)
    → h.thread ≡ some at_queue
    → loop_steps (rounds h.queue) h ≡ record h {
      queue = [];
      ran = h.ran ++ h.queue;
      thread = some (if h.started then waiting else finished);
    }
loop_steps-drain h e =
    subst
      (λ k. loop_steps (rounds h.queue) k ≡ record h {
        queue = [];
        ran = h.ran ++ h.queue;
        thread = some (if h.started then waiting else finished);
      })
      (ground arith) (drain-from h.queue h)
