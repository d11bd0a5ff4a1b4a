-- ===== src/Events/Wakeups/Coarse.antt =====
-- The dispatch thread with its wait, against the one of `Events/Loop`, whose wait is one step.
use unleash_cpp_sdk.Base.{
  List, [], ap, append-nil, append_assoc, arith, inl, inr, refl, some, suc, ℕ, ◌++◌, ◌∙◌, ◌∷◌, ◌≡◌,
  ◌≤◌, ◌⊎◌,
}
use unleash_cpp_sdk.Events.{Handler, Place, Task, at_queue, at_top, finished, running, waiting}
use unleash_cpp_sdk.Events.Loop.{loop_step, loop_steps}
use unleash_cpp_sdk.Events.Wakeups.{
  LoopMove, Shared, Spot, asleep, at_head, blocks, done, ends, fails, goes_on, in_queue, locked,
  locks, locks_again, passes, pops, ran, relocked, relocks, runs, sleeps, tests, unlocks, wakes,
  woken,
}

-- All steps of the wait stand for the one place before it.
unfoldable pub place_of : Spot → Place
place_of at_head = at_top
place_of locks = waiting
place_of tests = waiting
place_of sleeps = waiting
place_of asleep = waiting
place_of woken = waiting
place_of in_queue = at_queue
place_of relocks = at_queue
place_of done = finished
place_of (runs t) = running t

-- The handler with these members, its dispatch thread at this spot.
abbrev pub handler_at : Shared → Spot → Handler → Handler
handler_at m p h = record h { started = m.started; queue = m.queue; thread = some (place_of p) }

-- The task that a move has run: the callback returns.
unfoldable pub ran_in : {m m' : Shared} {p p' : Spot} → LoopMove m p m' p' → List Task
ran_in (ran t) = t ∷ []
ran_in _ = []

abbrev pub having_run : List Task → Handler → Handler
having_run ts h = record h { ran = h.ran ++ ts }

having_run-nil :
    (m : Shared) (p : Spot) (h : Handler) → handler_at m p (having_run [] h) ≡ handler_at m p h
having_run-nil m p h = rw append-nil

LoopMove-loop_step :
    {m m' : Shared} {p p' : Spot} (h : Handler) (mv : LoopMove m p m' p')
    → (handler_at m' p' (having_run (ran_in mv) h) ≡ handler_at m p h)
      ⊎ (handler_at m' p' (having_run (ran_in mv) h) ≡ loop_step (handler_at m p h))
unfolding place_of loop_step ran_in
LoopMove-loop_step {m} h (goes_on e) = inr (having_run-nil m locks h ∙ ground arith)
LoopMove-loop_step {m} h (ends e) = inr (having_run-nil m done h ∙ ground arith)
LoopMove-loop_step {m} h locked = inl (having_run-nil m tests h)
LoopMove-loop_step {m} h (passes e) = inr (having_run-nil m in_queue h ∙ ground arith)
LoopMove-loop_step {m} h (fails e) = inl (having_run-nil m sleeps h)
LoopMove-loop_step {m} h blocks = inl (having_run-nil m asleep h)
LoopMove-loop_step {m} h wakes = inl (having_run-nil m woken h)
LoopMove-loop_step {m} h locks_again = inl (having_run-nil m tests h)
LoopMove-loop_step {m} h (pops t ts e) =
    inr (having_run-nil (record m { queue = ts }) (runs t) h ∙ ground arith)
LoopMove-loop_step {m} h (unlocks e) = inr (having_run-nil m at_head h ∙ ground arith)
LoopMove-loop_step h (ran t) = inr refl
LoopMove-loop_step {m} h relocked = inl (having_run-nil m in_queue h)

-- Moves of the dispatch thread alone, their number and the tasks that they run.
pub data Run : Shared → Spot → Shared → Spot → Type 0 where
  stays : {m : Shared} {p : Spot} → Run m p m p
  goes :
      {m m' m'' : Shared} {p p' p'' : Spot}
      → LoopMove m p m' p'
      → Run m' p' m'' p''
      → Run m p m'' p''

unfoldable pub moves_of : {m m' : Shared} {p p' : Spot} → Run m p m' p' → ℕ
moves_of stays = 0
moves_of (goes mv r) = suc (moves_of r)

unfoldable pub tasks_of : {m m' : Shared} {p p' : Spot} → Run m p m' p' → List Task
unfolding ran_in
tasks_of stays = []
tasks_of (goes mv r) = ran_in mv ++ tasks_of r

-- The dispatch thread with all the steps of its mutex and its wait refines the coarser one, whose wait is
-- one step: any n moves of it have run the tasks, and lead to the handler, that at most n steps of the
-- coarser thread run and lead to.
pub Run-loop_steps :
    {m m' : Shared} {p p' : Spot} (h : Handler) (r : Run m p m' p')
    → (k : ℕ) × (k ≤ moves_of r)
      × (handler_at m' p' (having_run (tasks_of r) h) ≡ loop_steps k (handler_at m p h))
unfolding moves_of tasks_of loop_steps
Run-loop_steps {m} {m'} {p} {p'} h stays =
    (0, omega arith, having_run-nil m p h ∙ unfold loop_steps in refl)
Run-loop_steps {m} {m'} {p} {p'} h (goes {m' = m₁} {p' = p₁} mv r) =
    let (k, b, e) = Run-loop_steps (having_run (ran_in mv) h) r in
    let joined : handler_at m' p' (having_run (ran_in mv ++ tasks_of r) h)
        ≡ loop_steps k (handler_at m₁ p₁ (having_run (ran_in mv) h)) =
      rw (← append_assoc h.ran (ran_in mv) (tasks_of r)) e in
    elim (LoopMove-loop_step h mv) [
      | inl q ↦ (k, omega arith, joined ∙ ap (loop_steps k) q)
      | inr q ↦ (suc k, omega arith, joined ∙ ap (loop_steps k) q)
    ]
