-- ===== src/Events/Wakeups.antt =====
-- The condition variable of the event handler: `eventLoop` with the steps of its wait, which has no
-- time-out, any number of emitting threads, and one `stop`. A critical section of an emission or of
-- `stop` is one step, which the mutex allows while the dispatch thread does not hold it.
pub mod Heard
pub mod Drained
pub mod Coarse
use unleash_cpp_sdk.Base.{
  Bool, List, [], false, if◌then◌else◌, is_empty, length, ltb, not, put_at, some, true, ℕ, ◌++◌,
  ◌||◌, ◌∷◌, ◌≡◌,
}
use unleash_cpp_sdk.Events.{Callbacks, Event, Task, max_event_queue_size, task_for}

-- Where the dispatch thread stands. It holds the mutex from `tests` to `sleeps`, and at `in_queue`
-- before the test of the inner loop; it runs a task without the mutex and then locks again.
pub data Spot : Type 0 where
  at_head locks tests sleeps asleep woken in_queue relocks done : Spot
  runs : Task → Spot

unfoldable pub holds_mutex : Spot → Bool
holds_mutex tests = true
holds_mutex sleeps = true
holds_mutex in_queue = true
holds_mutex _ = false

-- An emitting thread: outside, before the lock with its task, and before the notification.
pub data Emitter : Type 0 where
  outside to_notify : Emitter
  to_push : Task → Emitter

-- The caller of `stop`: before and behind the exchange, behind the swap, and in the join.
pub data Stopper : Type 0 where
  quiet to_swap to_wake joins : Stopper

pub record Shared : Type 0 where
  pub started : Bool
  pub queue : List Task

unfoldable pub push : Task → List Task → List Task
push t q = if ltb (length q) max_event_queue_size then q ++ t ∷ [] else q

unfoldable pub notify : Spot → Spot
notify asleep = woken
notify p = p

pub data LoopMove (m : Shared) : Spot → Shared → Spot → Type 0 where
  goes_on : m.started ≡ true → LoopMove m at_head m locks
  ends : m.started ≡ false → LoopMove m at_head m done
  locked : LoopMove m locks m tests
  passes : (not (is_empty m.queue) || not m.started) ≡ true → LoopMove m tests m in_queue
  fails : (not (is_empty m.queue) || not m.started) ≡ false → LoopMove m tests m sleeps
  blocks : LoopMove m sleeps m asleep
  wakes : LoopMove m asleep m woken
  locks_again : LoopMove m woken m tests
  pops :
      (t : Task) (ts : List Task)
      → m.queue ≡ t ∷ ts
      → LoopMove m in_queue (record m { queue = ts }) (runs t)
  unlocks : m.queue ≡ [] → LoopMove m in_queue m at_head
  ran : (t : Task) → LoopMove m (runs t) m relocks
  relocked : LoopMove m relocks m in_queue

pub record System : Type 0 where
  pub mem : Shared
  pub spot : Spot
  pub pc : ℕ → Emitter
  pub stopper : Stopper

pub data Step (cs : Callbacks) (s : System) : System → Type 0 where
  loop_moves :
      {m : Shared} {p : Spot}
      → LoopMove s.mem s.spot m p
      → Step cs s (record s { mem = m; spot = p })
  emits :
      (i : ℕ) (e : Event) (t : Task)
      → s.pc i ≡ outside
      → s.mem.started ≡ true
      → task_for e cs ≡ some t
      → Step cs s (record s { pc = put_at s.pc i (to_push t) })
  pushes :
      (i : ℕ) (t : Task)
      → s.pc i ≡ to_push t
      → holds_mutex s.spot ≡ false
      → Step cs s (record s {
        mem = record (s.mem) { queue = push t s.mem.queue };
        pc = put_at s.pc i to_notify;
      })
  notifies :
      (i : ℕ)
      → s.pc i ≡ to_notify
      → Step cs s (record s { spot = notify s.spot; pc = put_at s.pc i outside })
  stop_called :
      s.stopper ≡ quiet
      → s.mem.started ≡ true
      → Step cs s (record s { mem = record (s.mem) { started = false }; stopper = to_swap })
  swaps :
      s.stopper ≡ to_swap
      → holds_mutex s.spot ≡ false
      → Step cs s (record s { mem = record (s.mem) { queue = [] }; stopper = to_wake })
  wakes_all : s.stopper ≡ to_wake → Step cs s (record s { spot = notify s.spot; stopper = joins })

-- The handler was just started: its thread is made, and what is queued is arbitrary.
abbrev pub new_loop : List Task → System
new_loop q = record {
  mem = record { started = true; queue = q };
  spot = at_head;
  pc = λ i. outside;
  stopper = quiet;
}

pub data Reach (cs : Callbacks) (first : System) : System → Type 0 where
  at_start : Reach cs first first
  later : {s t : System} → Reach cs first s → Step cs s t → Reach cs first t
