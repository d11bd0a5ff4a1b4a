-- ===== src/Client/Waits.antt =====
-- The condition variable of the polling thread: `featurePollingLoop` with the steps of its timed wait,
-- any number of callers of `updateContext`, and one `stop`. A critical section of a caller is one
-- step, which the mutex allows while the polling thread does not hold it.
pub mod Newest
pub mod Exit
pub mod Fetched
use unleash_cpp_sdk.Base.{Bool, false, put_at, true, ℕ, ◌||◌, ◌≡◌}
use unleash_cpp_sdk.Domain.Context.{Context, MutableContext, update_mutable_context}

-- Where the polling thread stands. From `tests` to `leaves` it holds the mutex: before the test of
-- the wait's predicate, behind a test that failed, and behind the wait. `asleep` is the blocked
-- thread, `woken` one that was notified or woke by itself, `late` one whose time is up. `leaves` is
-- before the test of the exit flag behind the wait, `copies` behind it; with `returns` the snapshot is
-- taken and the mutex free, and `fetches` is the request. The initial poll has its own two places.
pub data Place : Type 0 where
  first_copies first_fetches : Place
  at_head locks tests sleeps asleep woken late leaves copies returns fetches finished : Place

unfoldable pub holds_mutex : Place → Bool
holds_mutex tests = true
holds_mutex sleeps = true
holds_mutex leaves = true
holds_mutex copies = true
holds_mutex _ = false

-- A caller of `updateContext`: outside, about to lock with its argument, and about to notify.
pub data Caller : Type 0 where
  outside to_notify : Caller
  to_lock : MutableContext → Caller

-- The caller of `stop`: behind its exchange, about to notify, and in the join.
pub data Stopper : Type 0 where
  quiet to_set to_wake joins : Stopper

-- `snapshot` is the local context of the loop, `fetched` the one of its last request.
pub record Shared : Type 0 where
  pub context : Context
  pub context_updated : Bool
  pub exit_threads : Bool
  pub snapshot : Context
  pub fetched : Context

-- `updateContext` under its mutex, and the store of `stop`.
abbrev pub changed : MutableContext → Shared → Shared
changed mc m = record m { context = update_mutable_context mc m.context; context_updated = true }

abbrev pub stopping : Shared → Shared
stopping m = record m { exit_threads = true }

-- `notify_one` and `notify_all` with the one thread that waits.
unfoldable pub notify : Place → Place
notify asleep = woken
notify p = p

pub data LoopMove (m : Shared) : Place → Shared → Place → Type 0 where
  first_copied : LoopMove m first_copies (record m { snapshot = m.context }) first_fetches
  first_fetched : LoopMove m first_fetches (record m { fetched = m.snapshot }) at_head
  goes_on : m.exit_threads ≡ false → LoopMove m at_head m locks
  ends : m.exit_threads ≡ true → LoopMove m at_head m finished
  locked : LoopMove m locks m tests
  passes : (m.exit_threads || m.context_updated) ≡ true → LoopMove m tests m leaves
  fails : (m.exit_threads || m.context_updated) ≡ false → LoopMove m tests m sleeps
  blocks : LoopMove m sleeps m asleep
  wakes : LoopMove m asleep m woken
  times_out : LoopMove m asleep m late
  locks_again : LoopMove m woken m tests
  locks_late : LoopMove m late m leaves
  leaves_stopped :
      m.exit_threads ≡ true → LoopMove m leaves (record m { snapshot = m.context }) returns
  leaves_on : m.exit_threads ≡ false → LoopMove m leaves m copies
  copied : LoopMove m copies (record m { context_updated = false; snapshot = m.context }) returns
  breaks : m.exit_threads ≡ true → LoopMove m returns m finished
  requests : m.exit_threads ≡ false → LoopMove m returns m fetches
  fetched_again : LoopMove m fetches (record m { fetched = m.snapshot }) at_head

pub record System : Type 0 where
  pub mem : Shared
  pub place : Place
  pub pc : ℕ → Caller
  pub stopper : Stopper

pub data Step (s : System) : System → Type 0 where
  loop_moves :
      {m : Shared} {p : Place}
      → LoopMove s.mem s.place m p
      → Step s (record s { mem = m; place = p })
  calls :
      (i : ℕ) (mc : MutableContext)
      → s.pc i ≡ outside
      → Step s (record s { pc = put_at s.pc i (to_lock mc) })
  updates :
      (i : ℕ) (mc : MutableContext)
      → s.pc i ≡ to_lock mc
      → holds_mutex s.place ≡ false
      → Step s (record s { mem = changed mc s.mem; pc = put_at s.pc i to_notify })
  notifies :
      (i : ℕ)
      → s.pc i ≡ to_notify
      → Step s (record s { place = notify s.place; pc = put_at s.pc i outside })
  stop_called : s.stopper ≡ quiet → Step s (record s { stopper = to_set })
  exit_set : s.stopper ≡ to_set → Step s (record s { mem = stopping s.mem; stopper = to_wake })
  wakes_all : s.stopper ≡ to_wake → Step s (record s { place = notify s.place; stopper = joins })

-- The polling thread was just made, and nobody has called.
abbrev pub new_loop : Shared → System
new_loop m = record { mem = m; place = first_copies; pc = λ i. outside; stopper = quiet }

pub data Reach (first : System) : System → Type 0 where
  at_start : Reach first first
  later : {s t : System} → Reach first s → Step s t → Reach first t
