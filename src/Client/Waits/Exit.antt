-- ===== src/Client/Waits/Exit.antt =====
-- How the polling thread ends once the exit flag is set, and what the notification of `stop` misses.
use unleash_cpp_sdk.Base.{arith, inl, inr, refl, suc, true, ℕ, ◌+◌, ◌<◌, ◌≡◌, ◌≤◌, ◌⊎◌}
use unleash_cpp_sdk.Client.Waits.{
  Caller, LoopMove, Place, Reach, Shared, Step, System, asleep, at_head, at_start, blocks, breaks,
  calls, copied, copies, ends, exit_set, fails, fetched_again, fetches, finished, first_copied,
  first_copies, first_fetched, first_fetches, goes_on, joins, late, later, leaves, leaves_on,
  leaves_stopped, locked, locks, locks_again, locks_late, loop_moves, notifies, notify, outside,
  passes, quiet, requests, returns, sleeps, stop_called, tests, times_out, updates, wakes,
  wakes_all, woken,
}

-- The moves that are left to the thread, at most, once the exit flag is set.
unfoldable pub distance : Place → ℕ
distance finished = 0
distance returns = 1
distance at_head = 1
distance leaves = 2
distance copies = 2
distance fetches = 2
distance first_fetches = 2
distance first_copies = 3
distance tests = 3
distance late = 3
distance locks = 4
distance woken = 4
distance asleep = 5
distance sleeps = 6

-- The requests that are left to it.
unfoldable pub requests_left : Place → ℕ
requests_left first_copies = 1
requests_left first_fetches = 1
requests_left fetches = 1
requests_left _ = 0

distance-le : (p : Place) → (distance p ≤ 6) × (requests_left p ≤ 1)
unfolding distance requests_left
distance-le = elim [ finished ↦ (omega arith, omega arith) | _ ↦ (omega arith, omega arith) ]

is_request : {m m' : Shared} {p p' : Place} → LoopMove m p m' p' → ℕ
is_request first_fetched = 1
is_request fetched_again = 1
is_request _ = 0

LoopMove-nears :
    {m m' : Shared} {p p' : Place} (mv : LoopMove m p m' p')
    → m.exit_threads ≡ true
    → (m'.exit_threads ≡ true)
      × (distance p' < distance p)
      × (is_request mv + requests_left p' ≤ requests_left p)
unfolding distance requests_left is_request
LoopMove-nears first_copied e = (e, omega arith, omega arith)
LoopMove-nears first_fetched e = (e, omega arith, omega arith)
LoopMove-nears (goes_on f) e = absurd (cc)
LoopMove-nears (ends f) e = (e, omega arith, omega arith)
LoopMove-nears locked e = (e, omega arith, omega arith)
LoopMove-nears (passes f) e = (e, omega arith, omega arith)
LoopMove-nears (fails f) e = absurd (ground arith)
LoopMove-nears blocks e = (e, omega arith, omega arith)
LoopMove-nears wakes e = (e, omega arith, omega arith)
LoopMove-nears times_out e = (e, omega arith, omega arith)
LoopMove-nears locks_again e = (e, omega arith, omega arith)
LoopMove-nears locks_late e = (e, omega arith, omega arith)
LoopMove-nears (leaves_stopped f) e = (e, omega arith, omega arith)
LoopMove-nears (leaves_on f) e = absurd (cc)
LoopMove-nears copied e = (e, omega arith, omega arith)
LoopMove-nears (breaks f) e = (e, omega arith, omega arith)
LoopMove-nears (requests f) e = absurd (cc)
LoopMove-nears fetched_again e = (e, omega arith, omega arith)

notify-nears :
    (p : Place) → (distance (notify p) ≤ distance p) × (requests_left (notify p) ≤ requests_left p)
unfolding distance requests_left notify
notify-nears = elim [ finished ↦ (omega arith, omega arith) | _ ↦ (omega arith, omega arith) ]

-- The moves and the requests of the polling thread in a run.
unfoldable pub moves_in : {s t : System} → Reach s t → ℕ
moves_in at_start = 0
moves_in (later r (loop_moves mv)) = suc (moves_in r)
moves_in (later r _) = moves_in r

unfoldable pub requests_in : {s t : System} → Reach s t → ℕ
unfolding is_request
requests_in at_start = 0
requests_in (later r (loop_moves mv)) = requests_in r + is_request mv
requests_in (later r _) = requests_in r

run-nears :
    {s t : System} (r : Reach s t)
    → s.mem.exit_threads ≡ true
    → (t.mem.exit_threads ≡ true)
      × (moves_in r + distance t.place ≤ distance s.place)
      × (requests_in r + requests_left t.place ≤ requests_left s.place)
unfolding moves_in requests_in
run-nears at_start e = (e, omega arith, omega arith)
run-nears (later r (loop_moves mv)) e =
    let (f, x, y) = run-nears r e in
    let (g, z, w) = LoopMove-nears mv f in (g, omega arith, omega arith)
run-nears (later r (calls i mc o)) e = run-nears r e
run-nears (later r (updates i mc o free)) e = run-nears r e
run-nears (later {s = u} r (notifies i o)) e =
    let (f, x, y) = run-nears r e in
    (f, omega (arith, notify-nears u.place), omega (arith, notify-nears u.place))
run-nears (later r (stop_called o)) e = run-nears r e
run-nears (later r (exit_set o)) e = let (f, x, y) = run-nears r e in (refl, x, y)
run-nears (later {s = u} r (wakes_all o)) e =
    let (f, x, y) = run-nears r e in
    (f, omega (arith, notify-nears u.place), omega (arith, notify-nears u.place))

abbrev pub CanMove : Shared → Place → Type 0
CanMove m p = (m' : Shared) × (p' : Place) × LoopMove m p m' p'

-- The thread is never stuck while the flag is set: each of its waits has a time-out.
exit-CanMove : (m : Shared) (p : Place) → m.exit_threads ≡ true → (p ≡ finished) ⊎ CanMove m p
exit-CanMove m first_copies e = inr (_, _, first_copied)
exit-CanMove m first_fetches e = inr (_, _, first_fetched)
exit-CanMove m at_head e = inr (_, _, ends e)
exit-CanMove m locks e = inr (_, _, locked)
exit-CanMove m tests e = inr (_, _, passes (rw e))
exit-CanMove m sleeps e = inr (_, _, blocks)
exit-CanMove m asleep e = inr (_, _, times_out)
exit-CanMove m woken e = inr (_, _, locks_again)
exit-CanMove m late e = inr (_, _, locks_late)
exit-CanMove m leaves e = inr (_, _, leaves_stopped e)
exit-CanMove m copies e = inr (_, _, copied)
exit-CanMove m returns e = inr (_, _, breaks e)
exit-CanMove m fetches e = inr (_, _, fetched_again)
exit-CanMove m finished e = inl refl

-- Once the exit flag is set, and however the callers interleave with it: the polling thread makes at
-- most six more moves and at most one more request, and that only if the thread is at its initial poll
-- or already at a request; and it can always move until it has left its loop.
pub exit_ends :
    (s t : System) (r : Reach s t)
    → s.mem.exit_threads ≡ true
    → (moves_in r ≤ 6)
      × (requests_in r ≤ requests_left s.place)
      × (requests_left s.place ≤ 1)
      × ((t.place ≡ finished) ⊎ CanMove t.mem t.place)
exit_ends s t r e =
    let (f, x, y) = run-nears r e in
    let (z, w) = distance-le s.place in (omega arith, omega arith, w, exit-CanMove t.mem t.place f)

-- With nobody about to notify, a thread that is asleep wakes by a move of its own alone.
asleep_alone :
    {t u : System}
    → t.place ≡ asleep
    → t.stopper ≡ joins
    → ((i : ℕ) → t.pc i ≡ outside)
    → Step t u
    → (u.place ≡ asleep) ⊎ LoopMove t.mem t.place u.mem u.place
asleep_alone a j o (loop_moves mv) = inr mv
asleep_alone a j o (calls i mc e) = inl a
asleep_alone a j o (updates i mc e free) = inl a
asleep_alone a j o (notifies i e) = absurd (let k = o i in cc)
asleep_alone a j o (stop_called e) = inl a
asleep_alone a j o (exit_set e) = inl a
asleep_alone a j o (wakes_all e) = absurd (cc)

-- The thread is between its test of the predicate and its block, and `stop` is not called yet.
abbrev pub about_to_sleep : Shared → (ℕ → Caller) → System
about_to_sleep m pc = record { mem = m; place = sleeps; pc = pc; stopper = quiet }

-- If `stop` is called while the polling thread is between its test of the predicate and its block,
-- and no caller is in `updateContext`, then its notification can come before the thread blocks: `stop`
-- is in its join and the flag is set, but the thread is asleep, and whatever step comes next leaves it
-- asleep or is one of its own, a time-out or a spurious wake.
pub stop_unheard :
    (m : Shared) (pc : ℕ → Caller)
    → ((i : ℕ) → pc i ≡ outside)
    → (t : System) × Reach (about_to_sleep m pc) t
      × (t.stopper ≡ joins)
      × (t.mem.exit_threads ≡ true)
      × (t.place ≡ asleep)
      × ((u : System) → Step t u → (u.place ≡ asleep) ⊎ LoopMove t.mem t.place u.mem u.place)
unfolding notify
stop_unheard m pc o =
    let s₁ = later at_start (stop_called refl) in
    let s₂ = later s₁ (exit_set refl) in
    let s₃ = later s₂ (wakes_all refl) in
    (_, later s₃ (loop_moves blocks), refl, refl, refl, λ u st. asleep_alone refl refl o st)
