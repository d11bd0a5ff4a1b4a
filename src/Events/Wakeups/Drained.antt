-- ===== src/Events/Wakeups/Drained.antt =====
-- How the dispatch thread ends once the handler is stopped.
use unleash_cpp_sdk.Base.{
  Bool-cases, List, [], ap, arith, false, inl, inr, length, length-append, refl, suc, ℕ, ◌*◌, ◌+◌,
  ◌<◌, ◌∙◌, ◌∷◌, ◌≡◌, ◌≢◌, ◌≤◌, ◌⊎◌,
}
use unleash_cpp_sdk.Events.{Callbacks, Task}
use unleash_cpp_sdk.Events.Wakeups.{
  LoopMove, Reach, Shared, Spot, System, asleep, at_head, at_start, blocks, done, emits, ends,
  fails, goes_on, in_queue, joins, later, locked, locks, locks_again, loop_moves, new_loop,
  notifies, notify, passes, pops, push, pushes, ran, relocked, relocks, runs, sleeps, stop_called,
  swaps, tests, unlocks, wakes, wakes_all, woken,
}
use unleash_cpp_sdk.Events.Wakeups.Heard.{LoopMove-started, Reach-IsDown, asleep_idle}

-- The moves that are left to the thread, at most, once the flag is down, with n tasks in the queue.
unfoldable pub distance : Spot → ℕ → ℕ
distance done n = 0
distance at_head n = 1
distance in_queue n = 3 * n + 2
distance relocks n = 3 * n + 3
distance (runs t) n = 3 * n + 4
distance tests n = 3 * n + 3
distance locks n = 3 * n + 4
distance woken n = 3 * n + 4
distance asleep n = 3 * n + 5
distance sleeps n = 3 * n + 6

distance-le : (p : Spot) (n : ℕ) → distance p n ≤ 3 * n + 6
unfolding distance
distance-le done n = omega arith
distance-le p n = omega arith

LoopMove-nears :
    {m m' : Shared} {p p' : Spot}
    → LoopMove m p m' p'
    → m.started ≡ false
    → distance p' (length m'.queue) < distance p (length m.queue)
unfolding distance
LoopMove-nears (goes_on f) e = absurd (cc)
LoopMove-nears (ends f) e = omega arith
LoopMove-nears locked e = omega arith
LoopMove-nears (passes f) e = omega arith
LoopMove-nears (fails f) e = absurd (ground arith)
LoopMove-nears blocks e = omega arith
LoopMove-nears wakes e = omega arith
LoopMove-nears locks_again e = omega arith
LoopMove-nears {m} (pops t ts f) e = omega (arith, ap (length {A = Task}) f)
LoopMove-nears (unlocks f) e = omega arith
LoopMove-nears (ran t) e = omega arith
LoopMove-nears relocked e = omega arith

notify-nears : (p : Spot) (n : ℕ) → distance (notify p) n ≤ distance p n
unfolding distance notify
notify-nears done n = omega arith
notify-nears p n = omega arith

-- A push brings three moves more at most, and the swap brings none.
distance-push :
    (p : Spot) (t : Task) (q : List Task)
    → distance p (length (push t q)) ≤ distance p (length q) + 3
unfolding distance push
distance-push done t q = omega arith
distance-push p t q = ground (arith, length-append q (t ∷ []))

distance-swap : (p : Spot) (q : List Task) → distance p 0 ≤ distance p (length q)
unfolding distance
distance-swap done q = omega arith
distance-swap p q = omega arith

-- The moves that are left to a system.
abbrev left_in : System → ℕ
left_in s = distance s.spot (length s.mem.queue)

module _ {cs : Callbacks} where
  unfoldable pub moves_in : {s t : System} → Reach cs s t → ℕ
  moves_in at_start = 0
  moves_in (later r (loop_moves mv)) = suc (moves_in r)
  moves_in (later r _) = moves_in r

  unfoldable pub pushes_in : {s t : System} → Reach cs s t → ℕ
  pushes_in at_start = 0
  pushes_in (later r (pushes i t o f)) = suc (pushes_in r)
  pushes_in (later r _) = pushes_in r

  run-nears :
      {s t : System} (r : Reach cs s t)
      → s.mem.started ≡ false
      → (t.mem.started ≡ false) × (moves_in r + left_in t ≤ left_in s + 3 * pushes_in r)
  unfolding moves_in pushes_in
  run-nears at_start e = (e, omega arith)
  run-nears (later r (loop_moves mv)) e =
      let (f, x) = run-nears r e in (LoopMove-started mv ∙ f, omega (arith, LoopMove-nears mv f))
  run-nears (later r (emits i e t o u k)) d = run-nears r d
  run-nears (later {s = v} r (pushes i t o f)) e =
      let (g, x) = run-nears r e in (g, omega (arith, distance-push v.spot t v.mem.queue))
  run-nears (later {s = v} r (notifies i o)) e =
      let (g, x) = run-nears r e in (g, omega (arith, notify-nears v.spot (length v.mem.queue)))
  run-nears (later r (stop_called q u)) e = let (g, x) = run-nears r e in (refl, x)
  run-nears (later {s = v} r (swaps q f)) e =
      let (g, x) = run-nears r e in (g, omega (arith, distance-swap v.spot v.mem.queue))
  run-nears (later {s = v} r (wakes_all q)) e =
      let (g, x) = run-nears r e in (g, omega (arith, notify-nears v.spot (length v.mem.queue)))

abbrev pub CanMove : Shared → Spot → Type 0
CanMove m p = (m' : Shared) × (p' : Spot) × LoopMove m p m' p'

empty-or-not : (q : List Task) → (q ≡ []) ⊎ ((t : Task) × (ts : List Task) × (q ≡ t ∷ ts))
empty-or-not [] = inl refl
empty-or-not (t ∷ ts) = inr (t, ts, refl)

-- A thread that is not asleep can move without being woken.
down-CanMove : (m : Shared) (p : Spot) → m.started ≡ false → p ≢ asleep → (p ≡ done) ⊎ CanMove m p
down-CanMove m at_head e a = inr (_, _, ends e)
down-CanMove m locks e a = inr (_, _, locked)
down-CanMove m tests e a = inr (_, _, passes (rw e (ground arith)))
down-CanMove m sleeps e a = inr (_, _, blocks)
down-CanMove m asleep e a = absurd (a refl)
down-CanMove m woken e a = inr (_, _, locks_again)
down-CanMove m in_queue e a = elim (empty-or-not m.queue) [
  | inl q ↦ inr (_, _, unlocks q)
  | inr (t, ts, q) ↦ inr (_, _, pops t ts q)
]
down-CanMove m relocks e a = inr (_, _, relocked)
down-CanMove m done e a = inl refl
down-CanMove m (runs t) e a = inr (_, _, ran t)

module _ {cs : Callbacks} where
  Reach-trans : {a b c : System} → Reach cs a b → Reach cs b c → Reach cs a c
  Reach-trans r at_start = r
  Reach-trans r (later q st) = later (Reach-trans r q) st

  -- A join is left by the one who stops only after the thread is done, which is no step here.
  Reach-joins : {s t : System} → Reach cs s t → s.stopper ≡ joins → t.stopper ≡ joins
  Reach-joins at_start j = j
  Reach-joins (later r (loop_moves mv)) j = Reach-joins r j
  Reach-joins (later r (emits i e t o u k)) j = Reach-joins r j
  Reach-joins (later r (pushes i t o f)) j = Reach-joins r j
  Reach-joins (later r (notifies i o)) j = Reach-joins r j
  Reach-joins (later r (stop_called q u)) j = absurd (let k = Reach-joins r j in cc)
  Reach-joins (later r (swaps q f)) j = absurd (let k = Reach-joins r j in cc)
  Reach-joins (later r (wakes_all q)) j = refl

  joins-down :
      {q : List Task} {s : System}
      → Reach cs (new_loop q) s
      → s.stopper ≡ joins
      → s.mem.started ≡ false
  joins-down {s = s} r j = elim (Bool-cases s.mem.started) [
    | inl u ↦ absurd (let k = Reach-IsDown r u in cc)
    | inr d ↦ d
  ]

-- The join of `stop` returns if the callbacks do: from then on, however emissions that have passed
-- their test interleave, the dispatch thread makes at most six moves, and three more for each task that
-- is queued or still pushed; and until it has left its loops it can move without being woken.
pub stop_returns :
    (cs : Callbacks) (q : List Task) (s t : System)
    → Reach cs (new_loop q) s
    → s.stopper ≡ joins
    → (r : Reach cs s t)
    → (moves_in r ≤ 3 * (length s.mem.queue + pushes_in r) + 6)
      × ((t.spot ≡ done) ⊎ ((t.spot ≢ asleep) × CanMove t.mem t.spot))
stop_returns cs q s t k j r =
    let (f, x) = run-nears r (joins-down k j) in
    let awake : t.spot ≢ asleep =
      λ e. (asleep_idle cs q t (Reach-trans k r) e).1 (Reach-joins r j) in
    (
      omega (arith, distance-le s.spot (length s.mem.queue)),
      elim (down-CanMove t.mem t.spot f awake) [ inl d ↦ inl d | inr mv ↦ inr (awake, mv) ],
    )
