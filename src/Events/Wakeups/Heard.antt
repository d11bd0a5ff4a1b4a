-- ===== src/Events/Wakeups/Heard.antt =====
-- No wake-up of the dispatch thread is lost.
use unleash_cpp_sdk.Base.{
  ==_iff, Bool, Bool-cases, List, [], false, inl, inr, is_empty, not, put_at, put_at_other,
  put_at_self, refl, subst, sym, true, ℕ, ◌==◌, ◌||◌, ◌∙◌, ◌∷◌, ◌≡◌, ◌≢◌, ◌⊎◌,
}
use unleash_cpp_sdk.Events.{Callbacks, Task}
use unleash_cpp_sdk.Events.Wakeups.{
  Emitter, LoopMove, Reach, Shared, Spot, Step, Stopper, System, asleep, at_start, blocks, emits,
  ends, fails, goes_on, holds_mutex, joins, later, locked, locks_again, loop_moves, new_loop,
  notifies, notify, outside, passes, pops, push, pushes, quiet, ran, relocked, sleeps, stop_called,
  swaps, to_notify, to_push, to_swap, to_wake, unlocks, wakes, wakes_all,
}

-- What the one who stops has still to do when the flag is down: to notify after the swap, or the swap.
abbrev IsWaking : Stopper → Type 0
IsWaking to_swap = Unit
IsWaking to_wake = Unit
IsWaking _ = ⊥

abbrev Swaps : Stopper → Type 0
Swaps to_swap = Unit
Swaps _ = ⊥

-- A thread that is to block has seen an empty queue and a handler that is started, and the one who
-- stops it meanwhile cannot swap before it blocks. For a thread that is blocked while there is something
-- to do, somebody is about to notify.
abbrev Hears : Shared → Spot → (ℕ → Emitter) → Stopper → Type 0
Hears m sleeps pc st = (m.queue ≡ []) × ((m.started ≡ true) ⊎ Swaps st)
Hears m asleep pc st =
    ((m.queue ≡ []) ⊎ ((i : ℕ) × (pc i ≡ to_notify))) × ((m.started ≡ true) ⊎ IsWaking st)
Hears m _ pc st = Unit

Swaps-IsWaking : (st : Stopper) → Swaps st → IsWaking st
Swaps-IsWaking to_swap h = tt
Swaps-IsWaking quiet h = elim h [ ]
Swaps-IsWaking to_wake h = elim h [ ]
Swaps-IsWaking joins h = elim h [ ]

nothing_left :
    (q : List Task) (b : Bool) → (not (is_empty q) || not b) ≡ false → (q ≡ []) × (b ≡ true)
nothing_left [] true h = (refl, refl)
nothing_left [] false h = absurd (cc)
nothing_left (t ∷ ts) b h = absurd (cc)

nothing_to_do :
    (m : Shared)
    → (not (is_empty m.queue) || not m.started) ≡ false
    → (m.queue ≡ []) × (m.started ≡ true)
nothing_to_do m h = nothing_left m.queue m.started h

Hears-LoopMove :
    {m m' : Shared} {p p' : Spot} (pc : ℕ → Emitter) (st : Stopper)
    → LoopMove m p m' p'
    → Hears m p pc st
    → Hears m' p' pc st
Hears-LoopMove pc st (goes_on e) h = tt
Hears-LoopMove pc st (ends e) h = tt
Hears-LoopMove pc st locked h = tt
Hears-LoopMove pc st (passes e) h = tt
Hears-LoopMove {m} pc st (fails e) h = let (q, s) = nothing_to_do m e in (q, inl s)
Hears-LoopMove pc st blocks (q, inl s) = (inl q, inl s)
Hears-LoopMove pc st blocks (q, inr s) = (inl q, inr (Swaps-IsWaking st s))
Hears-LoopMove pc st wakes h = tt
Hears-LoopMove pc st locks_again h = tt
Hears-LoopMove pc st (pops t ts e) h = tt
Hears-LoopMove pc st (unlocks e) h = tt
Hears-LoopMove pc st (ran t) h = tt
Hears-LoopMove pc st relocked h = tt

Hears-put_at :
    (m : Shared) (p : Spot) (pc : ℕ → Emitter) (st : Stopper) (i : ℕ) (c : Emitter)
    → pc i ≢ to_notify
    → Hears m p pc st
    → Hears m p (put_at pc i c) st
Hears-put_at m asleep pc st i c d (inl q, s) = (inl q, s)
Hears-put_at m asleep pc st i c d (inr (j, e), s) = elim (Bool-cases (i == j)) [
  | inl k ↦ absurd (d (rw (← (==_iff i j).0 k) at e))
  | inr k ↦ (inr (j, put_at_other pc i j c k ∙ e), s)
]
Hears-put_at m sleeps pc st i c d h = h
Hears-put_at m p pc st i c d h = tt

-- A push, while the dispatch thread does not hold the mutex.
Hears-push :
    (m m' : Shared) (p : Spot) (pc pc' : ℕ → Emitter) (st : Stopper) (i : ℕ)
    → holds_mutex p ≡ false
    → m'.started ≡ m.started
    → pc' i ≡ to_notify
    → Hears m p pc st
    → Hears m' p pc' st
unfolding holds_mutex
Hears-push m m' sleeps pc pc' st i f e n h = absurd (cc)
Hears-push m m' asleep pc pc' st i f e n (q, inl s) = (inr (i, n), inl (e ∙ s))
Hears-push m m' asleep pc pc' st i f e n (q, inr s) = (inr (i, n), inr s)
Hears-push m m' p pc pc' st i f e n h = tt

Hears-notify :
    (m : Shared) (p : Spot) (pc pc' : ℕ → Emitter) (st : Stopper)
    → Hears m p pc st
    → Hears m (notify p) pc' st
unfolding notify
Hears-notify m asleep pc pc' st h = tt
Hears-notify m sleeps pc pc' st h = h
Hears-notify m p pc pc' st h = tt

-- The exchange needs no mutex.
Hears-stop :
    (m : Shared) (p : Spot) (pc : ℕ → Emitter)
    → Hears m p pc quiet
    → Hears (record m { started = false }) p pc to_swap
Hears-stop m asleep pc (q, s) = (q, inr tt)
Hears-stop m sleeps pc (q, s) = (q, inr tt)
Hears-stop m p pc h = tt

Hears-swap :
    (m : Shared) (p : Spot) (pc : ℕ → Emitter)
    → holds_mutex p ≡ false
    → Hears m p pc to_swap
    → Hears (record m { queue = [] }) p pc to_wake
unfolding holds_mutex
Hears-swap m sleeps pc f h = absurd (cc)
Hears-swap m asleep pc f (q, s) = (inl refl, inr tt)
Hears-swap m p pc f h = tt

-- The last notification finds the thread in no wait.
Hears-wake :
    (m : Shared) (p : Spot) (pc : ℕ → Emitter) → Hears m p pc to_wake → Hears m (notify p) pc joins
unfolding notify
Hears-wake m asleep pc h = tt
Hears-wake m sleeps pc (q, inl s) = (q, inl s)
Hears-wake m sleeps pc (q, inr s) = elim s [ ]
Hears-wake m p pc h = tt

abbrev IsHeard : System → Type 0
IsHeard s = Hears s.mem s.spot s.pc s.stopper

Step-IsHeard : {cs : Callbacks} {s t : System} → Step cs s t → IsHeard s → IsHeard t
Step-IsHeard {s} (loop_moves mv) h = Hears-LoopMove s.pc s.stopper mv h
Step-IsHeard {s} (emits i e t o u k) h =
    Hears-put_at s.mem s.spot s.pc s.stopper i (to_push t) (λ n. cc) h
Step-IsHeard {s} (pushes i t o f) h =
    Hears-push s.mem (record (s.mem) { queue = push t s.mem.queue }) s.spot s.pc
      (put_at s.pc i to_notify) s.stopper i f refl (put_at_self s.pc i to_notify) h
Step-IsHeard {s} (notifies i o) h =
    Hears-notify s.mem s.spot s.pc (put_at s.pc i outside) s.stopper h
Step-IsHeard {s} (stop_called q u) h =
    Hears-stop s.mem s.spot s.pc (subst (λ st. Hears s.mem s.spot s.pc st) q h)
Step-IsHeard {s} (swaps q f) h =
    Hears-swap s.mem s.spot s.pc f (subst (λ st. Hears s.mem s.spot s.pc st) q h)
Step-IsHeard {s} (wakes_all q) h =
    Hears-wake s.mem s.spot s.pc (subst (λ st. Hears s.mem s.spot s.pc st) q h)

Reach-IsHeard : {cs : Callbacks} {q : List Task} {s : System} → Reach cs (new_loop q) s → IsHeard s
Reach-IsHeard at_start = tt
Reach-IsHeard (later r st) = Step-IsHeard st (Reach-IsHeard r)

-- Once it is called, `stop` has taken the flag down.
abbrev IsDown : System → Type 0
IsDown s = s.mem.started ≡ true → s.stopper ≡ quiet

pub LoopMove-started : {m m' : Shared} {p p' : Spot} → LoopMove m p m' p' → m'.started ≡ m.started
LoopMove-started (goes_on e) = refl
LoopMove-started (ends e) = refl
LoopMove-started locked = refl
LoopMove-started (passes e) = refl
LoopMove-started (fails e) = refl
LoopMove-started blocks = refl
LoopMove-started wakes = refl
LoopMove-started locks_again = refl
LoopMove-started (pops t ts e) = refl
LoopMove-started (unlocks e) = refl
LoopMove-started (ran t) = refl
LoopMove-started relocked = refl

pub Reach-IsDown :
    {cs : Callbacks} {q : List Task} {s : System} → Reach cs (new_loop q) s → IsDown s
Reach-IsDown at_start = λ u. refl
Reach-IsDown (later r (loop_moves mv)) = λ u. Reach-IsDown r (sym (LoopMove-started mv) ∙ u)
Reach-IsDown (later r (emits i e t o u k)) = Reach-IsDown r
Reach-IsDown (later r (pushes i t o f)) = Reach-IsDown r
Reach-IsDown (later r (notifies i o)) = Reach-IsDown r
Reach-IsDown (later r (stop_called q u)) = λ v. absurd (cc)
Reach-IsDown (later r (swaps q f)) = λ u. absurd (let k = Reach-IsDown r u in cc)
Reach-IsDown (later r (wakes_all q)) = λ u. absurd (let k = Reach-IsDown r u in cc)

-- The wait of the dispatch thread has no time-out, and no wake-up is lost: however emissions and a
-- `stop` interleave with it, while it is blocked and nobody is between a push and its notification, the
-- queue is empty; and while it is blocked, a `stop` is not in its join, so that no join waits for a
-- thread that sleeps, although the flag is stored without the mutex.
pub asleep_idle :
    (cs : Callbacks) (q : List Task) (s : System)
    → Reach cs (new_loop q) s
    → s.spot ≡ asleep
    → (((i : ℕ) → s.pc i ≢ to_notify) → s.mem.queue ≡ []) × (s.stopper ≢ joins)
asleep_idle cs q s r e =
    let h = subst (λ p. Hears s.mem p s.pc s.stopper) e (Reach-IsHeard r) in
    (
      λ none_left. elim (h.0) [ inl k ↦ k | inr (i, k) ↦ absurd (none_left i k) ],
      λ j. elim (h.1) [
        | inl u ↦ absurd (let k = Reach-IsDown r u in cc)
        | inr w ↦ subst (λ st. IsWaking st) j w
      ],
    )
