-- ===== src/Client/Waits/Newest.antt =====
-- Which context the polling thread has asked for when it sleeps.
use unleash_cpp_sdk.Base.{
  ==_iff, Bool, Bool-cases, arith, false, inl, inr, put_at, put_at_other, put_at_self, refl, subst,
  true, ℕ, ◌==◌, ◌||◌, ◌∙◌, ◌≡◌, ◌≢◌, ◌⊎◌,
}
use unleash_cpp_sdk.Client.Waits.{
  Caller, LoopMove, Place, Reach, Shared, Step, System, asleep, at_head, at_start, blocks, breaks,
  calls, changed, copied, copies, ends, exit_set, fails, fetched_again, fetches, finished,
  first_copied, first_copies, first_fetched, first_fetches, goes_on, holds_mutex, late, later,
  leaves, leaves_on, leaves_stopped, locked, locks, locks_again, locks_late, loop_moves, new_loop,
  notifies, notify, outside, passes, requests, returns, sleeps, stop_called, stopping, tests,
  times_out, to_lock, to_notify, updates, wakes, wakes_all, woken,
}

-- The copy of the context that the thread goes by: the one it is to ask for, or has asked for.
abbrev pub Holds : Shared → Place → Type 0
Holds m first_copies = Unit
Holds m first_fetches = m.snapshot ≡ m.context
Holds m returns = m.snapshot ≡ m.context
Holds m fetches = m.snapshot ≡ m.context
Holds m finished = Unit
Holds m at_head = m.fetched ≡ m.context
Holds m locks = m.fetched ≡ m.context
Holds m tests = m.fetched ≡ m.context
Holds m sleeps = m.fetched ≡ m.context
Holds m asleep = m.fetched ≡ m.context
Holds m woken = m.fetched ≡ m.context
Holds m late = m.fetched ≡ m.context
Holds m leaves = m.fetched ≡ m.context
Holds m copies = m.fetched ≡ m.context

-- Unless the flag is set, this copy is the context.
abbrev pub IsNewest : Shared → Place → Type 0
IsNewest m p = m.context_updated ≡ false → Holds m p

-- A thread that blocks has seen the flag unset, and one that is blocked while it is set has a caller
-- that is about to notify.
abbrev pub Hears : Shared → Place → (ℕ → Caller) → Type 0
Hears m sleeps pc = m.context_updated ≡ false
Hears m asleep pc = (m.context_updated ≡ false) ⊎ ((i : ℕ) × (pc i ≡ to_notify))
Hears m _ pc = Unit

IsNewest-LoopMove :
    {m m' : Shared} {p p' : Place} → LoopMove m p m' p' → IsNewest m p → IsNewest m' p'
IsNewest-LoopMove first_copied n = λ f. refl
IsNewest-LoopMove first_fetched n = n
IsNewest-LoopMove (goes_on e) n = n
IsNewest-LoopMove (ends e) n = λ f. tt
IsNewest-LoopMove locked n = n
IsNewest-LoopMove (passes e) n = n
IsNewest-LoopMove (fails e) n = n
IsNewest-LoopMove blocks n = n
IsNewest-LoopMove wakes n = n
IsNewest-LoopMove times_out n = n
IsNewest-LoopMove locks_again n = n
IsNewest-LoopMove locks_late n = n
IsNewest-LoopMove (leaves_stopped e) n = λ f. refl
IsNewest-LoopMove (leaves_on e) n = n
IsNewest-LoopMove copied n = λ f. refl
IsNewest-LoopMove (breaks e) n = λ f. tt
IsNewest-LoopMove (requests e) n = n
IsNewest-LoopMove fetched_again n = n

or-false : (a b : Bool) → (a || b) ≡ false → b ≡ false
or-false a b h = ground arith

Hears-LoopMove :
    {m m' : Shared} {p p' : Place} (pc : ℕ → Caller)
    → LoopMove m p m' p'
    → Hears m p pc
    → Hears m' p' pc
Hears-LoopMove pc first_copied h = tt
Hears-LoopMove pc first_fetched h = tt
Hears-LoopMove pc (goes_on e) h = tt
Hears-LoopMove pc (ends e) h = tt
Hears-LoopMove pc locked h = tt
Hears-LoopMove pc (passes e) h = tt
Hears-LoopMove pc (fails e) h = or-false _ _ e
Hears-LoopMove pc blocks h = inl h
Hears-LoopMove pc wakes h = tt
Hears-LoopMove pc times_out h = tt
Hears-LoopMove pc locks_again h = tt
Hears-LoopMove pc locks_late h = tt
Hears-LoopMove pc (leaves_stopped e) h = tt
Hears-LoopMove pc (leaves_on e) h = tt
Hears-LoopMove pc copied h = tt
Hears-LoopMove pc (breaks e) h = tt
Hears-LoopMove pc (requests e) h = tt
Hears-LoopMove pc fetched_again h = tt

-- What no caller about to notify is lost by.
Hears-put_at :
    (m : Shared) (p : Place) (pc : ℕ → Caller) (i : ℕ) (c : Caller)
    → pc i ≢ to_notify
    → Hears m p pc
    → Hears m p (put_at pc i c)
Hears-put_at m sleeps pc i c d h = h
Hears-put_at m asleep pc i c d (inl f) = inl f
Hears-put_at m asleep pc i c d (inr (j, e)) = elim (Bool-cases (i == j)) [
  | inl k ↦ absurd (d (rw (← (==_iff i j).0 k) at e))
  | inr k ↦ inr (j, put_at_other pc i j c k ∙ e)
]
Hears-put_at m p pc i c d h = tt

-- Whoever is about to notify, a thread that does not hold the mutex will hear of the flag.
Hears-free :
    (m : Shared) (p : Place) (pc : ℕ → Caller) (i : ℕ)
    → pc i ≡ to_notify
    → holds_mutex p ≡ false
    → Hears m p pc
unfolding holds_mutex
Hears-free m sleeps pc i e h = absurd (cc)
Hears-free m asleep pc i e h = inr (i, e)
Hears-free m p pc i e h = tt

-- The exit flag plays no part in either.
IsNewest-exit : (m : Shared) (p : Place) → IsNewest m p → IsNewest (stopping m) p
IsNewest-exit m first_fetches n = n
IsNewest-exit m returns n = n
IsNewest-exit m fetches n = n
IsNewest-exit m first_copies n = n
IsNewest-exit m finished n = n
IsNewest-exit m p n = n

Hears-exit : (m : Shared) (p : Place) (pc : ℕ → Caller) → Hears m p pc → Hears (stopping m) p pc
Hears-exit m sleeps pc h = h
Hears-exit m asleep pc h = h
Hears-exit m p pc h = tt

pub record Inv (s : System) : Type 0 where
  pub newest : IsNewest s.mem s.place
  pub hears : Hears s.mem s.place s.pc

IsNewest-notify : (m : Shared) (p : Place) → IsNewest m p → IsNewest m (notify p)
unfolding notify
IsNewest-notify m asleep n = n
IsNewest-notify m p n = n

Hears-notify :
    (m : Shared) (p : Place) (pc pc' : ℕ → Caller) → Hears m p pc → Hears m (notify p) pc'
unfolding notify
Hears-notify m asleep pc pc' h = tt
Hears-notify m sleeps pc pc' h = h
Hears-notify m p pc pc' h = tt

-- A change of the context sets the flag, so nothing is to be newest.
IsNewest-set : (m : Shared) (p : Place) → m.context_updated ≡ true → IsNewest m p
IsNewest-set m p e = λ f. absurd (cc)

Inv-Step : {s t : System} → Step s t → Inv s → Inv t
Inv-Step {s} (loop_moves mv) v = record {
  newest = IsNewest-LoopMove mv v.newest;
  hears = Hears-LoopMove s.pc mv v.hears;
}
Inv-Step {s} (calls i mc e) v = record {
  newest = v.newest;
  hears = Hears-put_at s.mem s.place s.pc i (to_lock mc) (λ k. cc) v.hears;
}
Inv-Step {s} (updates i mc e free) v = record {
  newest = IsNewest-set (changed mc s.mem) s.place refl;
  hears =
      Hears-free (changed mc s.mem) s.place (put_at s.pc i to_notify) i
        (put_at_self s.pc i to_notify) free;
}
Inv-Step {s} (notifies i e) v = record {
  newest = IsNewest-notify s.mem s.place v.newest;
  hears = Hears-notify s.mem s.place s.pc (put_at s.pc i outside) v.hears;
}
Inv-Step (stop_called e) v = record { newest = v.newest; hears = v.hears }
Inv-Step {s} (exit_set e) v = record {
  newest = IsNewest-exit s.mem s.place v.newest;
  hears = Hears-exit s.mem s.place s.pc v.hears;
}
Inv-Step {s} (wakes_all e) v = record {
  newest = IsNewest-notify s.mem s.place v.newest;
  hears = Hears-notify s.mem s.place s.pc s.pc v.hears;
}

pub Inv-Reach : {m : Shared} {s : System} → Reach (new_loop m) s → Inv s
Inv-Reach at_start = record { newest = λ f. tt; hears = tt }
Inv-Reach (later r st) = Inv-Step st (Inv-Reach r)

-- However calls of `updateContext`, a `stop` and the polling thread interleave, a change of the context
-- is never slept over: while the polling thread is blocked in its wait and no caller is between its
-- change and its notification, the flag is not set and the last request was for the current context.
pub asleep_newest :
    (m : Shared) (s : System)
    → Reach (new_loop m) s
    → s.place ≡ asleep
    → ((i : ℕ) → s.pc i ≢ to_notify)
    → (s.mem.context_updated ≡ false) × (s.mem.fetched ≡ s.mem.context)
asleep_newest m s r e none_left =
    let v = Inv-Reach r in
    let f : s.mem.context_updated ≡ false = elim (subst (λ p. Hears s.mem p s.pc) e v.hears) [
      | inl f ↦ f
      | inr (i, k) ↦ absurd (none_left i k)
    ] in
    (f, subst (λ p. IsNewest s.mem p) e v.newest f)
