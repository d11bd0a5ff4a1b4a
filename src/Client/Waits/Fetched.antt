-- ===== src/Client/Waits/Fetched.antt =====
-- A change of the context is asked for within a bounded number of moves of the polling thread.
use unleash_cpp_sdk.Base.{
  Bool, Bool-cases, arith, false, if◌then◌else◌, inl, inr, refl, suc, true, ℕ, ◌+◌, ◌<◌, ◌∙◌, ◌≡◌,
  ◌≢◌, ◌≤◌, ◌⊎◌,
}
use unleash_cpp_sdk.Client.Waits.{
  LoopMove, Place, Reach, Shared, System, asleep, at_head, blocks, breaks, copied, copies, ends,
  fails, fetched_again, fetches, finished, first_copied, first_copies, first_fetched, first_fetches,
  goes_on, late, later, leaves, leaves_on, leaves_stopped, locked, locks, locks_again, locks_late,
  loop_moves, new_loop, passes, requests, returns, sleeps, tests, times_out, to_notify, wakes,
  woken,
}
use unleash_cpp_sdk.Client.Waits.Newest.{Inv-Reach, IsNewest, asleep_newest}

-- The moves until the thread has asked for the context, at most, by the flag and its place.
due : Place → Bool → ℕ
due first_copies f = if f then 12 else 2
due first_fetches f = if f then 11 else 1
due returns f = if f then 11 else 2
due fetches f = if f then 10 else 1
due sleeps f = if f then 10 else 0
due at_head f = if f then 9 else 0
due asleep f = if f then 9 else 0
due locks f = if f then 8 else 0
due woken f = if f then 8 else 0
due tests f = if f then 7 else 0
due late f = if f then 7 else 0
due leaves f = if f then 6 else 0
due copies f = if f then 5 else 0
due finished f = 0

due-le : (p : Place) (f : Bool) → due p f ≤ 12
unfolding due
due-le finished f = omega arith
due-le p f = ground arith

-- The last request was for the context, and no change is pending.
abbrev pub IsDone : Shared → Type 0
IsDone m = (m.context_updated ≡ false) × (m.fetched ≡ m.context)

IsDone-LoopMove :
    {m m' : Shared} {p p' : Place} → LoopMove m p m' p' → IsNewest m p → IsDone m → IsDone m'
IsDone-LoopMove first_copied n d = d
IsDone-LoopMove first_fetched n (f, e) = (f, n f)
IsDone-LoopMove (goes_on h) n d = d
IsDone-LoopMove (ends h) n d = d
IsDone-LoopMove locked n d = d
IsDone-LoopMove (passes h) n d = d
IsDone-LoopMove (fails h) n d = d
IsDone-LoopMove blocks n d = d
IsDone-LoopMove wakes n d = d
IsDone-LoopMove times_out n d = d
IsDone-LoopMove locks_again n d = d
IsDone-LoopMove locks_late n d = d
IsDone-LoopMove (leaves_stopped h) n d = d
IsDone-LoopMove (leaves_on h) n d = d
IsDone-LoopMove copied n (f, e) = (refl, e)
IsDone-LoopMove (breaks h) n d = d
IsDone-LoopMove (requests h) n d = d
IsDone-LoopMove fetched_again n (f, e) = (f, n f)

-- Each move brings the request nearer, or it was made.
abbrev Nears : Shared → Place → Shared → Place → Type 0
Nears m p m' p' = IsDone m' ⊎ (due p' m'.context_updated < due p m.context_updated)

-- A move that changes neither the flag nor the contexts, where the thread goes by its last request.
Nears-same :
    (m : Shared) (p p' : Place)
    → (m.context_updated ≡ false → m.fetched ≡ m.context)
    → due p' true < due p true
    → Nears m p m p'
Nears-same m p p' n h = elim (Bool-cases m.context_updated) [
  | inl f ↦ inr (rw f h)
  | inr f ↦ inl (f, n f)
]

LoopMove-Nears :
    {m m' : Shared} {p p' : Place}
    → LoopMove m p m' p'
    → m.exit_threads ≡ false
    → IsNewest m p
    → Nears m p m' p'
unfolding due
LoopMove-Nears first_copied e n = inr (ground arith)
LoopMove-Nears first_fetched e n = inr (ground arith)
LoopMove-Nears {m} (goes_on h) e n = Nears-same m at_head locks n (omega arith)
LoopMove-Nears (ends h) e n = absurd (cc)
LoopMove-Nears {m} locked e n = Nears-same m locks tests n (omega arith)
LoopMove-Nears {m} (passes h) e n = Nears-same m tests leaves n (omega arith)
LoopMove-Nears {m} (fails h) e n = let f : m.context_updated ≡ false = ground arith in inl (f, n f)
LoopMove-Nears {m} blocks e n = Nears-same m sleeps asleep n (omega arith)
LoopMove-Nears {m} wakes e n = Nears-same m asleep woken n (omega arith)
LoopMove-Nears {m} times_out e n = Nears-same m asleep late n (omega arith)
LoopMove-Nears {m} locks_again e n = Nears-same m woken tests n (omega arith)
LoopMove-Nears {m} locks_late e n = Nears-same m late leaves n (omega arith)
LoopMove-Nears (leaves_stopped h) e n = absurd (cc)
LoopMove-Nears {m} (leaves_on h) e n = Nears-same m leaves copies n (omega arith)
LoopMove-Nears {m} copied e n = elim (Bool-cases m.context_updated) [
  | inl f ↦ inr (rw f (omega arith))
  | inr f ↦ inl (refl, n f)
]
LoopMove-Nears (breaks h) e n = absurd (cc)
LoopMove-Nears (requests h) e n = inr (ground arith)
LoopMove-Nears fetched_again e n = inr (ground arith)

LoopMove-exit :
    {m m' : Shared} {p p' : Place}
    → LoopMove m p m' p'
    → (m'.exit_threads ≡ m.exit_threads) × (m'.context ≡ m.context)
LoopMove-exit first_copied = (refl, refl)
LoopMove-exit first_fetched = (refl, refl)
LoopMove-exit (goes_on h) = (refl, refl)
LoopMove-exit (ends h) = (refl, refl)
LoopMove-exit locked = (refl, refl)
LoopMove-exit (passes h) = (refl, refl)
LoopMove-exit (fails h) = (refl, refl)
LoopMove-exit blocks = (refl, refl)
LoopMove-exit wakes = (refl, refl)
LoopMove-exit times_out = (refl, refl)
LoopMove-exit locks_again = (refl, refl)
LoopMove-exit locks_late = (refl, refl)
LoopMove-exit (leaves_stopped h) = (refl, refl)
LoopMove-exit (leaves_on h) = (refl, refl)
LoopMove-exit copied = (refl, refl)
LoopMove-exit (breaks h) = (refl, refl)
LoopMove-exit (requests h) = (refl, refl)
LoopMove-exit fetched_again = (refl, refl)

-- n moves of the polling thread with no other step in between.
pub data LoopRun (s : System) : ℕ → System → Type 0 where
  no_move : LoopRun s 0 s
  moved :
      {n : ℕ} {t : System} {m : Shared} {p : Place}
      → LoopRun s n t
      → LoopMove t.mem t.place m p
      → LoopRun s (suc n) (record t { mem = m; place = p })

LoopRun-Reach :
    {m : Shared} {s t : System} {n : ℕ}
    → Reach (new_loop m) s
    → LoopRun s n t
    → Reach (new_loop m) t
LoopRun-Reach r no_move = r
LoopRun-Reach r (moved q mv) = later (LoopRun-Reach r q) (loop_moves mv)

record Progress (s t : System) (n : ℕ) : Type 0 where
  pub exit : t.mem.exit_threads ≡ false
  pub context : t.mem.context ≡ s.mem.context
  pub pc : t.pc ≡ s.pc
  pub nearer :
      IsDone t.mem ⊎ (n + due t.place t.mem.context_updated ≤ due s.place s.mem.context_updated)

nearer_by : (n : ℕ) {a b c : ℕ} {D : Type 0} → D ⊎ (a < b) → n + b ≤ c → D ⊎ (suc n + a ≤ c)
nearer_by n (inl d) h = inl d
nearer_by n (inr k) h = inr (omega arith)

LoopRun-Progress :
    {m : Shared} {s t : System} {n : ℕ}
    → Reach (new_loop m) s
    → s.mem.exit_threads ≡ false
    → LoopRun s n t
    → Progress s t n
LoopRun-Progress r e no_move = record {
  exit = e;
  context = refl;
  pc = refl;
  nearer = inr (omega arith);
}
LoopRun-Progress r e (moved {n} q mv) =
    let g = LoopRun-Progress r e q in
    let v = (Inv-Reach (LoopRun-Reach r q)).newest in
    let (x, y) = LoopMove-exit mv in
    record {
      exit = x ∙ g.exit;
      context = y ∙ g.context;
      pc = g.pc;
      nearer = elim (g.nearer) [
        | inl d ↦ inl (IsDone-LoopMove mv v d)
        | inr k ↦ nearer_by n (LoopMove-Nears mv g.exit v) k
      ];
    }

-- Once nobody is between a change of the context and its notification, and while nothing else changes it
-- and no `stop` is called: after thirteen moves of the polling thread its last request was for the context
-- as it stands, and before that the thread is not blocked in its wait.
pub update_fetched :
    (m : Shared) (s t : System) (n : ℕ)
    → Reach (new_loop m) s
    → ((i : ℕ) → s.pc i ≢ to_notify)
    → s.mem.exit_threads ≡ false
    → LoopRun s n t
    → (12 < n → t.mem.fetched ≡ s.mem.context) × (t.mem.fetched ≢ s.mem.context → t.place ≢ asleep)
update_fetched m s t n r none_left e q =
    let g = LoopRun-Progress r e q in
    (
      λ k. elim (g.nearer) [
        | inl d ↦ d.1 ∙ g.context
        | inr h ↦ absurd (omega (arith, due-le s.place s.mem.context_updated))
      ],
      λ d a. d ((asleep_newest m t (LoopRun-Reach r q) a (rw g.pc none_left)).1 ∙ g.context),
    )
