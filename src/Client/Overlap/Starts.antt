-- ===== src/Client/Overlap/Starts.antt =====
-- Calls of `start` alone, by any number of callers.
use unleash_cpp_sdk.Base.{
  ==_iff, Bool, Bool-cases, arith, false, inl, inr, not, put_at, put_at_other, put_at_same,
  put_at_self, refl, subst, sym, true, ℕ, ◌&&◌, ◌==◌, ◌∙◌, ◌≡◌, ◌≢◌, ◌⊎◌,
}
use unleash_cpp_sdk.Client.Overlap.{
  LoopMove, Pc, Shared, StartMove, System, absent, clear_exit, create_polling, create_sending,
  exit_cleared, handler_on, idle_system, is_absent, outside, polling_assigned, polling_created,
  polling_returns, running_stored, sending_assigned, sending_created, sending_returns, start_again,
  start_first, start_handler,
}

-- The systems that calls of `start` and the loops reach.
pub data Started (first : System) : System → Type 0 where
  uncalled : Started first first
  started :
      {s : System} {m : Shared} {p : Pc}
      → Started first s
      → (i : ℕ) → StartMove s.mem (s.pc i) m p
      → Started first (record { mem = m; pc = put_at s.pc i p })
  looped :
      {s : System} {m : Shared}
      → Started first s
      → LoopMove s.mem m
      → Started first (record { mem = m; pc = s.pc })

-- Before which accesses the caller that starts the client relies on each thread not to be joinable.
abbrev needs_sending : Pc → Bool
needs_sending clear_exit = true
needs_sending start_handler = true
needs_sending create_sending = true
needs_sending _ = false

abbrev needs_polling : Pc → Bool
needs_polling create_polling = true
needs_polling q = needs_sending q

abbrev Fits : Shared → Pc → Type 0
Fits m q =
    ((needs_sending q && not (is_absent m.sending)) ≡ false)
    × ((needs_polling q && not (is_absent m.polling)) ≡ false)

-- Nobody has called yet, or one caller has passed the exchange and all others are outside.
data Inv (s : System) : Type 0 where
  fresh :
      s.mem.running ≡ false
      → s.mem.terminated ≡ false
      → Fits s.mem clear_exit
      → ((j : ℕ) → s.pc j ≡ outside)
      → Inv s
  owned :
      (i : ℕ)
      → s.mem.running ≡ true
      → s.mem.terminated ≡ false
      → Fits s.mem (s.pc i)
      → ((j : ℕ) → (i == j) ≡ false → s.pc j ≡ outside)
      → Inv s

-- A caller that is outside returns at once, or enters a client that does not run.
outside-moves :
    {m m' : Shared} {q p : Pc}
    → StartMove m q m' p
    → q ≡ outside
    → ((m.running ≡ true) × (m' ≡ m) × (p ≡ outside))
      ⊎ ((m.running ≡ false) × (m' ≡ record m { running = true }) × (p ≡ clear_exit))
outside-moves (start_again r) e = inl (r, refl, refl)
outside-moves (start_first r) e = inr (r, refl, refl)
outside-moves exit_cleared e = absurd (cc)
outside-moves handler_on e = absurd (cc)
outside-moves (sending_created a) e = absurd (cc)
outside-moves (sending_assigned a) e = absurd (cc)
outside-moves (polling_created a) e = absurd (cc)
outside-moves (polling_assigned a) e = absurd (cc)
outside-moves running_stored e = absurd (cc)

owner-moves :
    {m m' : Shared} {q p : Pc}
    → StartMove m q m' p
    → m.running ≡ true
    → m.terminated ≡ false
    → Fits m q
    → (m'.running ≡ true) × (m'.terminated ≡ false) × Fits m' p
unfolding is_absent
owner-moves (start_again a) r t f = (r, t, f)
owner-moves (start_first a) r t f = absurd (cc)
owner-moves exit_cleared r t f = (r, t, f)
owner-moves handler_on r t f = (r, t, f)
owner-moves (sending_created a) r t f = (r, t, (refl, f.1))
owner-moves (sending_assigned a) r t f = absurd (ground (arith, f.0))
owner-moves (polling_created a) r t f = (r, t, (refl, refl))
owner-moves (polling_assigned a) r t f = absurd (ground (arith, f.1))
owner-moves running_stored r t f = (refl, t, (refl, refl))

loop-Fits : {m m' : Shared} (q : Pc) → LoopMove m m' → Fits m q → Fits m' q
unfolding is_absent
loop-Fits q (sending_returns a b) f = (rw a at f.0, f.1)
loop-Fits q (polling_returns a b) f = (f.0, rw a at f.1)

loop-flags :
    {m m' : Shared} → LoopMove m m' → (m'.running ≡ m.running) × (m'.terminated ≡ m.terminated)
loop-flags (sending_returns a b) = (refl, refl)
loop-flags (polling_returns a b) = (refl, refl)

start-Inv :
    {s : System} {m : Shared} {p : Pc} (j : ℕ)
    → Inv s
    → StartMove s.mem (s.pc j) m p
    → Inv (record { mem = m; pc = put_at s.pc j p })
start-Inv {s} {m} {p} j (fresh r t f quiet) mv = elim (outside-moves mv (quiet j)) [
  | inl (x, y, z) ↦ absurd (cc)
  | inr (x, y, z) ↦
      owned j (rw y) (rw y t) (rw (put_at_self s.pc j p, z, y) f)
        (λ k h. put_at_other s.pc j k p h ∙ quiet k)
]
start-Inv {s} {m} {p} j (owned i r t f quiet) mv = elim (Bool-cases (i == j)) [
  | inl e ↦
      let k : i ≡ j = (==_iff i j).0 e in
      let (r', t', f') = owner-moves mv r t (subst (λ x. Fits s.mem (s.pc x)) k f) in
      owned j r' t' (rw (put_at_self s.pc j p) f')
        (λ x h. put_at_other s.pc j x p h ∙ quiet x (subst (λ y. (y == x) ≡ false) (sym k) h))
  | inr e ↦ elim (outside-moves mv (quiet j e)) [
    | inl (x, y, z) ↦
        owned i (rw y r) (rw y t) (rw (y, put_at_other s.pc j i p (ground arith)) f)
          (λ k h. rw z (put_at_same s.pc j k outside (quiet k h)))
    | inr (x, y, z) ↦ absurd (cc)
  ]
]

loop-Inv :
    {s : System} {m : Shared} → Inv s → LoopMove s.mem m → Inv (record { mem = m; pc = s.pc })
loop-Inv {s} (fresh r t f quiet) mv =
    let (x, y) = loop-flags mv in fresh (x ∙ r) (y ∙ t) (loop-Fits clear_exit mv f) quiet
loop-Inv {s} (owned i r t f quiet) mv =
    let (x, y) = loop-flags mv in owned i (x ∙ r) (y ∙ t) (loop-Fits (s.pc i) mv f) quiet

Started-Inv : {first s : System} → Inv first → Started first s → Inv s
Started-Inv k uncalled = k
Started-Inv k (started r i mv) = start-Inv i (Started-Inv k r) mv
Started-Inv k (looped r mv) = loop-Inv (Started-Inv k r) mv

Inv-terminated : {s : System} → Inv s → s.mem.terminated ≡ false
Inv-terminated (fresh r t f quiet) = t
Inv-terminated (owned i r t f quiet) = t

Inv-outside : {s : System} → Inv s → (i j : ℕ) → i ≢ j → (s.pc i ≡ outside) ⊎ (s.pc j ≡ outside)
Inv-outside (fresh r t f quiet) i j d = inl (quiet i)
Inv-outside (owned k r t f quiet) i j d = elim (Bool-cases (k == i)) [
  | inl e ↦ inr (quiet j (ground (arith, ==_iff k i)))
  | inr e ↦ inl (quiet i e)
]

-- However the calls of `start` by any number of callers and the loops interleave, on a client that
-- does not run and whose threads cannot be joined: no thread is assigned onto one that can be
-- joined, so the process is not terminated, and of any two callers at least one is outside.
pub starts_never_terminate :
    (m : Shared) (s : System)
    → m.running ≡ false
    → m.terminated ≡ false
    → (m.sending ≡ absent) × (m.polling ≡ absent)
    → Started (idle_system m) s
    → (i j : ℕ) → i ≢ j
    → (s.mem.terminated ≡ false) × ((s.pc i ≡ outside) ⊎ (s.pc j ≡ outside))
unfolding is_absent
starts_never_terminate m s r t a k i j d =
    let inv = fresh r t (rw (a.0, is_absent), rw (a.1, is_absent)) (λ x. refl) in
    (Inv-terminated (Started-Inv inv k), Inv-outside (Started-Inv inv k) i j d)
