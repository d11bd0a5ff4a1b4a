-- ===== src/Events/Loop/Uninitialised.antt =====
-- Handlers in which no task of the init event is queued, running or past.
use unleash_cpp_sdk.Base.{
  All, All-append, Bool-cases, List, Option, Option-cases, [], ap, arith, inl, inr, is_empty,
  length, ltb, none, not, some, subst, sym, ℕ, ◌||◌, ◌∷◌, ◌≡◌,
}
use unleash_cpp_sdk.Events.{
  Callbacks, Event, Handler, Place, Task, at_queue, at_top, emit, emit_check, emit_push, error,
  error_task, finished, impression, impression_task, init, init_task, max_event_queue_size, ready,
  ready_task, running, task_for, update, update_task, waiting,
}
use unleash_cpp_sdk.Events.Loop.{loop_step, pop_front, step_at}
use mathlib.Core.Option

abbrev pub IsOther : Task → Type 0
IsOther (init_task cb) = ⊥
IsOther (ready_task cb) = Unit
IsOther (update_task cb) = Unit
IsOther (error_task cb e) = Unit
IsOther (impression_task cb e) = Unit

abbrev pub RunsOther : Option Place → Type 0
RunsOther (some (running t)) = IsOther t
RunsOther (some at_top) = Unit
RunsOther (some waiting) = Unit
RunsOther (some at_queue) = Unit
RunsOther (some finished) = Unit
RunsOther none = Unit

abbrev pub NeverInit : Handler → Type 0
NeverInit h = All IsOther h.queue × RunsOther h.thread × All IsOther h.ran

abbrev pub NotInit : Event → Type 0
NotInit init = ⊥
NotInit ready = Unit
NotInit update = Unit
NotInit (error e) = Unit
NotInit (impression e) = Unit

map-IsOther :
    (f : ℕ → Task)
    → ((n : ℕ) → IsOther (f n))
    → (o : Option ℕ) (t : Task) → Option.map f o ≡ some t
    → IsOther t
map-IsOther f k none t e = absurd (cc)
map-IsOther f k (some n) t e = let p : f n ≡ t = cc in subst IsOther p (k n)

task_for-IsOther :
    (e : Event) (cs : Callbacks) (t : Task) → NotInit e → task_for e cs ≡ some t → IsOther t
unfolding task_for
task_for-IsOther init cs t n q = elim n [ ]
task_for-IsOther ready cs t n q = map-IsOther ready_task (λ cb. tt) cs.ready_cb t q
task_for-IsOther update cs t n q = map-IsOther update_task (λ cb. tt) cs.update_cb t q
task_for-IsOther (error e) cs t n q = map-IsOther (λ cb. error_task cb e) (λ cb. tt) cs.error_cb t q
task_for-IsOther (impression e) cs t n q =
    map-IsOther (λ cb. impression_task cb e) (λ cb. tt) cs.impression_cb t q

emit_check-IsOther :
    (e : Event) (h : Handler) (t : Task) → NotInit e → emit_check e h ≡ some t → IsOther t
unfolding emit_check
emit_check-IsOther e h t n q = elim (Bool-cases h.started) [
  | inl s ↦ task_for-IsOther e h.callbacks t n (ground arith)
  | inr s ↦ absurd (ground arith)
]

emit_push-NeverInit : (t : Task) (h : Handler) → IsOther t → NeverInit h → NeverInit (emit_push t h)
unfolding emit_push
emit_push-NeverInit t h o (q, p, r) =
    elim (Bool-cases (ltb (length h.queue) max_event_queue_size)) [
      | inl b ↦ rw b (All-append IsOther h.queue (t ∷ []) q (o, tt), p, r)
      | inr b ↦ rw b (q, p, r)
    ]

emit-equals :
    (e : Event) (h : Handler) (o : Option Task)
    → emit_check e h ≡ o
    → emit e h ≡ elim o [ none ↦ h | some t ↦ emit_push t h ]
unfolding emit
emit-equals e h none c = rw (c, emit)
emit-equals e h (some t) c = rw (c, emit)

pub emit-NeverInit : (e : Event) (h : Handler) → NotInit e → NeverInit h → NeverInit (emit e h)
emit-NeverInit e h n k = elim (Option-cases (emit_check e h)) [
  | inl c ↦ subst NeverInit (sym (emit-equals e h none c)) k
  | inr (t, c) ↦
      subst NeverInit (sym (emit-equals e h (some t) c))
        (emit_push-NeverInit t h (emit_check-IsOther e h t n c) k)
]

pop_front-NeverInit :
    (ts : List Task) (h : Handler) → All IsOther ts → NeverInit h → NeverInit (pop_front ts h)
unfolding pop_front
pop_front-NeverInit [] h a (q, p, r) = (q, tt, r)
pop_front-NeverInit (t ∷ ts) h (o, a) (q, p, r) = (a, o, r)

step_at-NeverInit :
    (p : Place) (h : Handler) → RunsOther (some p) → NeverInit h → NeverInit (step_at p h)
unfolding step_at
step_at-NeverInit at_top h o (q, p, r) = elim (Bool-cases h.started) [
  | inl s ↦ simp s (q, tt, r)
  | inr s ↦ simp s (q, tt, r)
]
step_at-NeverInit waiting h o (q, p, r) =
    elim (Bool-cases (not (is_empty h.queue) || not h.started)) [
      | inl s ↦ rw s (q, tt, r)
      | inr s ↦ rw s (q, p, r)
    ]
step_at-NeverInit at_queue h o k = pop_front-NeverInit h.queue h k.0 k
step_at-NeverInit (running t) h o (q, p, r) = (q, tt, All-append IsOther h.ran (t ∷ []) r (o, tt))
step_at-NeverInit finished h o k = k

loop_step-equals :
    (h : Handler) (o : Option Place)
    → h.thread ≡ o
    → loop_step h ≡ elim o [ none ↦ h | some p ↦ step_at p h ]
unfolding loop_step
loop_step-equals h o e = ap (λ (x : Option Place). elim x [ none ↦ h | some p ↦ step_at p h ]) e

pub loop_step-NeverInit : (h : Handler) → NeverInit h → NeverInit (loop_step h)
loop_step-NeverInit h k = elim (Option-cases h.thread) [
  | inl e ↦ subst NeverInit (sym (loop_step-equals h none e)) k
  | inr (p, e) ↦
      subst NeverInit (sym (loop_step-equals h (some p) e))
        (step_at-NeverInit p h (subst RunsOther e k.1) k)
]
