-- ===== src/Events.antt =====
-- eventHandler.hpp and eventHandler.cpp: callbacks are queued by the threads that emit and run by
-- the dispatch thread. A callback is known by a number; running a task appends it to `ran`, whether
-- or not the callback throws, since the loop catches every exception.
pub mod Loop
pub mod System
pub mod Wakeups
pub mod SelfStop
use mathlib.Core.Option
use unleash_cpp_sdk.Base.{
  Bool, List, Option, Text, [], false, if◌then◌else◌, length, ltb, none, some, true, ℕ, ◌++◌, ◌∷◌,
}
use unleash_cpp_sdk.Domain.Context.{Context}

abbrev pub max_event_queue_size : ℕ
max_event_queue_size = 30

pub record ClientError : Type 0 where
  pub message : Text
  pub details : Text

pub record ClientImpression : Type 0 where
  pub ctx : Context
  pub flag_name : Text
  pub enabled : Bool
  pub event_type : Text
  pub impression_data : Bool
  pub variant : Text

-- An empty `std::function` and a null pointer are `none`.
pub record Callbacks : Type 0 where
  pub init_cb : Option ℕ
  pub error_cb : Option ℕ
  pub ready_cb : Option ℕ
  pub update_cb : Option ℕ
  pub impression_cb : Option ℕ

abbrev pub no_callbacks : Callbacks
no_callbacks = record {
  init_cb = none;
  error_cb = none;
  ready_cb = none;
  update_cb = none;
  impression_cb = none;
}

-- The callback that a task captured, with its argument.
pub data Task : Type 0 where
  init_task ready_task update_task : ℕ → Task
  error_task : ℕ → ClientError → Task
  impression_task : ℕ → ClientImpression → Task

-- Where the dispatch thread stands: before the test of the outer loop, in the wait, before the test
-- of the inner loop, in a callback, or past the loops.
pub data Place : Type 0 where
  at_top waiting at_queue finished : Place
  running : Task → Place

pub record Handler : Type 0 where
  pub started : Bool
  pub queue : List Task
  pub callbacks : Callbacks
  pub thread : Option Place
  pub ran : List Task

abbrev pub new_handler : Handler
new_handler = record {
  started = false;
  queue = [];
  callbacks = no_callbacks;
  thread = none;
  ran = [];
}

unfoldable pub start : Handler → Handler
start h = if h.started then h else record h { started = true; thread = some at_top }

-- `stop` up to the join: the exchange of the flag, and the swap that drops the pending tasks.
unfoldable pub stop_request : Handler → Handler
stop_request h = if h.started then record h { started = false; queue = [] } else h

-- The join returns once the thread has left its loops, and leaves it not joinable.
unfoldable pub join : Handler → Handler
join h = elim h.thread [ some finished ↦ record h { thread = none } | _ ↦ h ]

pub data Event : Type 0 where
  init ready update : Event
  error : ClientError → Event
  impression : ClientImpression → Event

unfoldable pub task_for : Event → Callbacks → Option Task
task_for init cs = Option.map init_task cs.init_cb
task_for ready cs = Option.map ready_task cs.ready_cb
task_for update cs = Option.map update_task cs.update_cb
task_for (error e) cs = Option.map (λ cb. error_task cb e) cs.error_cb
task_for (impression e) cs = Option.map (λ cb. impression_task cb e) cs.impression_cb

-- The first half of an emission: the test of `_started` and the load of the callback.
unfoldable pub emit_check : Event → Handler → Option Task
unfolding task_for
emit_check e h = if h.started then task_for e h.callbacks else none

-- The second half, under the lock: a full queue takes nothing.
unfoldable pub emit_push : Task → Handler → Handler
emit_push t h =
    if ltb (length h.queue) max_event_queue_size then record h { queue = h.queue ++ t ∷ [] } else h

-- `emitInit`, `emitReady`, `emitUpdate`, `emitError` and `emitImpression`.
unfoldable pub emit : Event → Handler → Handler
unfolding emit_check emit_push
emit e h = elim (emit_check e h) [ none ↦ h | some t ↦ emit_push t h ]

-- `onInit`, `onReady`, `onUpdate`, `onError` and `onImpression`.
pub data Slot : Type 0 where
  on_init on_ready on_update on_error on_impression : Slot

unfoldable pub set_callback : Slot → Option ℕ → Callbacks → Callbacks
set_callback on_init cb cs = record cs { init_cb = cb }
set_callback on_ready cb cs = record cs { ready_cb = cb }
set_callback on_update cb cs = record cs { update_cb = cb }
set_callback on_error cb cs = record cs { error_cb = cb }
set_callback on_impression cb cs = record cs { impression_cb = cb }

unfoldable pub on_event : Slot → Option ℕ → Handler → Handler
unfolding set_callback
on_event s cb h = record h { callbacks = set_callback s cb h.callbacks }

unfoldable pub clear_all : Handler → Handler
clear_all h = record h { callbacks = no_callbacks }
