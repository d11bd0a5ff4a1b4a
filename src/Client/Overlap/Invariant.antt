-- ===== src/Client/Overlap/Invariant.antt =====
-- What the shared members hold wherever a single caller stands, kept by every move.
use unleash_cpp_sdk.Base.{Bool, arith, false, not, refl, true, ◌&&◌, ◌∙◌, ◌≡◌}
use unleash_cpp_sdk.Client.Overlap.{
  LoopMove, Pc, Shared, StartMove, StopMove, clear_exit, create_polling, create_sending,
  exit_cleared, exit_set, handler_off, handler_on, is_absent, join_polling, join_sending, outside,
  polling_assigned, polling_created, polling_joined, polling_missing, polling_returns,
  running_stored, sending_assigned, sending_created, sending_joined, sending_missing,
  sending_returns, set_exit, start_again, start_first, start_handler, stop_again, stop_first,
  stop_stored, store_running, store_stopped,
}

-- What the members hold at each place; outside it depends on whether the client runs.
unfoldable pub running_at : Pc → Bool → Bool
running_at outside r = r
running_at clear_exit r = true
running_at start_handler r = true
running_at create_sending r = true
running_at create_polling r = true
running_at store_running r = true
running_at _ r = false

unfoldable pub sending_at : Pc → Bool → Bool
sending_at outside r = r
sending_at create_polling r = true
sending_at store_running r = true
sending_at set_exit r = true
sending_at join_sending r = true
sending_at _ r = false

unfoldable pub polling_at : Pc → Bool → Bool
polling_at outside r = r
polling_at store_running r = true
polling_at set_exit r = true
polling_at join_sending r = true
polling_at join_polling r = true
polling_at _ r = false

unfoldable pub handler_at : Pc → Bool → Bool
handler_at outside r = r
handler_at clear_exit r = false
handler_at start_handler r = false
handler_at store_stopped r = false
handler_at _ r = true

-- The exit flag is set where the joins rely on it.
unfoldable pub exit_set_at : Pc → Bool
exit_set_at join_sending = true
exit_set_at join_polling = true
exit_set_at _ = false

pub record Inv (m : Shared) (q : Pc) : Type 0 where
  pub running : m.running ≡ running_at q m.running
  pub sending : not (is_absent m.sending) ≡ sending_at q m.running
  pub polling : not (is_absent m.polling) ≡ polling_at q m.running
  pub handler : m.handler_started ≡ handler_at q m.running
  pub exit : (exit_set_at q && not m.exit_threads) ≡ false
  pub alive : m.terminated ≡ false

pub start-Inv : {m m' : Shared} {q p : Pc} → StartMove m q m' p → Inv m q → Inv m' p
unfolding running_at sending_at polling_at handler_at exit_set_at is_absent
start-Inv (start_again r) k = k
start-Inv (start_first r) k = record {
  running = refl;
  sending = k.sending ∙ r;
  polling = k.polling ∙ r;
  handler = k.handler ∙ r;
  exit = refl;
  alive = k.alive;
}
start-Inv exit_cleared k = record {
  running = k.running;
  sending = k.sending;
  polling = k.polling;
  handler = k.handler;
  exit = refl;
  alive = k.alive;
}
start-Inv handler_on k = record {
  running = k.running;
  sending = k.sending;
  polling = k.polling;
  handler = refl;
  exit = refl;
  alive = k.alive;
}
start-Inv (sending_created a) k = record {
  running = k.running;
  sending = refl;
  polling = k.polling;
  handler = k.handler;
  exit = refl;
  alive = k.alive;
}
start-Inv (sending_assigned a) k = absurd (ground (arith, k.sending))
start-Inv (polling_created a) k = record {
  running = k.running;
  sending = k.sending;
  polling = refl;
  handler = k.handler;
  exit = refl;
  alive = k.alive;
}
start-Inv (polling_assigned a) k = absurd (ground (arith, k.polling))
start-Inv running_stored k = record {
  running = refl;
  sending = k.sending;
  polling = k.polling;
  handler = k.handler;
  exit = refl;
  alive = k.alive;
}

pub stop-Inv : {m m' : Shared} {q p : Pc} → StopMove m q m' p → Inv m q → Inv m' p
unfolding running_at sending_at polling_at handler_at exit_set_at is_absent
stop-Inv (stop_again r) k = k
stop-Inv (stop_first r) k = record {
  running = refl;
  sending = k.sending ∙ r;
  polling = k.polling ∙ r;
  handler = k.handler ∙ r;
  exit = refl;
  alive = k.alive;
}
stop-Inv exit_set k = record {
  running = k.running;
  sending = k.sending;
  polling = k.polling;
  handler = k.handler;
  exit = refl;
  alive = k.alive;
}
stop-Inv (sending_missing a) k = absurd (ground (arith, k.sending))
stop-Inv (sending_joined a) k = record {
  running = k.running;
  sending = refl;
  polling = k.polling;
  handler = k.handler;
  exit = k.exit;
  alive = k.alive;
}
stop-Inv (polling_missing a) k = absurd (ground (arith, k.polling))
stop-Inv (polling_joined a) k = record {
  running = k.running;
  sending = k.sending;
  polling = refl;
  handler = k.handler;
  exit = refl;
  alive = k.alive;
}
stop-Inv handler_off k = record {
  running = k.running;
  sending = k.sending;
  polling = k.polling;
  handler = refl;
  exit = refl;
  alive = k.alive;
}
stop-Inv stop_stored k = record {
  running = refl;
  sending = k.sending;
  polling = k.polling;
  handler = k.handler;
  exit = refl;
  alive = k.alive;
}

pub loop-Inv : {m m' : Shared} {q : Pc} → LoopMove m m' → Inv m q → Inv m' q
unfolding is_absent
loop-Inv (sending_returns a b) k = record {
  running = k.running;
  sending = rw a at k.sending;
  polling = k.polling;
  handler = k.handler;
  exit = k.exit;
  alive = k.alive;
}
loop-Inv (polling_returns a b) k = record {
  running = k.running;
  sending = k.sending;
  polling = rw a at k.polling;
  handler = k.handler;
  exit = k.exit;
  alive = k.alive;
}
