-- ===== src/Client/Overlap.antt =====
-- `start` and `stop` of the client, one shared access at a time, by callers that may overlap. The
-- event handler's own start and stop are one step each.
pub mod Starts
pub mod Invariant
pub mod Single
pub mod Races
use unleash_cpp_sdk.Base.{Bool, false, if◌then◌else◌, not, put_at, true, ℕ, ◌||◌, ◌≡◌}
use unleash_cpp_sdk.Client.State.{Client}
use unleash_cpp_sdk.Config.{is_metrics_enabled, is_refresh_enabled}

-- A `std::thread` member: one that cannot be joined, one whose loop runs, and one whose loop has
-- returned and that is still to be joined.
pub data Loop : Type 0 where
  absent looping returned : Loop

unfoldable pub is_absent : Loop → Bool
is_absent absent = true
is_absent looping = false
is_absent returned = false

-- The members that the calls share, and whether `std::terminate` was called. The last two fields
-- tell whether the configuration lets the loops work at all.
pub record Shared : Type 0 where
  pub running : Bool
  pub exit_threads : Bool
  pub handler_started : Bool
  pub sending : Loop
  pub polling : Loop
  pub terminated : Bool
  pub reports : Bool
  pub refreshes : Bool

-- Where a caller stands: outside, or before the named access of `start` or of `stop`.
pub data Pc : Type 0 where
  outside clear_exit start_handler create_sending create_polling store_running : Pc
  set_exit join_sending join_polling stop_handler store_stopped : Pc

-- A move of a caller in `start`. To assign a new thread to one that can be joined terminates.
pub data StartMove (m : Shared) : Pc → Shared → Pc → Type 0 where
  start_again : m.running ≡ true → StartMove m outside m outside
  start_first : m.running ≡ false → StartMove m outside (record m { running = true }) clear_exit
  exit_cleared : StartMove m clear_exit (record m { exit_threads = false }) start_handler
  handler_on : StartMove m start_handler (record m { handler_started = true }) create_sending
  sending_created :
      m.sending ≡ absent
      → StartMove m create_sending (record m { sending = looping }) create_polling
  sending_assigned :
      is_absent m.sending ≡ false
      → StartMove m create_sending (record m { terminated = true }) create_polling
  polling_created :
      m.polling ≡ absent → StartMove m create_polling (record m { polling = looping }) store_running
  polling_assigned :
      is_absent m.polling ≡ false
      → StartMove m create_polling (record m { terminated = true }) store_running
  running_stored : StartMove m store_running (record m { running = true }) outside

-- A move of a caller in `stop`. A join waits for the loop to return.
pub data StopMove (m : Shared) : Pc → Shared → Pc → Type 0 where
  stop_again : m.running ≡ false → StopMove m outside m outside
  stop_first : m.running ≡ true → StopMove m outside (record m { running = false }) set_exit
  exit_set : StopMove m set_exit (record m { exit_threads = true }) join_sending
  sending_missing : m.sending ≡ absent → StopMove m join_sending m join_polling
  sending_joined :
      m.sending ≡ returned → StopMove m join_sending (record m { sending = absent }) join_polling
  polling_missing : m.polling ≡ absent → StopMove m join_polling m stop_handler
  polling_joined :
      m.polling ≡ returned → StopMove m join_polling (record m { polling = absent }) stop_handler
  handler_off : StopMove m stop_handler (record m { handler_started = false }) store_stopped
  stop_stored : StopMove m store_stopped (record m { running = false }) outside

-- A loop returns once it sees the exit flag, or at once if it is disabled.
pub data LoopMove (m : Shared) : Shared → Type 0 where
  sending_returns :
      m.sending ≡ looping
      → (m.exit_threads || not m.reports) ≡ true
      → LoopMove m (record m { sending = returned })
  polling_returns :
      m.polling ≡ looping
      → (m.exit_threads || not m.refreshes) ≡ true
      → LoopMove m (record m { polling = returned })

pub record System : Type 0 where
  pub mem : Shared
  pub pc : ℕ → Pc

pub data Step (s : System) : System → Type 0 where
  starting :
      (i : ℕ) {m : Shared} {p : Pc}
      → StartMove s.mem (s.pc i) m p
      → Step s (record { mem = m; pc = put_at s.pc i p })
  stopping :
      (i : ℕ) {m : Shared} {p : Pc}
      → StopMove s.mem (s.pc i) m p
      → Step s (record { mem = m; pc = put_at s.pc i p })
  loop_moves : {m : Shared} → LoopMove s.mem m → Step s (record { mem = m; pc = s.pc })

-- All callers are outside.
abbrev pub idle_system : Shared → System
idle_system m = record { mem = m; pc = λ i. outside }

-- The systems that any interleaving of calls and loops reaches.
pub data Reach (first : System) : System → Type 0 where
  at_start : Reach first first
  later : {s t : System} → Reach first s → Step s t → Reach first t

-- The shared members of a client between calls.
unfoldable pub shared : {W : Type 0} → Client W → Shared
shared c = record {
  running = c.running;
  exit_threads = c.exit_threads;
  handler_started = c.event_handler.started;
  sending = if c.loops then looping else absent;
  polling = if c.loops then looping else absent;
  terminated = false;
  reports = is_metrics_enabled c.config;
  refreshes = is_refresh_enabled c.config;
}
