-- ===== src/System.antt =====
-- The plugin at work: events from the stations, the clock, the TCP connections and Fledge, in any
-- order. One event is one step: the mutexes of the code, and what happens between two critical
-- sections of one event, are not modelled.
pub mod Invariant
pub mod Threads
pub mod Runs
pub mod Refinement
pub mod Loops
pub mod Reception
mod Tests
use fledge_south_hnz.Prelude.{
  ℕ, if◌then◌else◌, Bool, false, String, Option, List, [], ◌∷◌, ℤ, Result, ok, ◌>>=◌,
}
use fledge_south_hnz.State.Clock.{Clock}
use fledge_south_hnz.State.Link.{PathId}
use fledge_south_hnz.State.Station.{World, path}
use fledge_south_hnz.Link.Frames.{Received, analyze_frame, manage_hnz_protocol_state}
use fledge_south_hnz.Link.Protocol.{on_path}
use fledge_south_hnz.Link.Gi.{start_schedule}
use fledge_south_hnz.Link.Timers.{
  update_current_time, manage_messages, start_connect, disconnect, stop_connection,
}
use fledge_south_hnz.Station.Handle.{handle_messages}
use fledge_south_hnz.Station.Operation.{Parameters, operation}

pub data Event : Type 0 where
  -- A frame with a correct CRC on a path; its messages go to HNZ.
  frame : Clock → PathId → List ℕ → Event
  -- The manager of a path wakes up.
  manage : ℕ → PathId → Event
  -- The manager has waited.
  wakes : PathId → Event
  -- The thread of the connection starts.
  schedules : ℕ → Event
  -- A round of the thread of the connection, with the TCP state of both paths.
  round : Clock → Bool → Bool → Event
  -- A path is connected anew, or lost.
  connects : ℕ → PathId → Event
  disconnects : ℕ → PathId → Event
  -- An operation from Fledge, with what `stoi` makes of texts.
  operates : (String → Option ℤ) → ℕ → String → Parameters → Event
  stops : ℕ → Event

unfoldable pub receive_frame : Clock → PathId → List ℕ → World → Result World
unfolding analyze_frame handle_messages
receive_frame clock i bytes w = do
  (messages, u) ← analyze_frame clock.now i bytes w
  handle_messages clock messages u

-- The end of a wait of the manager.
unfoldable pub wake : PathId → World → World
wake i w = on_path (λ p. record p { state_changed = false }) i w

-- What `m_manageMessages` does before its loop.
unfoldable pub start_messages : ℕ → World → World
unfolding update_current_time start_schedule
start_messages now w = record w { conn = start_schedule (update_current_time now w.conn) }

-- A path that is not set has no threads, so that nothing happens on it.
unfoldable pub step : Event → World → Result World
unfolding receive_frame manage_hnz_protocol_state manage_messages start_connect disconnect
    stop_connection operation wake start_messages
step (frame clock i bytes) w = if (path i w).created then receive_frame clock i bytes w else ok w
step (manage now i) w = ok (if (path i w).created then (manage_hnz_protocol_state now i w).1 else w)
step (wakes i) w = ok (if (path i w).created then wake i w else w)
step (schedules now) w = ok (start_messages now w)
step (round clock tcp_a tcp_b) w = manage_messages clock tcp_a tcp_b w
step (connects now i) w = ok (if (path i w).created then start_connect now i w else w)
step (disconnects now i) w = ok (if (path i w).created then disconnect now i w else w)
step (operates stoi now name params) w = ok (operation stoi now name params w).0
step (stops now) w = ok (stop_connection now w)

unfoldable pub run : List Event → World → Result World
unfolding step
run [] w = ok w
run (e ∷ es) w = step e w >>= run es
