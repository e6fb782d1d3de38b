-- ===== src/System/Threads.antt =====
-- The threads of the plugin: `HNZ::receive` (src/hnz.cpp), `HNZPath::connect`, `HNZPath::getData` and
-- `HNZPath::m_manageHNZProtocolConnection` (src/hnzpath.cpp), and the loop of `m_manageMessages`
-- (src/hnzconnection.cpp). What happens while a thread is blocked is a sequence of events of the
-- others. The client of the HNZ library is a parameter: what it receives, whether it is connected,
-- and the test of the CRC of a frame.
use fledge_south_hnz.Prelude.{
  ℕ, if◌then◌else◌, Bool, true, false, not, ◌&&◌, ◌||◌, Option, none, some, List, [], ◌∷◌, Result,
  ok, ◌>>=◌,
}
use fledge_south_hnz.State.Clock.{Clock}
use fledge_south_hnz.State.Conf.{is_complete}
use fledge_south_hnz.State.Link.{PathId}
use fledge_south_hnz.State.Station.{World, path}
use fledge_south_hnz.Link.Frames.{Received, analyze_frame, manage_hnz_protocol_state}
use fledge_south_hnz.Link.Timers.{manage_messages, start_connect, disconnect}
use fledge_south_hnz.Station.Handle.{handle_messages}
use fledge_south_hnz.System.{Event, run, wake, start_messages}

-- Both flags that the loops of a path read.
abbrev pub is_path_running : PathId → World → Bool
is_path_running i w = (path i w).is_running && w.conn.is_running

-- One try to connect: what happens before it ends, and whether the client is connected then.
pub record Attempt : Type 0 where
  pub during : List Event
  pub tcp : Bool

-- The loop of `connect`, over the tries of a run.
unfoldable pub try_connect : PathId → List Attempt → World → Result World
unfolding run
try_connect i [] w = ok w
try_connect i (x ∷ xs) w =
    if is_path_running i w
    then (do
      u ← run x.during w
      (if not (is_path_running i u) || x.tcp then ok u else try_connect i xs u))
    else ok w

unfoldable pub connect : ℕ → PathId → List Attempt → World → Result World
unfolding start_connect try_connect
connect now i xs w = try_connect i xs (start_connect now i w)

-- A wait for data: what happens meanwhile, what the client receives, whether it is connected
-- afterwards, whether the plugin runs before and after the path is left, and the tries to connect
-- again.
pub record Wait : Type 0 where
  pub during : List Event
  pub clock : Clock
  pub received : Option (List ℕ)
  pub tcp : Bool
  pub leaves : Bool
  pub returns : Bool
  pub attempts : List Attempt

abbrev pub no_messages : List (List ℕ) → Bool
no_messages [] = true
no_messages (m ∷ ms) = false

module _ (check_crc : List ℕ → Bool) (i : PathId) where
  unfoldable pub get_data : ℕ → Option (List ℕ) → World → Result Received
  unfolding analyze_frame
  get_data now none w = ok ([], w)
  get_data now (some bytes) w = if check_crc bytes then analyze_frame now i bytes w else ok ([], w)

  -- The path is left and connected again, unless the plugin stops.
  unfoldable pub reconnect : Wait → World → Result World
  unfolding disconnect connect
  reconnect x w =
      let u = if x.leaves then disconnect x.clock.now i w else w in
      if x.returns then connect x.clock.now i x.attempts u else ok u

  unfoldable pub receive_round : Wait → World → Result World
  unfolding run get_data reconnect handle_messages
  receive_round x w = do
    u ← run x.during w
    (messages, v) ← get_data x.clock.now x.received u
    (if no_messages messages && not x.tcp
        then reconnect x v
        else handle_messages x.clock messages v)

  -- The loop of `receive`, which a stop of the plugin ends.
  unfoldable pub receive_rounds : List Wait → World → Result World
  unfolding receive_round
  receive_rounds [] w = ok w
  receive_rounds (x ∷ xs) w = receive_round x w >>= receive_rounds xs

  -- `receive`: the first connection, and the rounds if the plugin still runs.
  unfoldable pub receive : ℕ → List Attempt → Bool → List Wait → World → Result World
  unfolding connect receive_rounds
  receive now attempts running xs w =
      if (path i w).created && is_complete w.hnz.conf
      then (do u ← connect now i attempts w; (if running then receive_rounds xs u else ok u))
      else ok w

-- A round of the manager of a path, and what happens while it waits.
pub record Turn : Type 0 where
  pub now : ℕ
  pub during : List Event

unfoldable pub manage_connection : PathId → List Turn → World → Result World
unfolding run manage_hnz_protocol_state wake
manage_connection i [] w = ok w
manage_connection i (x ∷ xs) w = do
  u ← run x.during (manage_hnz_protocol_state x.now i w).1
  let v = wake i u
  (if is_path_running i v then manage_connection i xs v else ok v)

-- A round of the thread of the connection, and what happens while it sleeps.
pub record Round : Type 0 where
  pub clock : Clock
  pub tcp_a : Bool
  pub tcp_b : Bool
  pub during : List Event

unfoldable pub message_rounds : List Round → World → Result World
unfolding manage_messages run
message_rounds [] w = ok w
message_rounds (x ∷ xs) w = do
  u ← manage_messages x.clock x.tcp_a x.tcp_b w
  v ← run x.during u
  (if v.conn.is_running then message_rounds xs v else ok v)

unfoldable pub manage_all : ℕ → List Round → World → Result World
unfolding start_messages message_rounds
manage_all now xs w = message_rounds xs (start_messages now w)
