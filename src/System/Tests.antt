-- ===== src/System/Tests.antt =====
-- The theorems on the whole plugin at a concrete run: both directions of the first path open.
use fledge_south_hnz.Prelude.{
  ◌≡◌, refl, some, true, false, ◌||◌, List, [], ◌∷◌, ok, fault, null_pointer, none,
}
use fledge_south_hnz.State.Clock.{Tm, Clock}
use fledge_south_hnz.State.Link.{path_a, connected}
use fledge_south_hnz.State.Station.{World}
use fledge_south_hnz.Link.Activity.{
  can_path_extract_message, is_active_state, request_connection_state, set_connection_state,
  update_connection_status,
}
use fledge_south_hnz.Link.Samples.{closed_world, closed_world-Coherent}
use fledge_south_hnz.Link.Queues.{Queues}
use fledge_south_hnz.Link.Shrinks.{Empty-CanSend}
use fledge_south_hnz.Path.Ack.{can_drain, nr_accepted, send_rr, received_rr}
use fledge_south_hnz.Prelude.{map}
use fledge_south_hnz.System.{Event, frame, manage, operates, schedules, run, start_messages}
use fledge_south_hnz.Station.Operation.{Parameters, operation}
use fledge_south_hnz.State.Conf.{labels_of, get_label, label_at}
use fledge_south_hnz.Station.Monitor.{update_hnz_connection}
use fledge_south_hnz.Path.Extract.{extract_messages, extract_step, message_length, starts_bulle}
use fledge_south_hnz.Station.Telemetry.{tscg_parameters}
use fledge_south_hnz.System.Threads.{Wait, Turn, Round, receive_rounds, manage_all}
use fledge_south_hnz.System.Loops.{UpTo, round_events, manage_all-run}
use fledge_south_hnz.System.Reception.{meanwhile, receive_rounds-noise}
use fledge_south_hnz.System.Invariant.{run-some_active, run-nr_accepted_ends}

abbrev midnight : Tm
midnight = record { tm_mday = 1; tm_mon = 0; tm_year = 122; tm_hour = 0; tm_min = 0; tm_sec = 10 }

abbrev clock : Clock
clock = record { now = 1640995210000; local = midnight; utc = midnight }

-- A SARM goes out, an UA comes in, a SARM comes in.
abbrev opening : List Event
opening =
    manage 1640995205000 path_a
    ∷ frame clock path_a (0x33 ∷ 0x63 ∷ 0 ∷ 0 ∷ [])
    ∷ frame clock path_a (0x31 ∷ 0x0F ∷ 0 ∷ 0 ∷ [])
    ∷ []

opened_world : World
unfolding run
opened_world = elim (run opening closed_world) [ fault e ↦ closed_world | ok u ↦ u ]

opening-ok : run opening closed_world ≡ ok opened_world
unfolding run opened_world request_connection_state set_connection_state update_connection_status
opening-ok = refl

opened_world-connected :
    (opened_world.conn.is_running ≡ true) × (opened_world.a.protocol_state ≡ connected)
unfolding run opened_world request_connection_state set_connection_state update_connection_status
opened_world-connected = (refl, refl)

run-some_active_example :
    (is_active_state opened_world.a.connection_state
      || is_active_state opened_world.b.connection_state)
    ≡ true
run-some_active_example =
    run-some_active opening closed_world path_a closed_world-Coherent opening-ok
      opened_world-connected.0 opened_world-connected.1

closed_world-Queues : Queues closed_world
closed_world-Queues = record {
  on_a = Empty-CanSend closed_world.a (refl, refl);
  on_b = Empty-CanSend closed_world.b (refl, refl);
}

run-nr_accepted_ends_example : can_drain (nr_accepted 1640995220000 opened_world.a 0) ≡ false
run-nr_accepted_ends_example =
    run-nr_accepted_ends opening closed_world path_a 1640995220000 0 closed_world-Queues opening-ok

abbrev later : Clock
later = record { now = 1640995230000; local = midnight; utc = midnight }

-- Fledge asks twice for a GI, the station opens its direction anew, and ends the first GI.
abbrev interrupted : List Event
interrupted =
    operates (λ s. none) 1640995211000 "north_status" asks_init
    ∷ operates (λ s. none) 1640995212000 "north_status" asks_init
    ∷ frame later path_a (0x31 ∷ 0x0F ∷ 0 ∷ 0 ∷ [])
    ∷ frame later path_a (0x31 ∷ 0x00 ∷ 0x16 ∷ 0x33 ∷ 0 ∷ 0 ∷ 0 ∷ 0 ∷ 0 ∷ 0 ∷ [])
    ∷ []
  where
    asks_init : Parameters
    asks_init = ("north_status", "init_socket_finished") ∷ []

-- A run that ends by a call through the null active path.
interrupted-faults : run interrupted opened_world ≡ fault null_pointer
unfolding run opened_world request_connection_state set_connection_state update_connection_status
    labels_of operation update_hnz_connection can_path_extract_message extract_messages extract_step
    message_length send_rr received_rr starts_bulle tscg_parameters get_label label_at
interrupted-faults = refl

abbrev turns : List Turn
turns =
    record { now = 1640995205000; during = frame clock path_a (0x33 ∷ 0x63 ∷ 0 ∷ 0 ∷ []) ∷ [] }
    ∷ record { now = 1640995209000; during = [] }
    ∷ []

abbrev sleeps : List Round
sleeps =
    record { clock = clock; tcp_a = true; tcp_b = false; during = manage 1640995205000 path_a ∷ [] }
    ∷ record { clock = later; tcp_a = true; tcp_b = false; during = [] }
    ∷ []

manage_all-run_example :
    (es : List Event) × (UpTo
        (λ u. u.conn.is_running)
        (map round_events sleeps)
        (start_messages 1640995200000 closed_world)
        es
      × (run (schedules 1640995200000 ∷ es) closed_world
          ≡ manage_all 1640995200000 sleeps closed_world))
manage_all-run_example = manage_all-run 1640995200000 sleeps closed_world

-- A frame with a wrong CRC, and none.
abbrev noise : List Wait
noise =
    record {
      during = opening;
      clock = clock;
      received = some (0x31 ∷ 0x0F ∷ 0 ∷ 1 ∷ []);
      tcp = true;
      leaves = true;
      returns = true;
      attempts = [];
    }
    ∷ record {
      during = [];
      clock = clock;
      received = none;
      tcp = true;
      leaves = true;
      returns = true;
      attempts = [];
    }
    ∷ []

receive_rounds-noise_example :
    receive_rounds (λ bytes. false) path_a noise closed_world ≡ run (meanwhile noise) closed_world
receive_rounds-noise_example = receive_rounds-noise (λ bytes. false) path_a noise closed_world refl
