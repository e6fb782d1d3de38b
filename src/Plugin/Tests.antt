-- ===== src/Plugin/Tests.antt =====
-- The theorems on the plugin at a concrete life: configured, started, stopped.
use fledge_south_hnz.Prelude.{
  not, ◌≡◌, ◌≤◌, refl, true, false, ◌&&◌, ◌||◌, String, some, ℕ, List, [], ◌∷◌, ◌++◌, ok, fault,
  out_of_range, none, ◌↔◌, ◌⊎◌,
}
use fledge_south_hnz.State.Conf.{Labels, labels_of, is_complete, new_conf}
use fledge_south_hnz.Path.Samples.{codes}
use fledge_south_hnz.Link.Samples.{closed_world}
use fledge_south_hnz.Link.Activity.{
  is_active_state, request_connection_state, set_connection_state, update_connection_status,
}
use fledge_south_hnz.Link.Coherence.{is_started}
use fledge_south_hnz.Conf.Samples.{json, conversions}
use fledge_south_hnz.Station.Monitor.{register_ingest}
use fledge_south_hnz.State.Link.{path_a, path_b}
use fledge_south_hnz.State.Clock.{Tm, Clock}
use fledge_south_hnz.State.Station.{World, not_connected}
use fledge_south_hnz.System.{Event, frame, manage, step}
use fledge_south_hnz.Plugin.{Plugin, Category, new_plugin, new_hnz, set_json_config, start}
use fledge_south_hnz.Plugin.Entry.{Call, starts_plugin, registers, shuts_down, works, live}
use fledge_south_hnz.Plugin.Invariant.{set_json_config-refused}
use fledge_south_hnz.Plugin.Life.{live-one_active, live-IsValid}
use fledge_south_hnz.Link.Audits.{latest, is_of, is_of_service, path_audit, service_audit}
use fledge_south_hnz.Link.Report.{is_configured}
use fledge_south_hnz.Link.Timers.{manage_messages}
use fledge_south_hnz.Conf.Bounds.{InRange}
use fledge_south_hnz.Plugin.Promises.{live-Told, live-InRange}
use fledge_south_hnz.Plugin.Rounds.{live-manage_messages}
use fledge_south_hnz.Plugin.Exceptions.{live-step_quits}
use fledge_south_hnz.Plugin.Faults.{start-throws, start-runs}

abbrev midnight : Tm
midnight = record { tm_mday = 1; tm_mon = 0; tm_year = 122; tm_hour = 0; tm_min = 0; tm_sec = 10 }

abbrev clock : Clock
clock = record { now = 1640995210000; local = midnight; utc = midnight }

abbrev category : Category
category = record {
  protocol_stack = some "protocol";
  exchanged_data = some "data";
  name = "service";
}

-- Configured, started, and path A is opened in both directions.
abbrev life : List Call
life =
    registers
    ∷ starts_plugin 1640995201000
    ∷ works (manage 1640995205000 path_a)
    ∷ works (frame clock path_a (0x33 ∷ 0x63 ∷ 0 ∷ 0 ∷ []))
    ∷ works (frame clock path_a (0x31 ∷ 0x0F ∷ 0 ∷ 0 ∷ []))
    ∷ []

living : Plugin
unfolding live
living = elim (live json conversions 1640995200000 category codes closed_world life) [
  | fault e ↦ new_plugin codes closed_world
  | ok p ↦ p
]

life-ok : live json conversions 1640995200000 category codes closed_world life ≡ ok living
unfolding living live new_plugin new_conf new_hnz is_complete labels_of request_connection_state
    set_connection_state update_connection_status register_ingest
life-ok = refl

-- The plugin runs, and its path A is active.
living-active : (living.is_running && is_active_state living.world.a.connection_state) ≡ true
unfolding living live new_plugin new_conf new_hnz is_complete labels_of request_connection_state
    set_connection_state update_connection_status register_ingest is_active_state
living-active = refl

abbrev whole_life : List Call
whole_life = life ++ shuts_down 1640995300000 ∷ []

stopped : Plugin
unfolding live
stopped = elim (live json conversions 1640995200000 category codes closed_world whole_life) [
  | fault e ↦ new_plugin codes closed_world
  | ok p ↦ p
]

whole_life-ok :
    live json conversions 1640995200000 category codes closed_world whole_life ≡ ok stopped
unfolding stopped live new_plugin new_conf new_hnz is_complete labels_of request_connection_state
    set_connection_state update_connection_status register_ingest
whole_life-ok = refl

live-one_active_example :
    ((is_active_state stopped.world.a.connection_state
        && is_active_state stopped.world.b.connection_state)
      ≡ false)
    × ((is_started stopped.world.hnz.conn_status ≡ (
          is_active_state stopped.world.a.connection_state
          || is_active_state stopped.world.b.connection_state))
        × ((not stopped.is_running && is_started stopped.world.hnz.conn_status) ≡ false))
live-one_active_example =
    live-one_active json conversions 1640995200000 category codes closed_world whole_life
      whole_life-ok

-- A text that is no JSON is refused.
refused : Plugin
unfolding set_json_config
refused = elim (set_json_config json conversions 1640995300000 "broken" "data" "" living) [
  | fault e ↦ living
  | ok r ↦ r.0
]

broken-refused :
    set_json_config json conversions 1640995300000 "broken" "data" "" living ≡ ok (refused, false)
unfolding refused set_json_config living live new_plugin new_conf new_hnz is_complete labels_of
    request_connection_state set_connection_state update_connection_status register_ingest
broken-refused = refl

set_json_config-refused_example :
    (refused.is_running ≡ false) × (refused.world.hnz.conn_status ≡ not_connected)
set_json_config-refused_example =
    set_json_config-refused json conversions 1640995300000 "broken" "data" "" living
      (live-IsValid json conversions 1640995200000 category codes closed_world life life-ok)
      broken-refused

-- A plugin whose configuration is complete, with these messages, before its start.
abbrev ready : List (String × ℕ × Labels) → Plugin
ready ms = record {
  world = record closed_world {
    hnz = record (closed_world.hnz) { conf = record (closed_world.hnz.conf) { msg_list = ms } };
  };
  is_running = false;
  should_run = false;
  has_connection = true;
  service_name = "service";
}

abbrev ts_only : List (String × ℕ × Labels)
ts_only = ("TS", 12, (511, "TS1") ∷ []) ∷ []

abbrev ts_and_tm : List (String × ℕ × Labels)
ts_and_tm = ("TS", 12, (511, "TS1") ∷ []) ∷ ("TM", 12, (20, "TM1") ∷ []) ∷ []

ready_complete : (ms : List (String × ℕ × Labels)) → is_complete (ready ms).world.hnz.conf ≡ true
unfolding is_complete
ready_complete ms = refl

start-throws_example :
    (start 1000 true (ready ts_only) ≡ fault out_of_range)
    ↔ ((labels_of "TM" 12 ts_only ≡ none) ⊎ (labels_of "TS" 12 ts_only ≡ none))
start-throws_example = start-throws 1000 true (ready ts_only) refl (ready_complete ts_only) refl

start-runs_example :
    (q : Plugin) × ((start 1000 true (ready ts_and_tm) ≡ ok q) × (q.is_running ≡ true))
unfolding labels_of
start-runs_example =
    start-runs 1000 true (ready ts_and_tm) refl (ready_complete ts_and_tm) ((20, "TM1") ∷ [])
      ((511, "TS1") ∷ []) refl refl refl

living_running : living.is_running ≡ true
unfolding living live new_plugin new_conf new_hnz is_complete labels_of request_connection_state
    set_connection_state update_connection_status register_ingest
living_running = refl

live-Told_example :
    (latest (is_of path_a) living.world.hnz.audits ≡ some (path_audit path_a living.world.a))
    × ((latest (is_of path_b) living.world.hnz.audits ≡ some (path_audit path_b living.world.b))
        × (latest is_of_service living.world.hnz.audits
            ≡ some (service_audit living.world.hnz.conn_status)))
live-Told_example =
    live-Told json conversions 1640995200000 category codes closed_world life life-ok living_running

live-InRange_example :
    (living.world.hnz.conf.remote_station_addr ≤ 64)
    × (InRange living.world.hnz.conf
        × ((is_configured "TM" living.world.hnz.conf ≡ true)
            × (is_configured "TS" living.world.hnz.conf ≡ true)))
live-InRange_example =
    live-InRange json conversions 1640995200000 category codes closed_world life life-ok
      living_running

live-manage_messages_example : (u : World) × (manage_messages clock true false living.world ≡ ok u)
live-manage_messages_example =
    live-manage_messages json conversions 1640995200000 category codes closed_world life clock true
      false life-ok living_running

-- A frame with the TS of a GI on the active path.
abbrev answer : Event
answer = frame clock path_a (0x31 ∷ 0x00 ∷ 0x16 ∷ 0x33 ∷ 0 ∷ 0 ∷ 0 ∷ 0 ∷ 0 ∷ 0 ∷ [])

live-step_quits_example : ¬ (step answer living.world ≡ fault out_of_range)
live-step_quits_example =
    live-step_quits json conversions 1640995200000 category codes closed_world life life-ok
      living_running answer
