-- ===== src/Link/Samples.antt =====
-- A plugin with two paths that are set and not connected.
use fledge_south_hnz.Prelude.{pos, false, arith, true, false, [], ◌∷◌, none}
use fledge_south_hnz.State.Conf.{HnzConf}
use fledge_south_hnz.State.Link.{HnzPath, connection, disconnected}
use fledge_south_hnz.State.Station.{World, not_connected, idle}
use fledge_south_hnz.Link.Activity.{is_active_state, is_passive, input_open}
use fledge_south_hnz.Link.Coherence.{Coherent}
use fledge_south_hnz.Path.Samples.{codes, bulle_format, idle_path}

abbrev pub hnz_conf : HnzConf
hnz_conf = record {
  codes = codes;
  ip_a = "192.168.0.10";
  ip_b = "192.168.0.10";
  port_a = 6001;
  port_b = 6002;
  repeat_a = 3;
  repeat_b = 3;
  remote_station_addr = 12;
  inacc_timeout = 180;
  max_sarm = 5;
  repeat_timeout = 3000;
  anticipation_ratio = 3;
  test_msg_send = bulle_format;
  test_msg_receive = bulle_format;
  gi_schedule = record { activate = true; hour = 13; min = 30 };
  gi_repeat_count = 3;
  gi_time = 255;
  c_ack_time = 10;
  cmd_recv_timeout = pos 100000;
  bulle_time = 10;
  use_utc = true;
  connx_status = "hnz_status";
  last_ts_addr = 511;
  msg_list = ("TS", 12, (511, "TS1") ∷ []) ∷ ("TC", 12, (511, "TC1") ∷ []) ∷ [];
  cg_triggering_ts = [];
  config_is_complete = true;
  exchange_data_is_complete = true;
}

abbrev pub closed_path : HnzPath
closed_path = record idle_path { protocol_state = connection; connection_state = disconnected }

abbrev pub closed_world : World
closed_world = record {
  a = closed_path;
  b = closed_path;
  conn = record {
    active_path = none;
    first_input_connected = none;
    is_running = true;
    current = 1640995200000;
    elapsed_time_ms = 100;
    days_since_epoch = 18993;
    send_init_next_connection = true;
    gi_repeat = 0;
    gi_start_time = 0;
    gi_repeat_count_max = 3;
    gi_time_max = 255000;
    gi_schedule = record { activate = true; hour = 13; min = 30 };
    repeat_timeout = 3000;
    gi_schedule_already_sent = false;
    gi_scheduled_time = 1641043800000;
  };
  hnz = record {
    conf = hnz_conf;
    gi_addresses_received = [];
    has_ingest = true;
    day_section = 0;
    conn_status = not_connected;
    gi_status = idle;
    gi_in_queue = false;
    quality_update_timer = 0;
    quality_update_timeout_ms = 3000;
    ingested = [];
    audits = [];
  };
}

pub closed_world-Coherent : Coherent closed_world
unfolding is_active_state is_passive input_open
closed_world-Coherent = ground arith
