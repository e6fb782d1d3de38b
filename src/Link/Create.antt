-- ===== src/Link/Create.antt =====
-- The constructors `HNZPath::HNZPath` (src/hnzpath.cpp) and `HNZConnection::HNZConnection`
-- (src/hnzconnection.cpp). Settings that the source keeps as `int` are below 2^31 here.
use fledge_south_hnz.Prelude.{
  ℕ, ◌+◌, ◌*◌, ◌%◌, ◌^◌, if◌then◌else◌, Bool, true, false, ◌&&◌, String, str_eq, none, [], ◌∷◌,
}
use fledge_south_hnz.State.Conf.{HnzConf}
use fledge_south_hnz.State.Link.{
  HnzPath, PathConf, PathId, path_a, path_b, Connection, connection, disconnected,
}
use fledge_south_hnz.State.Station.{World, put_path, Audit, path_unused, path_fail, service_fail}
use fledge_south_hnz.Link.Protocol.{resolve_connection, run_action}

abbrev pub ip_of : PathId → HnzConf → String
ip_of path_a c = c.ip_a
ip_of path_b c = c.ip_b

abbrev pub repeat_of : PathId → HnzConf → ℕ
repeat_of path_a c = c.repeat_a
repeat_of path_b c = c.repeat_b

-- The settings that a path takes.
unfoldable pub path_conf_of : PathId → HnzConf → PathConf
path_conf_of i c = record {
  codes = c.codes;
  repeat_max = repeat_of i c;
  remote_address = c.remote_station_addr;
  address_pa = (c.remote_station_addr * 4 + 1) % 256;
  address_arp = (c.remote_station_addr * 4 + 3) % 256;
  max_sarm = c.max_sarm;
  inacc_timeout = c.inacc_timeout;
  repeat_timeout = c.repeat_timeout;
  anticipation_ratio = c.anticipation_ratio;
  bulle_time = c.bulle_time;
  test_msg_receive = c.test_msg_receive;
  test_msg_send = c.test_msg_send;
  c_ack_time_max = c.c_ack_time * 1000 % 2 ^ 32;
}

-- The members as they are declared, before the body of the constructor; `created` is false for a
-- path that `m_paths` does not hold.
unfoldable pub declared_path : PathConf → Bool → HnzPath
declared_path c made = record {
  conf = c;
  created = made;
  msg_waiting = [];
  msg_sent = [];
  command_sent = [];
  last_sent_time = 0;
  is_running = true;
  state_changed = false;
  protocol_state = connection;
  connection_state = disconnected;
  nr = 0;
  ns = 0;
  nrr = 0;
  last_msg_time = 0;
  last_msg_sent_time = 0;
  last_sarm_sent_time = 0;
  last_connected = 0;
  nbr_sarm_sent = 0;
  repeats = 0;
  client_calls = [];
}

unfoldable pub add_audit : Audit → World → World
add_audit x w = record w { hnz = record (w.hnz) { audits = x ∷ w.hnz.audits } }

-- The path with the audit of its start, if its address is configured, or the audit of its absence.
unfoldable pub create_path : ℕ → PathId → HnzConf → World → World
unfolding path_conf_of declared_path add_audit run_action
create_path now i c w =
    if str_eq (ip_of i c) ""
    then add_audit (path_unused i) w
    else run_action now i resolve_connection
        (add_audit (path_fail i) (put_path i (declared_path (path_conf_of i c) true) w))

unfoldable pub declared_connection : Connection
declared_connection = record {
  active_path = none;
  first_input_connected = none;
  is_running = false;
  current = 0;
  elapsed_time_ms = 0;
  days_since_epoch = 0;
  send_init_next_connection = true;
  gi_repeat = 0;
  gi_start_time = 0;
  gi_repeat_count_max = 0;
  gi_time_max = 0;
  gi_schedule = record { activate = false; hour = 0; min = 0 };
  repeat_timeout = 0;
  gi_schedule_already_sent = false;
  gi_scheduled_time = 0;
}

-- The connection with its members as declared, and no path.
unfoldable pub declared_link : HnzConf → World → World
unfolding declared_connection path_conf_of declared_path
declared_link c w = record w {
  a = declared_path (path_conf_of path_a c) false;
  b = declared_path (path_conf_of path_b c) false;
  conn = declared_connection;
}

-- The settings at the end of the constructor, which makes the connection run.
unfoldable pub set_settings : HnzConf → Connection → Connection
set_settings c k = record k {
  gi_repeat_count_max = c.gi_repeat_count;
  gi_time_max = c.gi_time * 1000 % 2 ^ 32;
  gi_schedule = c.gi_schedule;
  gi_schedule_already_sent = false;
  repeat_timeout = c.repeat_timeout;
  is_running = true;
}

unfoldable pub create_connection : ℕ → HnzConf → World → World
unfolding declared_link create_path add_audit set_settings
create_connection now c w =
    let u = declared_link c w in
    let v = add_audit service_fail (create_path now path_b c (create_path now path_a c u)) in
    if str_eq c.ip_a "" && str_eq c.ip_b "" then u else record v { conn = set_settings c v.conn }
