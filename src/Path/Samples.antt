-- ===== src/Path/Samples.antt =====
-- A path of a small configuration, with the message codes that the unit tests use.
use fledge_south_hnz.Prelude.{ℕ, true, false, List, [], ◌∷◌}
use fledge_south_hnz.State.Conf.{Codes, BulleFormat}
use fledge_south_hnz.State.Link.{HnzPath, PathConf, Message, connected, active}

abbrev pub codes : Codes
codes = record {
  sarm_code = 0x0F;
  ua_code = 0x63;
  tm4_code = 0x02;
  tsce_code = 0x0B;
  tscg_code = 0x16;
  tmn_code = 0x0C;
  modulo_code = 0x0F;
  tcack_code = 0x09;
  tvcack_code = 0x0A;
  setdate_code = 0x1C;
  settime_code = 0x1D;
  tc_code = 0x19;
  tvc_code = 0x1A;
}

abbrev pub bulle_format : BulleFormat
bulle_format = record { first = 0x13; second = 0x04 }

abbrev pub path_conf : PathConf
path_conf = record {
  codes = codes;
  repeat_max = 3;
  remote_address = 12;
  address_pa = 49;
  address_arp = 51;
  max_sarm = 5;
  inacc_timeout = 180;
  repeat_timeout = 3000;
  anticipation_ratio = 3;
  bulle_time = 10;
  test_msg_receive = bulle_format;
  test_msg_send = bulle_format;
  c_ack_time_max = 10000;
}

abbrev pub message : ℕ → ℕ → Message
message n x = record { ns = n; payload = x ∷ 1 ∷ [] }

-- A path that is connected, with m_NRR 6 and these queues, the sent ones numbered 6, 7, 0, ...
abbrev pub connected_path : ℕ → List Message → List Message → HnzPath
connected_path next sent waiting = record {
  conf = path_conf;
  created = true;
  msg_waiting = waiting;
  msg_sent = sent;
  command_sent = [];
  last_sent_time = 1000;
  is_running = true;
  state_changed = false;
  protocol_state = connected;
  connection_state = active;
  nr = 2;
  ns = next;
  nrr = 6;
  last_msg_time = 1000;
  last_msg_sent_time = 1000;
  last_sarm_sent_time = 0;
  last_connected = 0;
  nbr_sarm_sent = 0;
  repeats = 0;
  client_calls = [];
}

-- Three messages sent, two waiting.
abbrev pub busy_path : HnzPath
busy_path =
    connected_path 1 (message 6 0x19 ∷ message 7 0x1A ∷ message 0 0x1B ∷ [])
      (message 0 0x1C ∷ message 0 0x1D ∷ [])

-- Nothing sent, nothing waiting.
abbrev pub idle_path : HnzPath
idle_path = connected_path 6 [] []
