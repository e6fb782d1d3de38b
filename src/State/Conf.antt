-- ===== src/State/Conf.antt =====
-- The configuration that src/hnzconf.cpp leaves behind (include/hnzconf.h), and its readers.
-- The message codes are macros of the HNZ library, which is not part of the repository.
use fledge_south_hnz.Prelude.{
  ℕ, ℤ, pos, false, ◌==◌, if◌then◌else◌, String, str_eq, Bool, ◌&&◌, Option, none, some, List, [],
  ◌∷◌, length,
}

-- The constants of the HNZ library that the code uses.
pub record Codes : Type 0 where
  pub sarm_code : ℕ
  pub ua_code : ℕ
  pub tm4_code : ℕ
  pub tsce_code : ℕ
  pub tscg_code : ℕ
  pub tmn_code : ℕ
  pub modulo_code : ℕ
  pub tcack_code : ℕ
  pub tvcack_code : ℕ
  pub setdate_code : ℕ
  pub settime_code : ℕ
  pub tc_code : ℕ
  pub tvc_code : ℕ

pub record BulleFormat : Type 0 where
  pub first : ℕ
  pub second : ℕ

pub record GiScheduleFormat : Type 0 where
  pub activate : Bool
  pub hour : ℕ
  pub min : ℕ

-- The labels of one message code, by address, in the order of the `std::map`.
abbrev pub Labels : Type 0
Labels = List (ℕ × String)

-- `ip_a` and `ip_b` are the two entries of `m_paths_ip`, and so for the ports and repeats.
pub record HnzConf : Type 0 where
  pub codes : Codes
  pub ip_a : String
  pub ip_b : String
  pub port_a : ℕ
  pub port_b : ℕ
  pub repeat_a : ℕ
  pub repeat_b : ℕ
  pub remote_station_addr : ℕ
  pub inacc_timeout : ℕ
  pub max_sarm : ℕ
  pub repeat_timeout : ℕ
  pub anticipation_ratio : ℕ
  pub test_msg_send : BulleFormat
  pub test_msg_receive : BulleFormat
  pub gi_schedule : GiScheduleFormat
  pub gi_repeat_count : ℕ
  pub gi_time : ℕ
  pub c_ack_time : ℕ
  pub cmd_recv_timeout : ℤ
  pub bulle_time : ℕ
  pub use_utc : Bool
  pub connx_status : String
  pub last_ts_addr : ℕ
  -- `m_msg_list`: message code, remote address, message address.
  pub msg_list : List (String × ℕ × Labels)
  -- `m_cgTriggeringTsAdresses`.
  pub cg_triggering_ts : List (ℕ × ℕ)
  pub config_is_complete : Bool
  pub exchange_data_is_complete : Bool

-- `HNZConf::is_complete`.
unfoldable pub is_complete : HnzConf → Bool
is_complete c = c.config_is_complete && c.exchange_data_is_complete

-- A configuration before any import, for the constants of the HNZ library.
unfoldable pub new_conf : Codes → HnzConf
new_conf codes = record {
  codes = codes;
  ip_a = "";
  ip_b = "";
  port_a = 0;
  port_b = 0;
  repeat_a = 0;
  repeat_b = 0;
  remote_station_addr = 0;
  inacc_timeout = 0;
  max_sarm = 0;
  repeat_timeout = 0;
  anticipation_ratio = 0;
  test_msg_send = record { first = 0; second = 0 };
  test_msg_receive = record { first = 0; second = 0 };
  gi_schedule = record { activate = false; hour = 0; min = 0 };
  gi_repeat_count = 0;
  gi_time = 0;
  c_ack_time = 0;
  cmd_recv_timeout = pos 0;
  bulle_time = 0;
  use_utc = false;
  connx_status = "";
  last_ts_addr = 0;
  msg_list = [];
  cg_triggering_ts = [];
  config_is_complete = false;
  exchange_data_is_complete = false;
}

-- `map::at` on the two outer maps: none is the exception `std::out_of_range`.
unfoldable pub labels_of : String → ℕ → List (String × ℕ × Labels) → Option Labels
labels_of code station [] = none
labels_of code station ((c, s, ls) ∷ rest) =
    if str_eq c code && s == station then some ls else labels_of code station rest

-- `map::at` on the inner map.
unfoldable pub label_at : ℕ → Labels → Option String
label_at addr [] = none
label_at addr ((a, l) ∷ rest) = if a == addr then some l else label_at addr rest

-- The empty text stands for a message that is not configured.
unfoldable pub get_label : HnzConf → String → ℕ → String
get_label c code addr = elim (labels_of code c.remote_station_addr c.msg_list) [
  | none ↦ ""
  | some ls ↦ elim (label_at addr ls) [ none ↦ "" | some l ↦ l ]
]

unfoldable pub get_number_cg : HnzConf → ℕ
get_number_cg c = elim (labels_of "TS" c.remote_station_addr c.msg_list) [
  | none ↦ 0
  | some ls ↦ length ls
]

-- `none` stands for the -1 of the source.
trigger_at : ℕ → List (ℕ × ℕ) → Option ℕ
trigger_at addr [] = none
trigger_at addr ((a, v) ∷ rest) = if a == addr then some v else trigger_at addr rest

unfoldable pub is_ts_address_cg_triggering : HnzConf → ℕ → Option ℕ
unfolding trigger_at
is_ts_address_cg_triggering c addr = trigger_at addr c.cg_triggering_ts
