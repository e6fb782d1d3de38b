-- ===== src/State/Link.antt =====
-- The two paths and the connection (include/hnzpath.h, include/hnzconnection.h).
-- Times are milliseconds since the epoch, as unbounded numbers; counters of the protocol are numbers.
use fledge_south_hnz.Prelude.{ℕ, Bool, String, Option, List, ℤ}
use fledge_south_hnz.State.Conf.{Codes, BulleFormat, GiScheduleFormat}

pub data ConnectionEvent : Type 0 where
  tcp_cnx_established received_sarm received_ua to_recv max_send tcp_cnx_lost : ConnectionEvent
  to_send received_info send_tc to_ua max_sarm_sent to_lastcg to_tcack : ConnectionEvent

pub data ProtocolState : Type 0 where
  connection input_connected output_connected connected : ProtocolState

pub data ConnectionState : Type 0 where
  disconnected pending_hnz passive active : ConnectionState

-- `timestamp` is never set nor read. Until a message is sent its `ns` is not set: 0 here.
pub record Message : Type 0 where
  pub ns : ℕ
  pub payload : List ℕ

-- `ack` is never set nor read.
pub record CommandMessage : Type 0 where
  pub kind : String  -- `type`
  pub addr : ℤ
  pub timestamp_max : ℕ

-- The calls of HNZClient, which is not part of the repository.
pub data ClientCall : Type 0 where
  create_and_send : ℕ → List ℕ → ClientCall
  stop : ClientCall

-- What the constructor of HNZPath fixes. `repeat_max` is its argument, before the -1.
pub record PathConf : Type 0 where
  pub codes : Codes
  pub repeat_max : ℕ
  pub remote_address : ℕ
  pub address_pa : ℕ
  pub address_arp : ℕ
  pub max_sarm : ℕ
  pub inacc_timeout : ℕ
  pub repeat_timeout : ℕ
  pub anticipation_ratio : ℕ
  pub bulle_time : ℕ
  pub test_msg_receive : BulleFormat
  pub test_msg_send : BulleFormat
  pub c_ack_time_max : ℕ

-- HNZPath. `created` tells whether the `shared_ptr` of `m_paths` is set; `client_calls` holds what
-- was asked of `m_hnz_client`, the latest first.
pub record HnzPath : Type 0 where
  pub conf : PathConf
  pub open conf use *
  pub created : Bool
  pub msg_waiting : List Message
  pub msg_sent : List Message
  pub command_sent : List CommandMessage
  pub last_sent_time : ℕ
  pub is_running : Bool
  pub state_changed : Bool
  pub protocol_state : ProtocolState
  pub connection_state : ConnectionState
  pub nr : ℕ
  pub ns : ℕ
  pub nrr : ℕ
  pub last_msg_time : ℕ
  pub last_msg_sent_time : ℕ
  pub last_sarm_sent_time : ℕ
  pub last_connected : ℕ
  pub nbr_sarm_sent : ℕ
  pub repeats : ℕ  -- `m_repeat`
  pub client_calls : List ClientCall

-- The two entries of `m_paths`.
pub data PathId : Type 0 where
  path_a path_b : PathId

pub record Connection : Type 0 where
  pub active_path : Option PathId
  pub first_input_connected : Option PathId
  pub is_running : Bool
  pub current : ℕ
  pub elapsed_time_ms : ℕ
  pub days_since_epoch : ℕ
  pub send_init_next_connection : Bool
  pub gi_repeat : ℕ
  pub gi_start_time : ℕ
  pub gi_repeat_count_max : ℕ
  pub gi_time_max : ℕ
  pub gi_schedule : GiScheduleFormat
  pub repeat_timeout : ℕ
  pub gi_schedule_already_sent : Bool
  pub gi_scheduled_time : ℕ
