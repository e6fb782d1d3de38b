-- ===== src/State/Station.antt =====
-- The class HNZ (include/hnz.h) and the whole plugin: two paths, the connection, the station.
use fledge_south_hnz.Prelude.{ℕ, Bool, true, false, String, Option, none, some, List, ℤ}
use fledge_south_hnz.State.Conf.{HnzConf}
use fledge_south_hnz.State.Link.{HnzPath, PathId, path_a, path_b, Connection}

pub data ConnectionStatus : Type 0 where
  started not_connected : ConnectionStatus

pub data GiStatus : Type 0 where
  idle started in_progress failed finished : GiStatus

-- The value of a datapoint.
pub data Value : Type 0 where
  text : String → Value
  num : ℤ → Value

-- A reading with one object: what the code hands to the constructors of `Reading` and `Datapoint`.
pub record Reading : Type 0 where
  pub asset : String
  pub object : String
  pub attributes : List (String × Value)

-- The audits of code SRVFL. The message is the service name, then "-connected", "-disconnected",
-- or the path's letter and its state.
pub data Audit : Type 0 where
  service_success service_fail : Audit
  path_active path_passive path_fail path_unused : PathId → Audit

-- `ingested` and `audits` hold what was sent to Fledge, the latest first.
pub record Hnz : Type 0 where
  pub conf : HnzConf
  pub gi_addresses_received : List ℕ
  pub has_ingest : Bool
  pub day_section : ℕ
  pub conn_status : ConnectionStatus
  pub gi_status : GiStatus
  pub gi_in_queue : Bool
  pub quality_update_timer : ℕ
  pub quality_update_timeout_ms : ℕ
  pub ingested : List Reading
  pub audits : List Audit

pub record World : Type 0 where
  pub a : HnzPath
  pub b : HnzPath
  pub conn : Connection
  pub hnz : Hnz

abbrev pub path : PathId → World → HnzPath
path path_a w = w.a
path path_b w = w.b

abbrev pub put_path : PathId → HnzPath → World → World
put_path path_a p w = record w { a = p }
put_path path_b p w = record w { b = p }

abbrev pub other : PathId → PathId
other path_a = path_b
other path_b = path_a

abbrev pub same_path : PathId → PathId → Bool
same_path path_a path_a = true
same_path path_b path_b = true
same_path _ _ = false

-- `path == m_active_path`, where none is the null pointer.
abbrev pub is_path : PathId → Option PathId → Bool
is_path i none = false
is_path i (some j) = same_path i j
