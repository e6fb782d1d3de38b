-- ===== src/Link/Audits.antt =====
-- The audits of code SRVFL (src/hnzpath.cpp, src/hnzconnection.cpp, src/hnz.cpp): what the latest of
-- them tells of each path and of the connection.
use fledge_south_hnz.Prelude.{
  ◌≡◌, if◌then◌else◌, Bool, true, false, Option, none, some, List, [], ◌∷◌,
}
use fledge_south_hnz.State.Conf.{HnzConf}
use fledge_south_hnz.State.Link.{HnzPath, PathId, path_a, path_b, ConnectionState, passive, active}
use fledge_south_hnz.State.Station.{
  World, same_path, ConnectionStatus, not_connected, Audit, service_success, service_fail,
  path_active, path_passive, path_fail, path_unused,
}

-- The latest audit of a kind.
abbrev pub latest : (Audit → Bool) → List Audit → Option Audit
latest f [] = none
latest f (x ∷ xs) = if f x then some x else latest f xs

abbrev pub is_of : PathId → Audit → Bool
is_of i (path_active j) = same_path i j
is_of i (path_passive j) = same_path i j
is_of i (path_fail j) = same_path i j
is_of i (path_unused j) = same_path i j
is_of i _ = false

abbrev pub is_of_service : Audit → Bool
is_of_service service_success = true
is_of_service service_fail = true
is_of_service _ = false

-- The audit that fits a state of a path.
abbrev state_audit : PathId → ConnectionState → Audit
state_audit i active = path_active i
state_audit i passive = path_passive i
state_audit i _ = path_fail i

abbrev pub path_audit : PathId → HnzPath → Audit
path_audit i p = if p.created then state_audit i p.connection_state else path_unused i

abbrev pub service_audit : ConnectionStatus → Audit
service_audit ConnectionStatus.started = service_success
service_audit not_connected = service_fail

-- The latest audits tell the states of both paths and of the connection, whose configuration is c.
pub record Told (c : HnzConf) (w : World) : Type 0 where
  pub conf : w.hnz.conf ≡ c
  pub on_a : latest (is_of path_a) w.hnz.audits ≡ some (path_audit path_a w.a)
  pub on_b : latest (is_of path_b) w.hnz.audits ≡ some (path_audit path_b w.b)
  pub service : latest is_of_service w.hnz.audits ≡ some (service_audit w.hnz.conn_status)
