-- ===== src/Station/Monitor.antt =====
-- Readings to Fledge, and the connection and GI status (src/hnz.cpp).
use fledge_south_hnz.Prelude.{
  ℕ, if◌then◌else◌, Bool, true, false, ◌||◌, String, str_eq, List, [], ◌∷◌, ◌++◌,
}
use fledge_south_hnz.State.Station.{
  ConnectionStatus, not_connected, GiStatus, idle, in_progress, failed, finished, text, Reading,
  Audit, service_success, service_fail, Hnz,
}

-- A reading is dropped as long as no callback is registered.
unfoldable pub ingest : Hnz → Reading → Hnz
ingest h r = if h.has_ingest then record h { ingested = r ∷ h.ingested } else h

unfoldable pub send_to_fledge : Hnz → List Reading → Hnz
send_to_fledge h [] = h
send_to_fledge h (r ∷ rs) = send_to_fledge (ingest h r) rs

unfoldable pub register_ingest : Hnz → Hnz
register_ingest h = record h { has_ingest = true }

unfoldable pub connection_text : ConnectionStatus → String
connection_text ConnectionStatus.started = "started"
connection_text not_connected = "not connected"

unfoldable pub gi_text : GiStatus → String
gi_text GiStatus.started = "started"
gi_text in_progress = "in progress"
gi_text failed = "failed"
gi_text finished = "finished"
gi_text idle = "idle"

-- The reading of a status event.
unfoldable pub south_event : Hnz → Bool → Bool → Reading
unfolding connection_text gi_text
south_event h connx_status gi_status = record {
  asset = h.conf.connx_status;
  object = "south_event";
  attributes =
      (if connx_status then ("connx_status", text (connection_text h.conn_status)) ∷ [] else [])
      ++ (if gi_status then ("gi_status", text (gi_text h.gi_status)) ∷ [] else []);
}

unfoldable pub send_south_monitoring_event : Hnz → Bool → Bool → Hnz
unfolding south_event send_to_fledge ingest
send_south_monitoring_event h connx_status gi_status =
    if str_eq h.conf.connx_status ""
    then h
    else (if connx_status || gi_status
        then send_to_fledge h (south_event h connx_status gi_status ∷ [])
        else h)

unfoldable pub same_connection : ConnectionStatus → ConnectionStatus → Bool
same_connection ConnectionStatus.started ConnectionStatus.started = true
same_connection not_connected not_connected = true
same_connection _ _ = false

unfoldable pub same_gi : GiStatus → GiStatus → Bool
same_gi idle idle = true
same_gi GiStatus.started GiStatus.started = true
same_gi in_progress in_progress = true
same_gi failed failed = true
same_gi finished finished = true
same_gi _ _ = false

unfoldable pub connection_audit : ConnectionStatus → Audit
connection_audit ConnectionStatus.started = service_success
connection_audit not_connected = service_fail

-- The time until the readings are marked as outdated runs only while the connection is lost.
unfoldable pub timer_for : ConnectionStatus → Hnz → ℕ
timer_for ConnectionStatus.started h = 0
timer_for not_connected h = h.quality_update_timeout_ms

unfoldable pub update_hnz_connection : ConnectionStatus → Hnz → Hnz
unfolding same_connection send_south_monitoring_event connection_audit timer_for
update_hnz_connection new_state h =
    if same_connection h.conn_status new_state
    then h
    else audited (
        send_south_monitoring_event
          (record h { conn_status = new_state; quality_update_timer = timer_for new_state h }) true
          false)
  where
    audited : Hnz → Hnz
    audited k = record k { audits = connection_audit new_state ∷ k.audits }

unfoldable pub update_gi_status : GiStatus → Hnz → Hnz
unfolding same_gi send_south_monitoring_event
update_gi_status new_state h =
    if same_gi h.gi_status new_state
    then h
    else send_south_monitoring_event (record h { gi_status = new_state }) false true
