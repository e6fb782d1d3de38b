-- ===== src/Station/Status.antt =====
-- What the status updates of src/hnz.cpp change of a station.
use fledge_south_hnz.Prelude.{◌≡◌, arith}
use fledge_south_hnz.State.Station.{ConnectionStatus, Hnz}
use fledge_south_hnz.Station.Monitor.{update_hnz_connection}

-- After an update the status is the new one.
pub conn_status-update_hnz_connection :
    (s : ConnectionStatus) (h : Hnz) → (update_hnz_connection s h).conn_status ≡ s
unfolding update_hnz_connection
conn_status-update_hnz_connection s h = ground arith
