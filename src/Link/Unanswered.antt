-- ===== src/Link/Unanswered.antt =====
-- The end of a general interrogation without an active path (`GICompleted` of src/hnz.cpp).
use fledge_south_hnz.Prelude.{
  ℕ, ◌≡◌, refl, ap, ◌∙◌, Bool, true, false, none, some, List, [], ◌∷◌, if◌then◌else◌, Result, ok,
  fault, null_pointer, out_of_range, ◌>>=◌, Ensures, Ensures-eq-ok, option-both, option-when,
  if-cases, arith,
}
use fledge_south_hnz.State.Conf.{Labels, labels_of}
use fledge_south_hnz.State.Station.{World, Hnz, Reading, GiStatus, finished, failed}
use fledge_south_hnz.Station.Monitor.{
  send_to_fledge, ingest, update_gi_status, send_south_monitoring_event,
}
use fledge_south_hnz.Station.Reading.{
  ReadingParameters, default_parameters, quality_readings, send_all_quality_readings,
  send_all_ts_quality_readings,
}
use fledge_south_hnz.Link.Gi.{
  send_general_interrogation, interrogate_active, on_gi_completed, reset_gi_queue, send_queued_gi,
  gi_completed,
}
use fledge_south_hnz.Link.Interrogation.{send_all_ts_quality_readings-Succeeds}

gi_in_queue-send_to_fledge :
    (h : Hnz) (rs : List Reading) → (send_to_fledge h rs).gi_in_queue ≡ h.gi_in_queue
unfolding send_to_fledge ingest
gi_in_queue-send_to_fledge h [] = refl
gi_in_queue-send_to_fledge h (r ∷ rs) =
    let kept : (ingest h r).gi_in_queue ≡ h.gi_in_queue = ground arith in
    gi_in_queue-send_to_fledge (ingest h r) rs ∙ kept

gi_in_queue-update_gi_status :
    (s : GiStatus) (h : Hnz) → (update_gi_status s h).gi_in_queue ≡ h.gi_in_queue
unfolding update_gi_status send_south_monitoring_event send_to_fledge ingest
gi_in_queue-update_gi_status s h = ground arith

-- The readings of a quality update leave the queued request.
abbrev SameQueue : Hnz → Hnz → Type 0
SameQueue h k = k.gi_in_queue ≡ h.gi_in_queue

send_all_quality_readings-SameQueue :
    (t : ReadingParameters) (reject : List ℕ) (h : Hnz)
    → Ensures (SameQueue h) (send_all_quality_readings t reject h)
unfolding send_all_quality_readings
send_all_quality_readings-SameQueue t reject h =
    option-both (Ensures (SameQueue h)) (labels_of t.msg_code t.station_addr h.conf.msg_list)
      (fault out_of_range) _ tt
      (λ labels. gi_in_queue-send_to_fledge h (quality_readings t reject labels))

send_all_ts_quality_readings-SameQueue :
    (now : ℕ) (reject : List ℕ) (h : Hnz)
    → Ensures (SameQueue h) (send_all_ts_quality_readings now true false reject h)
unfolding send_all_ts_quality_readings
send_all_ts_quality_readings-SameQueue now reject h =
    send_all_quality_readings-SameQueue
      (record default_parameters {
        msg_code = "TS";
        station_addr = h.conf.remote_station_addr;
        valid = 1;
        outdated = false;
        ts = now;
        quality_update = true;
      })
      reject h

send_queued_gi-null :
    (now : ℕ) (w : World)
    → w.conn.active_path ≡ none
    → w.hnz.gi_in_queue ≡ true
    → send_queued_gi now w ≡ fault null_pointer
unfolding send_queued_gi interrogate_active
send_queued_gi-null now w idle queued =
    if-cases (λ r. r ≡ fault null_pointer) w.hnz.gi_in_queue _ (ok w)
      (λ e.
        option-when (λ r. (r >>= answered) ≡ fault null_pointer) w.conn.active_path
          (fault null_pointer) (λ i. ok (send_general_interrogation now i w)) refl (λ i f. cc))
      (λ e. cc)
  where
    answered : World → Result World
    answered u = ok (record u { hnz = record (u.hnz) { gi_in_queue = false } })

-- If no path is active, another interrogation is queued and TS are configured for the station, the
-- end of an interrogation is a call through the null active path.
pub gi_completed-null :
    (now : ℕ) (success : Bool) (w : World) (ls : Labels)
    → w.conn.active_path ≡ none
    → w.hnz.gi_in_queue ≡ true
    → labels_of "TS" w.hnz.conf.remote_station_addr w.hnz.conf.msg_list ≡ some ls
    → gi_completed now success w ≡ fault null_pointer
unfolding gi_completed on_gi_completed reset_gi_queue
gi_completed-null now success w ls idle queued configured =
    let (h, e) =
      send_all_ts_quality_readings-Succeeds now true false w.hnz.gi_addresses_received w.hnz ls
        configured in
    let s = if success then finished else failed in
    let kept =
      Ensures-eq-ok (SameQueue w.hnz) e
        (send_all_ts_quality_readings-SameQueue now w.hnz.gi_addresses_received w.hnz) in
    ap
      (λ r. r >>= λ k.
        send_queued_gi now
          (reset_gi_queue (record (on_gi_completed w) { hnz = update_gi_status s k })))
      e
    ∙ send_queued_gi-null now _ idle (gi_in_queue-update_gi_status s h ∙ kept ∙ queued)
