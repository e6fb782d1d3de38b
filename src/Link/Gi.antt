-- ===== src/Link/Gi.antt =====
-- General interrogations (src/hnzconnection.cpp, src/hnzpath.cpp, src/hnz.cpp): requests, their end,
-- repeats and the schedule. `fault null_pointer` is a call through a null active path.
use fledge_south_hnz.Prelude.{
  ℕ, ◌+◌, ◌-◌, ◌*◌, ◌/◌, ◌%◌, ltb, leb, ◌==◌, if◌then◌else◌, Bool, true, false, not, ◌&&◌, ◌||◌,
  none, some, [], Result, ok, fault, null_pointer, ◌>>=◌,
}
use fledge_south_hnz.State.Link.{PathId, Connection}
use fledge_south_hnz.State.Station.{World, path, put_path, GiStatus, in_progress, finished, failed}
use fledge_south_hnz.Path.Send.{send_info}
use fledge_south_hnz.Path.Commands.{gi_frame}
use fledge_south_hnz.Station.Monitor.{same_gi, update_gi_status}
use fledge_south_hnz.Station.Reading.{send_all_ts_quality_readings}

unfoldable pub notify_gi_sent : ℕ → World → World
unfolding same_gi update_gi_status
notify_gi_sent now w = record w {
  hnz =
      if w.conn.gi_repeat == 0 || not (same_gi w.hnz.gi_status in_progress)
      then update_gi_status GiStatus.started w.hnz
      else w.hnz;
  conn = record (w.conn) { gi_repeat = w.conn.gi_repeat + 1; gi_start_time = now };
}

unfoldable pub send_general_interrogation : ℕ → PathId → World → World
unfolding send_info gi_frame notify_gi_sent
send_general_interrogation now i w =
    let (p, sent) = send_info now (path i w) gi_frame in
    let u = put_path i p w in if sent then notify_gi_sent now u else u

-- `getActivePath()->sendGeneralInterrogation()`.
unfoldable pub interrogate_active : ℕ → World → Result World
interrogate_active now w = elim w.conn.active_path [
  | none ↦ fault null_pointer
  | some i ↦ ok (send_general_interrogation now i w)
]

-- `onGICompleted`.
unfoldable pub on_gi_completed : World → World
on_gi_completed w = record w { conn = record (w.conn) { gi_repeat = 0 } }

unfoldable pub reset_gi_queue : World → World
reset_gi_queue w = record w { hnz = record (w.hnz) { gi_addresses_received = [] } }

-- The queued request at the end of `GICompleted`.
unfoldable pub send_queued_gi : ℕ → World → Result World
unfolding interrogate_active
send_queued_gi now w =
    if w.hnz.gi_in_queue
    then (do
      u ← interrogate_active now w
      ok (record u { hnz = record (u.hnz) { gi_in_queue = false } }))
    else ok w

-- `GICompleted`: the TS that were not received are sent as invalid, and the outcome is reported.
unfoldable pub gi_completed : ℕ → Bool → World → Result World
unfolding on_gi_completed reset_gi_queue send_queued_gi update_gi_status
    send_all_ts_quality_readings
gi_completed now success w = do
  let u = on_gi_completed w
  h ← send_all_ts_quality_readings now true false u.hnz.gi_addresses_received u.hnz
  send_queued_gi now (
      reset_gi_queue (record u { hnz = update_gi_status (if success then finished else failed) h }))

unfoldable pub check_gi_completed : ℕ → Bool → World → Result World
unfolding gi_completed send_general_interrogation reset_gi_queue
check_gi_completed now success w =
    if success
    then gi_completed now true w
    else (if ltb w.conn.gi_repeat_count_max w.conn.gi_repeat
        then gi_completed now false w
        else (let u = reset_gi_queue w in
            ok
              (elim u.conn.active_path [ none ↦ u | some i ↦ send_general_interrogation now i u ])))

-- The time of the day's scheduled GI.
abbrev pub scheduled_time : Connection → ℕ
scheduled_time c =
    c.current - c.current % 86400000 + (c.gi_schedule.hour * 60 + c.gi_schedule.min) * 60000

-- A new day sets the next scheduled GI.
unfoldable pub detect_new_day : Connection → Connection
detect_new_day c = if c.days_since_epoch == c.current / 86400000 then c else record c {
  gi_schedule_already_sent = false;
  gi_scheduled_time = scheduled_time c;
  days_since_epoch = c.current / 86400000;
}

-- The part of `m_check_GI` on an ongoing GI.
unfoldable pub check_gi_timeout : ℕ → World → Result World
unfolding check_gi_completed
check_gi_timeout now w =
    if not (w.conn.gi_repeat == 0) && ltb (w.conn.gi_start_time + w.conn.gi_time_max) w.conn.current
    then check_gi_completed now false w
    else ok w

-- Is the day's GI due?
unfoldable pub gi_due : Connection → Bool
gi_due c =
    c.gi_schedule.activate && not c.gi_schedule_already_sent && leb c.gi_scheduled_time c.current

-- The scheduled GI is skipped where no path is active, and counts as sent.
unfoldable pub send_scheduled_gi : ℕ → World → World
unfolding gi_due send_general_interrogation
send_scheduled_gi now w =
    if gi_due w.conn
    then (let u : World = elim w.conn.active_path [
      | none ↦ w
      | some i ↦ send_general_interrogation now i w
    ] in
        record u { conn = record (u.conn) { gi_schedule_already_sent = true } })
    else w

-- `m_check_GI`.
unfoldable pub check_gi : ℕ → World → Result World
unfolding check_gi_timeout detect_new_day send_scheduled_gi
check_gi now w = do
  u ← check_gi_timeout now w
  ok (send_scheduled_gi now (record u { conn = detect_new_day u.conn }))

-- The settings at the start of `m_manageMessages`.
unfoldable pub start_schedule : Connection → Connection
start_schedule c = record c {
  days_since_epoch = c.current / 86400000;
  gi_scheduled_time = scheduled_time c;
  gi_schedule_already_sent =
      if c.gi_schedule.activate && leb (scheduled_time c) c.current
      then true
      else c.gi_schedule_already_sent;
}
