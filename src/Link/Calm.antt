-- ===== src/Link/Calm.antt =====
-- General interrogations (src/hnzconnection.cpp, src/hnz.cpp), by what they change of the parts of
-- the state that the invariant of the two paths reads.
use fledge_south_hnz.Prelude.{
  ℕ, ◌+◌, ◌≡◌, refl, ◌∙◌, Bool, true, false, [], none, some, arith, if◌then◌else◌, Result, ok,
  fault, Ensures, Ensures->>=, Ensures-if, if-both, option-when, null_pointer, ◌>>=◌, not, ◌&&◌,
  ◌||◌, ltb, ◌==◌,
}
use fledge_south_hnz.State.Link.{HnzPath, PathId}
use fledge_south_hnz.State.Station.{
  World, Hnz, path, put_path, GiStatus, in_progress, finished, failed,
}
use fledge_south_hnz.Path.Send.{send_info}
use fledge_south_hnz.Path.Commands.{gi_frame}
use fledge_south_hnz.Station.Monitor.{same_gi, update_gi_status}
use fledge_south_hnz.Link.Steady.{Steady-refl, send_info-Steady}
use fledge_south_hnz.Link.Gi.{
  notify_gi_sent, send_general_interrogation, interrogate_active, on_gi_completed, reset_gi_queue,
  send_queued_gi, gi_completed, check_gi_completed, detect_new_day, check_gi_timeout, gi_due,
  send_scheduled_gi, check_gi,
}
use fledge_south_hnz.Link.Quiet.{
  Quiet, Rests, Rests-back, Quiet-refl, Quiet-trans, put_path-Quiet, hnz-Quiet, conn-Quiet,
}
use fledge_south_hnz.Link.Report.{
  SameReport, send_all_ts_quality_readings-SameReport, report-update_gi_status,
}

notify_gi_sent-Quiet : (now : ℕ) (w : World) → (Rests w → ⊥) → Quiet w (notify_gi_sent now w)
unfolding notify_gi_sent
notify_gi_sent-Quiet now w busy = record {
  on_a = Steady-refl w.a;
  on_b = Steady-refl w.b;
  active = refl;
  first = refl;
  running = refl;
  reported =
      if-both (SameReport w.hnz)
        (w.conn.gi_repeat == 0 || not (same_gi w.hnz.gi_status in_progress))
        (update_gi_status GiStatus.started w.hnz) w.hnz
        (report-update_gi_status GiStatus.started w.hnz) refl;
  asks = λ r e. absurd (busy r);
}

-- With an active path the connection does not rest.
pub active-busy : (w : World) (i : PathId) → w.conn.active_path ≡ some i → Rests w → ⊥
active-busy w i e r = let f = r.0 in cc

pub send_general_interrogation-Quiet :
    (now : ℕ) (i : PathId) (w : World)
    → (Rests w → ⊥)
    → Quiet w (send_general_interrogation now i w)
unfolding send_general_interrogation
send_general_interrogation-Quiet now i w busy =
    let p : HnzPath = (send_info now (path i w) gi_frame).0 in
    let q : Quiet w (put_path i p w) =
      put_path-Quiet i p w (send_info-Steady now (path i w) gi_frame) in
    if-both (Quiet w) (send_info now (path i w) gi_frame).1 _ _
      (Quiet-trans q (notify_gi_sent-Quiet now (put_path i p w) (λ r. busy (Rests-back q r)))) q

-- A step that faults or is quiet.
abbrev pub Calm : World → Result World → Type 0
Calm w = Ensures (Quiet w)

pub Calm-after : {w u : World} (r : Result World) → Quiet w u → Calm u r → Calm w r
Calm-after (fault e) q c = tt
Calm-after (ok v) q c = Quiet-trans q c

pub Calm->>= :
    (w : World) (r : Result World) (next : World → Result World)
    → Calm w r
    → ((u : World) → Calm u (next u))
    → Calm w (r >>= next)
Calm->>= w r next c h =
    Ensures->>= (Quiet w) (Quiet w) r next c (λ u q. Calm-after (next u) q (h u))

interrogate_active-Calm : (now : ℕ) (w : World) → Calm w (interrogate_active now w)
unfolding interrogate_active
interrogate_active-Calm now w =
    option-when (Calm w) w.conn.active_path (fault null_pointer) _ tt
      (λ i e. send_general_interrogation-Quiet now i w (active-busy w i e))

send_queued_gi-Calm : (now : ℕ) (w : World) → Calm w (send_queued_gi now w)
unfolding send_queued_gi
send_queued_gi-Calm now w =
    Ensures-if (Quiet w) w.hnz.gi_in_queue _ _
      (Calm->>= w (interrogate_active now w) _ (interrogate_active-Calm now w)
        (λ u. hnz-Quiet u (record (u.hnz) { gi_in_queue = false }) refl))
      (Quiet-refl w)

gi_completed-Calm : (now : ℕ) (success : Bool) (w : World) → Calm w (gi_completed now success w)
unfolding gi_completed on_gi_completed reset_gi_queue
gi_completed-Calm now success w =
    Ensures->>= (SameReport w.hnz) (Quiet w) _ _
      (send_all_ts_quality_readings-SameReport now true false w.hnz.gi_addresses_received w.hnz)
      (λ h same.
        let v : World = on_gi_completed w in
        let k : Hnz = update_gi_status (if success then finished else failed) h in
        let u : World = reset_gi_queue (record v { hnz = k }) in
        Calm-after (send_queued_gi now u)
          (Quiet-trans (conn-Quiet w (v.conn) refl refl refl (λ e. refl)) (
            hnz-Quiet v (u.hnz)
              (report-update_gi_status (if success then finished else failed) h ∙ same)))
          (send_queued_gi-Calm now u))

pub check_gi_completed-Calm :
    (now : ℕ) (success : Bool) (w : World) → Calm w (check_gi_completed now success w)
unfolding check_gi_completed reset_gi_queue
check_gi_completed-Calm now success w =
    let u : World = record w { hnz = record (w.hnz) { gi_addresses_received = [] } } in
    let q : Quiet w u = hnz-Quiet w u.hnz refl in
    Ensures-if (Quiet w) success _ _ (gi_completed-Calm now true w) (
      Ensures-if (Quiet w) (ltb w.conn.gi_repeat_count_max w.conn.gi_repeat) _ _
        (gi_completed-Calm now false w)
        (option-when (Quiet w) w.conn.active_path u _ q (λ i e.
          Quiet-trans q
            (send_general_interrogation-Quiet now i u (λ r. active-busy w i e (Rests-back q r))))))

send_scheduled_gi-Quiet : (now : ℕ) (w : World) → Quiet w (send_scheduled_gi now w)
unfolding send_scheduled_gi
send_scheduled_gi-Quiet now w =
    let u : World = elim w.conn.active_path [
      | none ↦ w
      | some i ↦ send_general_interrogation now i w
    ] in
    let q : Quiet w u =
      option-when (Quiet w) w.conn.active_path w _ (Quiet-refl w)
        (λ i e. send_general_interrogation-Quiet now i w (active-busy w i e)) in
    if-both (Quiet w) (gi_due w.conn) _ _
      (Quiet-trans q (
        conn-Quiet u (record (u.conn) { gi_schedule_already_sent = true }) refl refl refl (λ e. e)))
      (Quiet-refl w)

detect_new_day-Quiet : (w : World) → Quiet w (record w { conn = detect_new_day w.conn })
unfolding detect_new_day
detect_new_day-Quiet w =
    conn-Quiet w (detect_new_day w.conn) (ground arith) (ground arith) (ground arith) (ground arith)

pub check_gi-Calm : (now : ℕ) (w : World) → Calm w (check_gi now w)
unfolding check_gi check_gi_timeout
check_gi-Calm now w =
    Calm->>= w (check_gi_timeout now w) _
      (Ensures-if (Quiet w)
        (not (w.conn.gi_repeat == 0)
          && ltb (w.conn.gi_start_time + w.conn.gi_time_max) w.conn.current)
        _ _ (check_gi_completed-Calm now false w) (Quiet-refl w))
      (λ u.
        Quiet-trans (detect_new_day-Quiet u)
          (send_scheduled_gi-Quiet now (record u { conn = detect_new_day u.conn })))
