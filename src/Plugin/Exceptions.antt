-- ===== src/Plugin/Exceptions.antt =====
-- What a plugin that runs does not throw (src/hnz.cpp, src/hnzpath.cpp): the exception of `map::at`.
use fledge_south_hnz.Prelude.{
  ℕ, ◌≡◌, ap, ◌∙◌, ltb, ◌==◌, Bool, true, false, ◌&&◌, List, [], ◌∷◌, ok, fault, out_of_range,
  if◌then◌else◌, if-when,
}
use fledge_south_hnz.State.Clock.{Clock}
use fledge_south_hnz.State.Conf.{Codes}
use fledge_south_hnz.State.Link.{PathId}
use fledge_south_hnz.State.Station.{World, Hnz, Reading, path, finished, failed}
use fledge_south_hnz.Conf.Json.{Json, Conversions}
use fledge_south_hnz.Station.Monitor.{update_gi_status, send_to_fledge}
use fledge_south_hnz.Station.Reading.{send_all_ts_quality_readings}
use fledge_south_hnz.Station.Handle.{
  handle_by_type, handle_message, handle_messages, is_gi_complete,
}
use fledge_south_hnz.Station.Telemetry.{byte}
use fledge_south_hnz.Station.Calm.{handle_by_type-Quiet, handle_message-Calm}
use fledge_south_hnz.Link.Report.{Report, report-send_to_fledge, is_configured}
use fledge_south_hnz.Link.Quiet.{Quiet}
use fledge_south_hnz.Link.Audits.{Told}
use fledge_south_hnz.Link.Audited.{Told-IsInvariant}
use fledge_south_hnz.Link.Gi.{on_gi_completed, reset_gi_queue, gi_completed, check_gi_completed}
use fledge_south_hnz.Link.Frames.{analyze_frame}
use fledge_south_hnz.Link.Steps.{analyze_frame-Holds}
use fledge_south_hnz.Link.Interrogation.{send_all_ts_quality_readings-Succeeds}
use fledge_south_hnz.System.{
  Event, frame, manage, wakes, schedules, round, connects, disconnects, operates, stops,
  receive_frame, step,
}
use fledge_south_hnz.Plugin.{Plugin, Category}
use fledge_south_hnz.Plugin.Entry.{Call, live}
use fledge_south_hnz.Plugin.Reporting.{running-Told}
use fledge_south_hnz.Plugin.Promises.{live-Reports}
use fledge_south_hnz.Plugin.Rounds.{labels_for, live-manage_messages}
use fledge_south_hnz.Link.Quits.{
  Quits, Quits-ok, Quits-if, Quits->>=, Quits-bind, Succeeds-Quits, Quits-fault,
  analyze_frame-Quits, send_queued_gi-Quits,
}

gi_completed-Quits :
    (now : ℕ) (success : Bool) (w : World)
    → is_configured "TS" w.hnz.conf ≡ true
    → Quits (gi_completed now success w)
unfolding gi_completed on_gi_completed
gi_completed-Quits now success w c =
    let (ls, f) = labels_for "TS" w.hnz.conf c in
    Quits-bind (send_all_ts_quality_readings now true false w.hnz.gi_addresses_received w.hnz) _
      (Succeeds-Quits _ (
        send_all_ts_quality_readings-Succeeds now true false w.hnz.gi_addresses_received w.hnz ls
          f))
      (λ h. send_queued_gi-Quits now (
        reset_gi_queue (record (on_gi_completed w) {
          hnz = update_gi_status (if success then finished else failed) h;
        })))

check_gi_completed-Quits :
    (now : ℕ) (success : Bool) (w : World)
    → is_configured "TS" w.hnz.conf ≡ true
    → Quits (check_gi_completed now success w)
unfolding check_gi_completed
check_gi_completed-Quits now success w c = Quits-if success _ _ (gi_completed-Quits now true w c) (
    Quits-if (ltb w.conn.gi_repeat_count_max w.conn.gi_repeat) _ _
      (gi_completed-Quits now false w c) (Quits-ok _))

handle_message-Quits :
    (clock : Clock) (bytes : List ℕ) (w : World)
    → is_configured "TS" w.hnz.conf ≡ true
    → Quits (handle_message clock bytes w)
unfolding handle_message
handle_message-Quits clock bytes w c =
    let r : List Reading × World = handle_by_type clock bytes w in
    let h : Hnz = send_to_fledge r.1.hnz r.0 in
    let v : World = record (r.1) { hnz = h } in
    Quits-if (byte bytes 0 == w.hnz.conf.codes.tscg_code && is_gi_complete h) _ (ok v)
      (check_gi_completed-Quits clock.now true v (
        ap (λ (r : Report). is_configured "TS" r.conf)
          (report-send_to_fledge r.1.hnz r.0 ∙ (handle_by_type-Quiet clock bytes w).reported)
        ∙ c))
      (Quits-ok v)

handle_messages-Quits :
    (clock : Clock) (ms : List (List ℕ)) (w : World)
    → is_configured "TS" w.hnz.conf ≡ true
    → Quits (handle_messages clock ms w)
unfolding handle_messages
handle_messages-Quits clock [] w c = Quits-ok w
handle_messages-Quits clock (m ∷ ms) w c =
    Quits->>= (Quiet w) (handle_message clock m w) _ (handle_message-Quits clock m w c)
      (handle_message-Calm clock m w)
      (λ u q.
        handle_messages-Quits clock ms u
          (ap (λ (r : Report). is_configured "TS" r.conf) q.reported ∙ c))

receive_frame-Quits :
    (clock : Clock) (i : PathId) (bytes : List ℕ) (w : World)
    → (path i w).created ≡ true
    → Told w.hnz.conf w
    → is_configured "TS" w.hnz.conf ≡ true
    → Quits (receive_frame clock i bytes w)
unfolding receive_frame
receive_frame-Quits clock i bytes w m t c =
    let conf = w.hnz.conf in
    Quits->>= (λ r. Told conf r.1) (analyze_frame clock.now i bytes w) _
      (analyze_frame-Quits clock.now i bytes w)
      (analyze_frame-Holds (Told-IsInvariant conf) clock.now i bytes w m t)
      (λ (ms, u) told. handle_messages-Quits clock ms u (ap (is_configured "TS") told.conf ∙ c))

module _ {V : Type 0} (json : Json V) (conv : Conversions) (now : ℕ) (config : Category)
    (codes : Codes) (w : World) (xs : List Call) {p : Plugin}
    (e : live json conv now config codes w xs ≡ ok p) (r : p.is_running ≡ true) where
  step-Quits : (x : Event) → Quits (step x p.world)
  unfolding step
  step-Quits (frame clock i bytes) =
      let (v, t) = live-Reports json conv now config codes w xs e in
      if-when Quits (path i p.world).created (receive_frame clock i bytes p.world) (ok p.world)
        (λ m. receive_frame-Quits clock i bytes p.world m (running-Told p v t r) (t.fits r).1.1)
        (Quits-ok p.world)
  step-Quits (round clock tcp_a tcp_b) =
      Succeeds-Quits _ (live-manage_messages json conv now config codes w xs clock tcp_a tcp_b e r)
  step-Quits (manage t i) = Quits-ok _
  step-Quits (wakes i) = Quits-ok _
  step-Quits (schedules t) = Quits-ok _
  step-Quits (connects t i) = Quits-ok _
  step-Quits (disconnects t i) = Quits-ok _
  step-Quits (operates stoi t name params) = Quits-ok _
  step-Quits (stops t) = Quits-ok _

  -- After `plugin_init` with any configuration and any sequence of further calls and events
  -- without a fault, if the plugin runs, no further event (a frame with any bytes, a round, an
  -- operation or any other) throws the exception of `map::at`.
  pub live-step_quits : (x : Event) → ¬ (step x p.world ≡ fault out_of_range)
  live-step_quits x = Quits-fault (step x p.world) (step-Quits x)
