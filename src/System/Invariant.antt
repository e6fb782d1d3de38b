-- ===== src/System/Invariant.antt =====
-- Sequences of events of the plugin (src/hnzconnection.cpp, src/hnzpath.cpp, src/hnz.cpp) under the
-- invariant of the two paths.
use fledge_south_hnz.Prelude.{
  ℕ, ◌≡◌, true, false, ◌&&◌, ◌||◌, List, [], ◌∷◌, ok, Ensures, Ensures->>=, Ensures-eq-ok, if-when,
  if-both, refl, arith,
}
use fledge_south_hnz.State.Clock.{Clock}
use fledge_south_hnz.State.Link.{PathId, path_a, path_b, connected}
use fledge_south_hnz.State.Station.{World, path}
use fledge_south_hnz.Station.Handle.{handle_messages}
use fledge_south_hnz.Station.Calm.{handle_messages-Calm, operation-Quiet}
use fledge_south_hnz.Link.Activity.{is_active_state, is_passive}
use fledge_south_hnz.Link.Frames.{analyze_frame}
use fledge_south_hnz.Link.Coherence.{Coherent, is_started}
use fledge_south_hnz.Path.Ack.{can_drain, nr_accepted}
use fledge_south_hnz.Path.Fifo.{nr_accepted_ends}
use fledge_south_hnz.Link.Queues.{Queues, Queues-IsInvariant}
use fledge_south_hnz.Link.Steady.{view-Steady}
use fledge_south_hnz.Link.Gi.{start_schedule}
use fledge_south_hnz.Link.Timers.{update_current_time}
use fledge_south_hnz.Link.Quiet.{
  IsInvariant, Quiet, put_path-Quiet, conn-Quiet, Coherent-IsInvariant,
}
use fledge_south_hnz.Link.Steps.{analyze_frame-Holds, manage_hnz_protocol_state-Holds}
use fledge_south_hnz.Link.Rounds.{
  Calm-Holds, manage_messages-Holds, start_connect-Holds, disconnect-Holds, stop_connection-Holds,
}
use fledge_south_hnz.System.{
  Event, frame, manage, wakes, schedules, wake, start_messages, round, connects, disconnects,
  operates, stops, receive_frame, step, run,
}

wake-Quiet : (i : PathId) (w : World) → Quiet w (wake i w)
unfolding wake
wake-Quiet i w = put_path-Quiet i _ w (view-Steady refl)

start_messages-Quiet : (now : ℕ) (w : World) → Quiet w (start_messages now w)
unfolding start_messages update_current_time start_schedule
start_messages-Quiet now w =
    conn-Quiet w (start_schedule (update_current_time now w.conn)) refl refl refl (λ e. e)

module _ {Holds : World → Type 0} (inv : IsInvariant Holds) where
  receive_frame-Holds :
      (clock : Clock) (i : PathId) (bytes : List ℕ) (w : World)
      → (path i w).created ≡ true
      → Holds w
      → Ensures Holds (receive_frame clock i bytes w)
  unfolding receive_frame
  receive_frame-Holds clock i bytes w m v =
      Ensures->>= (λ r. Holds r.1) Holds (analyze_frame clock.now i bytes w) _
        (analyze_frame-Holds inv clock.now i bytes w m v)
        (λ r c.
          Calm-Holds inv (handle_messages clock r.0 r.1) (handle_messages-Calm clock r.0 r.1) c)

  -- Every event keeps the invariant, unless it faults.
  pub step-Holds : (e : Event) (w : World) → Holds w → Ensures Holds (step e w)
  unfolding step
  step-Holds (frame clock i bytes) w v =
      if-when (Ensures Holds) (path i w).created (receive_frame clock i bytes w) (ok w)
        (λ m. receive_frame-Holds clock i bytes w m v) v
  step-Holds (manage now i) w v =
      if-when Holds (path i w).created _ w (λ m. manage_hnz_protocol_state-Holds inv now i w m v) v
  step-Holds (wakes i) w v =
      if-both Holds (path i w).created (wake i w) w (inv.quiet (wake-Quiet i w) v) v
  step-Holds (schedules now) w v = inv.quiet (start_messages-Quiet now w) v
  step-Holds (round clock tcp_a tcp_b) w v = manage_messages-Holds inv clock tcp_a tcp_b w v
  step-Holds (connects now i) w v =
      if-when Holds (path i w).created _ w (λ m. start_connect-Holds inv now i w v) v
  step-Holds (disconnects now i) w v =
      if-when Holds (path i w).created _ w (λ m. disconnect-Holds inv now i w m v) v
  step-Holds (operates stoi now name params) w v =
      inv.quiet (operation-Quiet stoi now name params w) v
  step-Holds (stops now) w v = stop_connection-Holds inv now w v

  run-Ensures : (es : List Event) (w : World) → Holds w → Ensures Holds (run es w)
  unfolding run
  run-Ensures [] w v = v
  run-Ensures (e ∷ es) w v =
      Ensures->>= Holds Holds (step e w) (run es) (step-Holds e w v) (run-Ensures es)

  -- The invariant after a run.
  pub run-Holds : (es : List Event) (w : World) {u : World} → Holds w → run es w ≡ ok u → Holds u
  run-Holds es w v e = Ensures-eq-ok Holds e (run-Ensures es w v)

-- After any sequence of events without a fault (received frames, wake-ups of the managers, rounds
-- of the connection's thread, connections, losses, operations and stops, in any order) from a
-- state in which the invariant `Coherent` holds, at most one path is ACTIVE, and the reported
-- status is STARTED exactly if one is.
pub run-one_active :
    (es : List Event) (w : World) {u : World}
    → Coherent w
    → run es w ≡ ok u
    → ((is_active_state u.a.connection_state && is_active_state u.b.connection_state) ≡ false)
      × (is_started u.hnz.conn_status
          ≡ (is_active_state u.a.connection_state || is_active_state u.b.connection_state))
run-one_active es w v e =
    let c : Coherent _ = run-Holds Coherent-IsInvariant es w v e in ground arith

-- After any sequence of events without a fault from a state in which `Coherent` holds, if the
-- connection still runs and a path is CONNECTED, one of the paths is ACTIVE.
pub run-some_active :
    (es : List Event) (w : World) (i : PathId) {u : World}
    → Coherent w
    → run es w ≡ ok u
    → u.conn.is_running ≡ true
    → (path i u).protocol_state ≡ connected
    → (is_active_state u.a.connection_state || is_active_state u.b.connection_state) ≡ true
unfolding is_active_state is_passive
run-some_active es w path_a v e r s =
    let c : Coherent _ = run-Holds Coherent-IsInvariant es w v e in ground arith
run-some_active es w path_b v e r s =
    let c : Coherent _ = run-Holds Coherent-IsInvariant es w v e in ground arith

-- After any sequence of events without a fault from a state in which every queued message may be
-- sent, the loop at the end of `m_NRAccepted` ends by its own test on both paths, for any
-- acknowledgement.
pub run-nr_accepted_ends :
    (es : List Event) (w : World) (i : PathId) (now nr : ℕ) {u : World}
    → Queues w
    → run es w ≡ ok u
    → can_drain (nr_accepted now (path i u) nr) ≡ false
run-nr_accepted_ends es w path_a now nr v e =
    nr_accepted_ends now _ nr (run-Holds Queues-IsInvariant es w v e).on_a
run-nr_accepted_ends es w path_b now nr v e =
    nr_accepted_ends now _ nr (run-Holds Queues-IsInvariant es w v e).on_b
