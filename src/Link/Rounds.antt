-- ===== src/Link/Rounds.antt =====
-- The rounds of the connection's thread (src/hnzconnection.cpp), and the start and end of a path
-- (src/hnzpath.cpp), under the invariant of the two paths.
use fledge_south_hnz.Prelude.{
  ℕ, ◌≡◌, refl, Bool, true, false, ◌&&◌, Result, ok, fault, Ensures, Ensures->>=, arith, if-both,
  if-when,
}
use fledge_south_hnz.State.Clock.{Tm, Clock, real_time}
use fledge_south_hnz.State.Link.{PathId, path_a, path_b, max_send, tcp_cnx_lost}
use fledge_south_hnz.State.Station.{World, path}
use fledge_south_hnz.Path.Send.{stop_tcp}
use fledge_south_hnz.Path.Commands.{send_date_setting, send_time_setting, check_command_timer}
use fledge_south_hnz.Station.Reading.{update_quality_update_timer}
use fledge_south_hnz.Link.Activity.{is_active_state}
use fledge_south_hnz.Link.Protocol.{on_path}
use fledge_south_hnz.Link.Gi.{send_general_interrogation, check_gi}
use fledge_south_hnz.Link.Steady.{
  view-Steady, repeat_first-Steady, send_date_setting-Steady, send_time_setting-Steady,
}
use fledge_south_hnz.Link.Quiet.{
  Quiet, Rests, Rests-back, Quiet-refl, Quiet-trans, IsInvariant, put_path-Quiet, hnz-Quiet,
  conn-Quiet,
}
use fledge_south_hnz.Link.Report.{SameReport, update_quality_update_timer-SameReport}
use fledge_south_hnz.Link.Calm.{send_general_interrogation-Quiet, Calm, Calm->>=, check_gi-Calm}
use fledge_south_hnz.Link.Timers.{
  set_section, send_init_messages, overdue, repeats_exhausted, check_repeat, init_due, check_init,
  check_path, update_current_time, update_timer, manage_messages, start_connect, disconnect,
  disconnect_if_created, stop_connection,
}

send_init_messages-Quiet :
    (clock : Clock) (i : PathId) (w : World)
    → (Rests w → ⊥)
    → Quiet w (send_init_messages clock i w)
unfolding send_init_messages set_section
send_init_messages-Quiet clock i w busy =
    let t : Tm = real_time w.hnz.conf.use_utc clock in
    let dated : World = on_path (send_date_setting clock.now t) i w in
    let timed : World = on_path (send_time_setting clock.now t) i dated in
    let asked : World = send_general_interrogation clock.now i (set_section t timed) in
    let before : Quiet w (set_section t timed) =
      Quiet-trans (put_path-Quiet i _ w (send_date_setting-Steady clock.now t (path i w))) (
        Quiet-trans (put_path-Quiet i _ dated (send_time_setting-Steady clock.now t (path i dated)))
          (hnz-Quiet timed ((set_section t timed).hnz) refl)) in
    Quiet-trans before (
      Quiet-trans
        (send_general_interrogation-Quiet clock.now i (set_section t timed)
          (λ r. busy (Rests-back before r)))
        (put_path-Quiet i _ asked (view-Steady refl)))

-- A path that is active keeps the connection from resting.
state-busy :
    (i : PathId) (w : World) (b : Bool)
    → is_active_state (path i w).connection_state && b ≡ true
    → Rests w
    → ⊥
state-busy path_a w b e r = ground arith
state-busy path_b w b e r = ground arith

check_init-Quiet : (clock : Clock) (i : PathId) (w : World) → Quiet w (check_init clock i w)
unfolding check_init
check_init-Quiet clock i w =
    let u : World = send_init_messages clock i w in
    if-both (Quiet w) (init_due clock.now w.conn (path i w)) _ w
      (if-when (Quiet w)
        (is_active_state (path i w).connection_state && w.conn.send_init_next_connection) _ _
        (λ e.
          Quiet-trans
            (send_init_messages-Quiet clock i w (state-busy i w w.conn.send_init_next_connection e))
            (conn-Quiet u (record (u.conn) { send_init_next_connection = false }) refl refl refl
              (λ e. e)))
        (put_path-Quiet i _ w (view-Steady refl)))
      (Quiet-refl w)

update_timer-Calm : (now : ℕ) (w : World) → Calm w (update_timer now w)
unfolding update_timer
update_timer-Calm now w =
    Ensures->>= (SameReport w.hnz) (Quiet w)
      (update_quality_update_timer now w.conn.elapsed_time_ms w.hnz) _
      (update_quality_update_timer-SameReport now w.conn.elapsed_time_ms w.hnz)
      (λ h same. hnz-Quiet w h same)

module _ {Holds : World → Type 0} (inv : IsInvariant Holds) where
  check_repeat-Holds :
      (now : ℕ) (tcp : Bool) (i : PathId) (w : World)
      → (path i w).created ≡ true
      → Holds w
      → Holds (check_repeat now tcp i w)
  unfolding check_repeat
  check_repeat-Holds now tcp i w m v =
      if-both Holds (overdue w.conn (path i w) tcp) _ w
        (if-both Holds (repeats_exhausted (path i w)) _ _ (inv.transition now i max_send w m v)
          (inv.quiet (put_path-Quiet i _ w (repeat_first-Steady now (path i w))) v))
        v

  pub check_path-Holds :
      (clock : Clock) (tcp : Bool) (i : PathId) (w : World)
      → Holds w
      → Holds (check_path clock tcp i w)
  unfolding check_path check_command_timer
  check_path-Holds clock tcp i w v =
      let u : World = check_init clock i (check_repeat clock.now tcp i w) in
      if-when Holds (path i w).created _ w
        (λ m.
          inv.quiet
            (Quiet-trans (check_init-Quiet clock i (check_repeat clock.now tcp i w))
              (put_path-Quiet i _ u (view-Steady refl)))
            (check_repeat-Holds clock.now tcp i w m v))
        v

  -- From the checks of the paths on, a round is calm.
  pub Calm-Holds : {w : World} (r : Result World) → Calm w r → Holds w → Ensures Holds r
  Calm-Holds (fault e) c v = tt
  Calm-Holds (ok u) c v = inv.quiet c v

  -- A round of the connection's thread.
  pub manage_messages-Holds :
      (clock : Clock) (tcp_a tcp_b : Bool) (w : World)
      → Holds w
      → Ensures Holds (manage_messages clock tcp_a tcp_b w)
  unfolding manage_messages update_current_time
  manage_messages-Holds clock tcp_a tcp_b w v =
      let u : World = record w { conn = update_current_time clock.now w.conn } in
      let x : World = check_path clock tcp_b path_b (check_path clock tcp_a path_a u) in
      let c : Holds x = check_path-Holds clock tcp_b path_b (check_path clock tcp_a path_a u) (
        check_path-Holds clock tcp_a path_a u (
          inv.quiet (conn-Quiet w (update_current_time clock.now w.conn) refl refl refl (λ e. e))
            v)) in
      Calm-Holds _
        (Calm->>= x (check_gi clock.now x) (update_timer clock.now) (check_gi-Calm clock.now x)
          (update_timer-Calm clock.now))
        c

  pub start_connect-Holds :
      (now : ℕ) (i : PathId) (w : World) → Holds w → Holds (start_connect now i w)
  unfolding start_connect
  start_connect-Holds now i w v = inv.quiet (put_path-Quiet i _ w (view-Steady refl)) v

  pub disconnect-Holds :
      (now : ℕ) (i : PathId) (w : World)
      → (path i w).created ≡ true
      → Holds w
      → Holds (disconnect now i w)
  unfolding disconnect stop_tcp
  disconnect-Holds now i w m v =
      inv.quiet (put_path-Quiet i _ _ (view-Steady refl)) (inv.transition now i tcp_cnx_lost w m v)

  pub disconnect_if_created-Holds :
      (now : ℕ) (i : PathId) (w : World) → Holds w → Holds (disconnect_if_created now i w)
  unfolding disconnect_if_created
  disconnect_if_created-Holds now i w v =
      if-when Holds (path i w).created _ w (λ m. disconnect-Holds now i w m v) v

  -- The end of the connection.
  pub stop_connection-Holds : (now : ℕ) (w : World) → Holds w → Holds (stop_connection now w)
  unfolding stop_connection
  stop_connection-Holds now w v =
      disconnect_if_created-Holds now path_b _
        (disconnect_if_created-Holds now path_a _ (inv.stopping w v))
