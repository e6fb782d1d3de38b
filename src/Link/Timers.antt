-- ===== src/Link/Timers.antt =====
-- The thread of the connection (`m_manageMessages` and its checks, src/hnzconnection.cpp), init
-- messages, and the start and end of a path. `tcp` is what HNZClient says of the TCP connection.
use fledge_south_hnz.Prelude.{
  ℕ, ◌+◌, ◌-◌, ◌%◌, ◌^◌, ltb, leb, if◌then◌else◌, Bool, true, false, not, ◌&&◌, is_empty, u8,
  Result, ok, ◌>>=◌,
}
use fledge_south_hnz.State.Clock.{Tm, Clock, real_time}
use fledge_south_hnz.State.Link.{
  HnzPath, PathId, path_a, path_b, Connection, max_send, tcp_cnx_lost,
}
use fledge_south_hnz.State.Station.{World, path}
use fledge_south_hnz.Path.Send.{repeat_first, stop_tcp}
use fledge_south_hnz.Path.Commands.{
  mod10m, send_date_setting, send_time_setting, check_command_timer,
}
use fledge_south_hnz.Station.Reading.{update_quality_update_timer}
use fledge_south_hnz.Link.Activity.{is_active_state}
use fledge_south_hnz.Link.Protocol.{on_path, protocol_state_transition}
use fledge_south_hnz.Link.Gi.{send_general_interrogation, check_gi}
use fledge_south_hnz.Link.Frames.{is_connected}

-- `m_send_time_setting` also sets the section of the day.
unfoldable pub set_section : Tm → World → World
set_section t w = record w { hnz = record (w.hnz) { day_section = u8 (mod10m t) } }

unfoldable pub send_init_messages : Clock → PathId → World → World
unfolding set_section send_general_interrogation
send_init_messages clock i w =
    let t = real_time w.hnz.conf.use_utc clock in
    let dated = on_path (send_date_setting clock.now t) i w in
    let timed = set_section t (on_path (send_time_setting clock.now t) i dated) in
    on_path (λ p. record p { last_connected = 0 }) i (send_general_interrogation clock.now i timed)

-- Is the first unacknowledged message overdue?
unfoldable pub overdue : Connection → HnzPath → Bool → Bool
overdue c p tcp =
    not (is_empty p.msg_sent) && (tcp && ltb (p.last_sent_time + c.repeat_timeout) c.current)

-- `getRepeat() >= repeat_max`, where the constructor took 1 from its argument.
unfoldable pub repeats_exhausted : HnzPath → Bool
repeats_exhausted p = leb p.repeat_max (p.repeats + 1)

-- The first part of `m_check_timer`.
unfoldable pub check_repeat : ℕ → Bool → PathId → World → World
unfolding overdue repeats_exhausted protocol_state_transition
check_repeat now tcp i w =
    if overdue w.conn (path i w) tcp
    then (if repeats_exhausted (path i w)
        then protocol_state_transition now i max_send w
        else on_path (repeat_first now) i w)
    else w

-- Has the path been connected for the repeat timeout, with its init messages still to be decided?
unfoldable pub init_due : ℕ → Connection → HnzPath → Bool
unfolding is_connected
init_due now c p =
    is_connected p.protocol_state
    && (ltb 0 p.last_connected && leb (p.last_connected + c.repeat_timeout) now)

-- The second part of `m_check_timer`: the init messages go out on the active path only.
unfoldable pub check_init : Clock → PathId → World → World
unfolding init_due is_active_state send_init_messages
check_init clock i w =
    if init_due clock.now w.conn (path i w)
    then (if is_active_state (path i w).connection_state && w.conn.send_init_next_connection
        then (let u = send_init_messages clock i w in
            record u { conn = record (u.conn) { send_init_next_connection = false } })
        else on_path (λ p. record p { last_connected = 0 }) i w)
    else w

-- The checks of one path in a round, if it is set.
unfoldable pub check_path : Clock → Bool → PathId → World → World
unfolding check_repeat check_init check_command_timer
check_path clock tcp i w =
    if (path i w).created
    then (let u = check_init clock i (check_repeat clock.now tcp i w) in
        on_path (check_command_timer u.conn.current) i u)
    else w

-- `m_update_current_time`, on 64 bits.
unfoldable pub update_current_time : ℕ → Connection → Connection
update_current_time now c = record c {
  current = now;
  elapsed_time_ms = (now + 2 ^ 64 - c.current) % 2 ^ 64;
}

unfoldable pub update_timer : ℕ → World → Result World
update_timer now w = do
  h ← update_quality_update_timer now w.conn.elapsed_time_ms w.hnz
  ok (record w { hnz = h })

-- One round of `m_manageMessages`.
unfoldable pub manage_messages : Clock → Bool → Bool → World → Result World
unfolding update_current_time check_path update_timer check_gi
manage_messages clock tcp_a tcp_b w = do
  let u = record w { conn = update_current_time clock.now w.conn }
  v ← check_gi clock.now (check_path clock tcp_b path_b (check_path clock tcp_a path_a u))
  update_timer clock.now v

-- The state that `connect` sets before it tries.
unfoldable pub start_connect : ℕ → PathId → World → World
start_connect now i w =
    on_path (λ p. record p { last_msg_time = now; last_msg_sent_time = now; is_running = true }) i w

unfoldable pub disconnect : ℕ → PathId → World → World
unfolding protocol_state_transition stop_tcp
disconnect now i w =
    on_path (λ p. stop_tcp (record p { is_running = false })) i
      (protocol_state_transition now i tcp_cnx_lost w)

unfoldable pub disconnect_if_created : ℕ → PathId → World → World
unfolding disconnect
disconnect_if_created now i w = if (path i w).created then disconnect now i w else w

-- `HNZConnection::stop`: no other path takes over from here on.
unfoldable pub stop_connection : ℕ → World → World
unfolding disconnect_if_created
stop_connection now w =
    disconnect_if_created now path_b (
      disconnect_if_created now path_a (record w { conn = record (w.conn) { is_running = false } }))
