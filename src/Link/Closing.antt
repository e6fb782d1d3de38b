-- ===== src/Link/Closing.antt =====
-- The end of a connection (`HNZConnection::stop`, src/hnzconnection.cpp).
use fledge_south_hnz.Prelude.{
  ℕ, ◌≡◌, refl, sym, ap, ◌∙◌, false, none, some, List, [], ◌∷◌, arith, if-cases,
}
use fledge_south_hnz.State.Link.{
  HnzPath, PathId, path_a, path_b, ProtocolState, connection, input_connected, output_connected,
  connected, ConnectionState, disconnected, pending_hnz, active, tcp_cnx_lost,
}
use fledge_south_hnz.State.Station.{World, path, put_path, not_connected}
use fledge_south_hnz.Path.Send.{
  stop_tcp, reset_sarm_counters, reset_output_variables, reset_input_variables, discard_messages,
}
use fledge_south_hnz.Link.Activity.{request_connection_state, is_active_state}
use fledge_south_hnz.Link.Protocol.{
  Action, set_connection_pending, reset_input, reset_output, stop_client, reset_sarm, discard,
  resolve_connected, resolve_connection, transition, on_path, reset_connection, run_action,
  run_actions, enter, protocol_state_transition,
}
use fledge_south_hnz.Link.Shrinks.{request_connection_state-AsIn}
use fledge_south_hnz.Link.Timers.{disconnect, disconnect_if_created, stop_connection}
use fledge_south_hnz.Link.Coherence.{Coherent, Agrees}
use fledge_south_hnz.Link.Quiet.{Coherent-IsInvariant}
use fledge_south_hnz.Link.Rounds.{disconnect_if_created-Holds, stop_connection-Holds}

-- The state of the protocol of path j.
abbrev at : PathId → World → ProtocolState
at j w = (path j w).protocol_state

at-put_path :
    (i j : PathId) (q : HnzPath) (w : World)
    → q.protocol_state ≡ at i w
    → at j (put_path i q w) ≡ at j w
at-put_path path_a path_a q w e = e
at-put_path path_a path_b q w e = refl
at-put_path path_b path_a q w e = refl
at-put_path path_b path_b q w e = e

at-request_connection_state :
    (i j : PathId) (c : ConnectionState) (w : World)
    → at j (request_connection_state i c w) ≡ at j w
at-request_connection_state i j c w =
    sym (ap (λ v. v.protocol) (request_connection_state-AsIn i j c w))

-- Actions change no state of the protocol.
at-run_action :
    (now : ℕ) (i j : PathId) (x : Action) (w : World) → at j (run_action now i x w) ≡ at j w
unfolding run_action reset_connection stop_tcp reset_sarm_counters reset_output_variables
    reset_input_variables discard_messages
at-run_action now i j set_connection_pending w = at-request_connection_state i j pending_hnz w
at-run_action now i j reset_input w = at-put_path i j _ w refl
at-run_action now i j reset_output w = at-put_path i j _ w refl
at-run_action now i j stop_client w = at-put_path i j _ w refl
at-run_action now i j reset_sarm w = at-put_path i j _ w refl
at-run_action now i j discard w = at-put_path i j _ w refl
at-run_action now i j resolve_connected w =
    at-put_path i j _ (request_connection_state i active w) refl
    ∙ at-request_connection_state i j active w
at-run_action now i j resolve_connection w =
    at-put_path i j _ (request_connection_state i disconnected w) refl
    ∙ at-request_connection_state i j disconnected w

at-run_actions :
    (now : ℕ) (i j : PathId) (xs : List Action) (w : World) → at j (run_actions now i xs w) ≡ at j w
unfolding run_actions
at-run_actions now i j [] w = refl
at-run_actions now i j (x ∷ xs) w =
    at-run_actions now i j xs (run_action now i x w) ∙ at-run_action now i j x w

enter-at :
    (now : ℕ) (i j : PathId) (s : ProtocolState) (acts : List Action) (w : World)
    → at j (enter now i s acts w) ≡ at j (on_path (λ p. record p { protocol_state = s }) i w)
unfolding enter
enter-at now i j s acts w =
    at-put_path i j _ (run_actions now i acts (on_path (λ p. record p { protocol_state = s }) i w))
      refl
    ∙ at-run_actions now i j acts (on_path (λ p. record p { protocol_state = s }) i w)

tcp_cnx_lost-at :
    (now : ℕ) (i j : PathId) (w : World)
    → at j (protocol_state_transition now i tcp_cnx_lost w)
      ≡ at j (on_path (λ p. record p { protocol_state = connection }) i w)
unfolding protocol_state_transition transition
tcp_cnx_lost-at now i j w =
    elim (at i w)
      as (λ s.
        at j (elim (transition s tcp_cnx_lost) [ none ↦ w | some (t, acts) ↦ enter now i t acts w ])
        ≡ at j (on_path (λ p. record p { protocol_state = connection }) i w)) [
          | connection ↦ enter-at now i j connection (resolve_connection ∷ []) w
          | input_connected ↦ enter-at now i j connection (resolve_connection ∷ []) w
          | output_connected ↦ enter-at now i j connection (discard ∷ resolve_connection ∷ []) w
          | connected ↦ enter-at now i j connection (resolve_connection ∷ discard ∷ []) w
        ]

at-disconnect :
    (now : ℕ) (i j : PathId) (w : World)
    → at j (disconnect now i w) ≡ at j (on_path (λ p. record p { protocol_state = connection }) i w)
unfolding disconnect stop_tcp
at-disconnect now i j w =
    at-put_path i j _ (protocol_state_transition now i tcp_cnx_lost w) refl
    ∙ tcp_cnx_lost-at now i j w

agreed : (s : ProtocolState) (c : ConnectionState) → Agrees s c → c ≡ disconnected → s ≡ connection
agreed connection c g e = refl
agreed input_connected c g e = ground arith
agreed output_connected c g e = ground arith
agreed connected c g e = ground arith

-- A path that is not set is disconnected, so that it is in CONNECTION too.
unused-at : (i : PathId) (w : World) → Coherent w → (path i w).created ≡ false → at i w ≡ connection
unused-at path_a w v e =
    agreed w.a.protocol_state w.a.connection_state v.agrees_a (v.activity.unused_a e)
unused-at path_b w v e =
    agreed w.b.protocol_state w.b.connection_state v.agrees_b (v.activity.unused_b e)

at-disconnect_if_created :
    (now : ℕ) (i : PathId) (w : World)
    → Coherent w
    → at i (disconnect_if_created now i w) ≡ connection
unfolding disconnect_if_created
at-disconnect_if_created now path_a w v =
    if-cases (λ u. at path_a u ≡ connection) w.a.created (disconnect now path_a w) w
      (λ e. at-disconnect now path_a path_a w) (unused-at path_a w v)
at-disconnect_if_created now path_b w v =
    if-cases (λ u. at path_b u ≡ connection) w.b.created (disconnect now path_b w) w
      (λ e. at-disconnect now path_b path_b w) (unused-at path_b w v)

-- Of path A, the disconnection of path B.
a-disconnect_if_created :
    (now : ℕ) (w : World) → at path_a (disconnect_if_created now path_b w) ≡ at path_a w
unfolding disconnect_if_created
a-disconnect_if_created now w =
    if-cases (λ u. at path_a u ≡ at path_a w) w.b.created (disconnect now path_b w) w
      (λ e. at-disconnect now path_b path_a w) (λ e. refl)

closed-status :
    (w : World)
    → Coherent w
    → w.a.protocol_state ≡ connection
    → w.b.protocol_state ≡ connection
    → w.hnz.conn_status ≡ not_connected
unfolding is_active_state
closed-status w v e f = ground arith

-- After the stop of the connection no path is active.
pub conn_status-stop_connection :
    (now : ℕ) (w : World) → Coherent w → (stop_connection now w).hnz.conn_status ≡ not_connected
unfolding stop_connection
conn_status-stop_connection now w v =
    let u = record w { conn = record (w.conn) { is_running = false } } in
    let x = disconnect_if_created now path_a u in
    let c : Coherent u = Coherent-IsInvariant.stopping w v in
    let d : Coherent x = disconnect_if_created-Holds Coherent-IsInvariant now path_a u c in
    closed-status (stop_connection now w) (stop_connection-Holds Coherent-IsInvariant now w v)
      (a-disconnect_if_created now x ∙ at-disconnect_if_created now path_a u c)
      (at-disconnect_if_created now path_b x d)
