-- ===== src/Link/Audited.antt =====
-- The audits through the transitions of the automaton (src/hnzpath.cpp, src/hnzconnection.cpp).
use fledge_south_hnz.Prelude.{
  ℕ, ◌≡◌, refl, if◌then◌else◌, Bool, true, false, ◌&&◌, some, List, [], ◌∷◌, arith, if-both, sym,
  ap, if-when, ◌∙◌, option-both,
}
use fledge_south_hnz.State.Conf.{HnzConf}
use fledge_south_hnz.State.Link.{
  HnzPath, Connection, PathId, path_a, path_b, ProtocolState, ConnectionEvent, ConnectionState,
  disconnected, pending_hnz, passive, active,
}
use fledge_south_hnz.State.Station.{
  World, path, put_path, other, is_path, ConnectionStatus, not_connected,
}
use fledge_south_hnz.Link.Activity.{
  same_state, state_audits, set_connection_state, update_connection_status, try_activate_other_path,
  request_active, request_other, request_connection_state, is_active_state, first_input, is_passive,
}
use fledge_south_hnz.Station.Monitor.{
  update_hnz_connection, connection_audit, same_connection, send_south_monitoring_event,
  send_to_fledge, ingest,
}
use fledge_south_hnz.Link.Quiet.{IsInvariant, Quiet}
use fledge_south_hnz.Link.Shrinks.{request_connection_state-AsIn}
use fledge_south_hnz.Link.Protocol.{
  Action, set_connection_pending, reset_input, reset_output, stop_client, reset_sarm, discard,
  resolve_connected, resolve_connection, run_action, run_actions, on_path, reset_connection, enter,
  protocol_state_transition, transition,
}
use fledge_south_hnz.Path.Send.{
  stop_tcp, reset_sarm_counters, reset_output_variables, reset_input_variables, discard_messages,
}
use fledge_south_hnz.Link.Audits.{Told}

module _ (c : HnzConf) where
  -- They do not depend on the rest of the connection.
  quiet_conn : (w : World) (k : Connection) → Told c w → Told c (record w { conn = k })
  quiet_conn w k t = record { conf = t.conf; on_a = t.on_a; on_b = t.on_b; service = t.service }

  conn-made :
      (i : PathId) (w : World) (k : Connection)
      → (path i w).created ≡ true
      → (path i (record w { conn = k })).created ≡ true
  conn-made path_a w k m = m
  conn-made path_b w k m = m

  set_connection_state-Told :
      (i : PathId) (s : ConnectionState) (w : World)
      → (path i w).created ≡ true
      → Told c w
      → Told c (set_connection_state i s w)
  unfolding set_connection_state same_state state_audits
  set_connection_state-Told path_a s w m t = ground arith
  set_connection_state-Told path_b s w m t = ground arith

  update_connection_status-Told :
      (s : ConnectionStatus) (w : World) → Told c w → Told c (update_connection_status s w)
  unfolding update_connection_status update_hnz_connection connection_audit same_connection
      send_south_monitoring_event send_to_fledge ingest
  update_connection_status-Told ConnectionStatus.started w t = ground arith
  update_connection_status-Told not_connected w t = ground arith

  -- Another path that takes over, or the end of the connection.
  replaced-Told :
      (i : PathId) (w : World)
      → Told c w
      → (let (v, found) = try_activate_other_path i w in
          Told c (if found then v else update_connection_status not_connected v))
  unfolding try_activate_other_path
  replaced-Told i w t =
      let j = other i in
      let u = record w { conn = record (w.conn) { active_path = some j } } in
      if-when
        (λ (r : World × Bool).
          Told c (if r.1 then r.0 else update_connection_status not_connected r.0))
        (w.conn.is_running && (path j w).created && is_passive (path j w).connection_state) _
        (w, false)
        (λ e.
          update_connection_status-Told ConnectionStatus.started (set_connection_state j active u)
            (set_connection_state-Told j active u (ground arith) (quiet_conn w u.conn t)))
        (update_connection_status-Told not_connected w t)

  request_other-Told :
      (i : PathId) (s : ConnectionState) (w : World)
      → (path i w).created ≡ true
      → Told c w
      → Told c (request_other i s w)
  unfolding request_other
  request_other-Told i s w m t =
      let u = set_connection_state i s w in
      let told : Told c u = set_connection_state-Told i s w m t in
      if-both (Told c) (is_path i u.conn.active_path) _ u (replaced-Told i _ (quiet_conn u _ told))
        told

  request_active-Told :
      (i : PathId) (w : World) → (path i w).created ≡ true → Told c w → Told c (request_active i w)
  unfolding request_active
  request_active-Told i w m t =
      let u = record w { conn = record (w.conn) { active_path = some i } } in
      option-both (Told c) w.conn.active_path _ _
        (update_connection_status-Told ConnectionStatus.started (set_connection_state i active u)
          (set_connection_state-Told i active u (conn-made i w u.conn m) (quiet_conn w u.conn t)))
        (λ j. set_connection_state-Told i passive w m t)

  request_connection_state-Told :
      (i : PathId) (s : ConnectionState) (w : World)
      → (path i w).created ≡ true
      → Told c w
      → Told c (request_connection_state i s w)
  unfolding request_connection_state
  request_connection_state-Told i s w m t =
      let u = record w { conn = record (w.conn) { first_input_connected = first_input i w } } in
      if-both (Told c) (is_active_state s) (request_active i u) (request_other i s u)
        (request_active-Told i u (conn-made i w u.conn m) (quiet_conn w u.conn t))
        (request_other-Told i s u (conn-made i w u.conn m) (quiet_conn w u.conn t))

  put_path-Told :
      (i : PathId) (q : HnzPath) (w : World)
      → q.created ≡ (path i w).created
      → q.connection_state ≡ (path i w).connection_state
      → Told c w
      → Told c (put_path i q w)
  put_path-Told path_a q w e f t = ground arith
  put_path-Told path_b q w e f t = ground arith

  -- Path i is set, and the audits are told.
  record Tells (i : PathId) (w : World) : Type 0 where
    made : (path i w).created ≡ true
    told : Told c w

  put_path-Tells :
      (i : PathId) (q : HnzPath) (w : World)
      → q.created ≡ (path i w).created
      → q.connection_state ≡ (path i w).connection_state
      → Tells i w
      → Tells i (put_path i q w)
  put_path-Tells path_a q w e f t = record {
    made = e ∙ t.made;
    told = put_path-Told path_a q w e f t.told;
  }
  put_path-Tells path_b q w e f t = record {
    made = e ∙ t.made;
    told = put_path-Told path_b q w e f t.told;
  }

  request-Tells :
      (i : PathId) (s : ConnectionState) (w : World)
      → Tells i w
      → Tells i (request_connection_state i s w)
  request-Tells i s w t = record {
    made = sym (ap (λ v. v.made) (request_connection_state-AsIn i i s w)) ∙ t.made;
    told = request_connection_state-Told i s w t.made t.told;
  }

  run_action-Tells :
      (now : ℕ) (i : PathId) (x : Action) (w : World) → Tells i w → Tells i (run_action now i x w)
  unfolding run_action reset_connection stop_tcp reset_sarm_counters reset_output_variables
      reset_input_variables discard_messages
  run_action-Tells now i set_connection_pending w t = request-Tells i pending_hnz w t
  run_action-Tells now i reset_input w t = put_path-Tells i _ w refl refl t
  run_action-Tells now i reset_output w t = put_path-Tells i _ w refl refl t
  run_action-Tells now i stop_client w t = put_path-Tells i _ w refl refl t
  run_action-Tells now i reset_sarm w t = put_path-Tells i _ w refl refl t
  run_action-Tells now i discard w t = put_path-Tells i _ w refl refl t
  run_action-Tells now i resolve_connected w t =
      put_path-Tells i _ _ refl refl (request-Tells i active w t)
  run_action-Tells now i resolve_connection w t =
      put_path-Tells i _ _ refl refl (request-Tells i disconnected w t)

  run_actions-Tells :
      (now : ℕ) (i : PathId) (xs : List Action) (w : World)
      → Tells i w
      → Tells i (run_actions now i xs w)
  unfolding run_actions
  run_actions-Tells now i [] w t = t
  run_actions-Tells now i (x ∷ xs) w t =
      run_actions-Tells now i xs (run_action now i x w) (run_action-Tells now i x w t)

  enter-Told :
      (now : ℕ) (i : PathId) (s : ProtocolState) (acts : List Action) (w : World)
      → (path i w).created ≡ true
      → Told c w
      → Told c (enter now i s acts w)
  unfolding enter
  enter-Told now i s acts w m t =
      let u = on_path (λ p. record p { protocol_state = s }) i w in
      put_path-Told i _ _ refl refl
        (run_actions-Tells now i acts u
          (put_path-Tells i _ w refl refl (record { made = m; told = t }))).told

  -- The latest audits still tell the states of the paths and of the connection after any event of
  -- the protocol on a path that is set.
  pub protocol_state_transition-Told :
      (now : ℕ) (i : PathId) (e : ConnectionEvent) (w : World)
      → (path i w).created ≡ true
      → Told c w
      → Told c (protocol_state_transition now i e w)
  unfolding protocol_state_transition
  protocol_state_transition-Told now i e w m t =
      option-both (Told c) (transition (path i w).protocol_state e) _ _ t
        (λ (s, acts). enter-Told now i s acts w m t)

  Quiet-Told : {w u : World} → Quiet w u → Told c w → Told c u
  Quiet-Told {w} {u} q t = let r = q.reported in ground arith

  pub Told-IsInvariant : IsInvariant (Told c)
  Told-IsInvariant = record {
    quiet = Quiet-Told;
    transition = protocol_state_transition-Told;
    stopping = λ w t. record { conf = t.conf; on_a = t.on_a; on_b = t.on_b; service = t.service };
  }
