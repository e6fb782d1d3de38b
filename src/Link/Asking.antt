-- ===== src/Link/Asking.antt =====
-- The repeats of a general interrogation (src/hnzconnection.cpp): none are left without an active path.
use fledge_south_hnz.Prelude.{
  ℕ, ◌≡◌, refl, sym, ap, ◌∙◌, Bool, false, none, some, List, [], ◌∷◌, arith, if-both, option-both,
  ◌&&◌, if◌then◌else◌,
}
use fledge_south_hnz.State.Link.{
  HnzPath, PathId, path_a, path_b, ConnectionEvent, ConnectionState, disconnected, pending_hnz,
  active, passive,
}
use fledge_south_hnz.State.Station.{
  World, path, put_path, other, is_path, ConnectionStatus, not_connected,
}
use fledge_south_hnz.Path.Send.{
  stop_tcp, reset_sarm_counters, reset_output_variables, reset_input_variables, discard_messages,
}
use fledge_south_hnz.Link.Activity.{
  set_connection_state, update_connection_status, try_activate_other_path, request_active,
  request_other, request_connection_state, is_active_state, first_input, is_passive,
}
use fledge_south_hnz.Link.Effects.{set_connection_state-Sets}
use fledge_south_hnz.Link.Protocol.{
  Action, set_connection_pending, reset_input, reset_output, stop_client, reset_sarm, discard,
  resolve_connected, resolve_connection, transition, on_path, reset_connection, run_action,
  run_actions, enter, protocol_state_transition,
}
use fledge_south_hnz.Link.Coherence.{Coherent}
use fledge_south_hnz.Link.Quiet.{IsInvariant, Quiet, Rests, Coherent-IsInvariant}

abbrev pub Asking : World → Type 0
Asking w = w.conn.active_path ≡ none → w.conn.gi_repeat ≡ 0

put_path-Asking : (i : PathId) (q : HnzPath) (w : World) → Asking w → Asking (put_path i q w)
put_path-Asking path_a q w h = h
put_path-Asking path_b q w h = h

set_connection_state-Asking :
    (i : PathId) (s : ConnectionState) (w : World) → Asking w → Asking (set_connection_state i s w)
set_connection_state-Asking i s w h e =
    let f = (set_connection_state-Sets i s w).link in ground arith

update_connection_status-Asking :
    (s : ConnectionStatus) (w : World) → Asking w → Asking (update_connection_status s w)
unfolding update_connection_status
update_connection_status-Asking s w h = h

replaced-Asking :
    (i : PathId) (w : World)
    → Asking w
    → (let (v, found) = try_activate_other_path i w in
        Asking (if found then v else update_connection_status not_connected v))
unfolding try_activate_other_path
replaced-Asking i w h =
    let j = other i in
    let u = record w { conn = record (w.conn) { active_path = some j } } in
    if-both
      (λ (r : World × Bool).
        Asking (if r.1 then r.0 else update_connection_status not_connected r.0))
      (w.conn.is_running && (path j w).created && is_passive (path j w).connection_state) _
      (w, false)
      (update_connection_status-Asking ConnectionStatus.started (set_connection_state j active u)
        (set_connection_state-Asking j active u (λ e. cc)))
      (update_connection_status-Asking not_connected w h)

request-Asking :
    (i : PathId) (s : ConnectionState) (w : World)
    → Asking w
    → Asking (request_connection_state i s w)
unfolding request_connection_state request_active request_other
request-Asking i s w h =
    let u = record w { conn = record (w.conn) { first_input_connected = first_input i w } } in
    let v = record u { conn = record (u.conn) { active_path = some i } } in
    let x = set_connection_state i s u in
    if-both Asking (is_active_state s) (request_active i u) (request_other i s u)
      (option-both Asking u.conn.active_path _ _
        (update_connection_status-Asking ConnectionStatus.started (set_connection_state i active v)
          (set_connection_state-Asking i active v (λ e. cc)))
        (λ j. set_connection_state-Asking i passive u h))
      (if-both Asking (is_path i x.conn.active_path) _ x (replaced-Asking i _ (λ e. refl))
        (set_connection_state-Asking i s u h))

run_action-Asking :
    (now : ℕ) (i : PathId) (x : Action) (w : World) → Asking w → Asking (run_action now i x w)
unfolding run_action reset_connection stop_tcp reset_sarm_counters reset_output_variables
    reset_input_variables discard_messages
run_action-Asking now i set_connection_pending w h = request-Asking i pending_hnz w h
run_action-Asking now i reset_input w h = put_path-Asking i _ w h
run_action-Asking now i reset_output w h = put_path-Asking i _ w h
run_action-Asking now i stop_client w h = put_path-Asking i _ w h
run_action-Asking now i reset_sarm w h = put_path-Asking i _ w h
run_action-Asking now i discard w h = put_path-Asking i _ w h
run_action-Asking now i resolve_connected w h =
    put_path-Asking i _ (request_connection_state i active w) (request-Asking i active w h)
run_action-Asking now i resolve_connection w h =
    put_path-Asking i _ (request_connection_state i disconnected w)
      (request-Asking i disconnected w h)

run_actions-Asking :
    (now : ℕ) (i : PathId) (xs : List Action) (w : World)
    → Asking w
    → Asking (run_actions now i xs w)
unfolding run_actions
run_actions-Asking now i [] w h = h
run_actions-Asking now i (x ∷ xs) w h =
    run_actions-Asking now i xs (run_action now i x w) (run_action-Asking now i x w h)

transition-Asking :
    (now : ℕ) (i : PathId) (e : ConnectionEvent) (w : World)
    → Asking w
    → Asking (protocol_state_transition now i e w)
unfolding protocol_state_transition enter
transition-Asking now i e w h =
    option-both Asking (transition (path i w).protocol_state e) _ _ h (λ (s, acts).
      let u = on_path (λ p. record p { protocol_state = s }) i w in
      put_path-Asking i _ (run_actions now i acts u)
        (run_actions-Asking now i acts u (put_path-Asking i _ w h)))

-- The two invariants together: the second one needs the first.
abbrev pub CoherentAsking : World → Type 0
CoherentAsking w = Coherent w × Asking w

Quiet-Asking : {w u : World} → Quiet w u → Coherent w → Asking w → Asking u
Quiet-Asking {w} {u} q v h e =
    let a = v.activity in
    let f = sym q.active ∙ e in
    let r : Rests w =
      (f, (a.active_a ∙ ap (is_path path_a) f, a.active_b ∙ ap (is_path path_b) f)) in
    q.asks r (h f)

pub CoherentAsking-IsInvariant : IsInvariant CoherentAsking
CoherentAsking-IsInvariant = record {
  quiet = λ q v. (Coherent-IsInvariant.quiet q v.0, Quiet-Asking q v.0 v.1);
  transition = λ now i e w m v.
      (Coherent-IsInvariant.transition now i e w m v.0, transition-Asking now i e w v.1);
  stopping = λ w v. (Coherent-IsInvariant.stopping w v.0, v.1);
}
