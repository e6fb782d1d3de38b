-- ===== src/Link/Made.antt =====
-- A path that is set stays set (src/hnzpath.cpp, src/hnzconnection.cpp).
use fledge_south_hnz.Prelude.{ℕ, ◌≡◌, refl, sym, ap, ◌∙◌, true, false, List, [], ◌∷◌, option-both}
use fledge_south_hnz.State.Link.{
  HnzPath, PathId, path_a, path_b, ProtocolState, ConnectionEvent, ConnectionState, disconnected,
  pending_hnz, active,
}
use fledge_south_hnz.State.Station.{World, path, put_path}
use fledge_south_hnz.Path.Send.{
  stop_tcp, reset_sarm_counters, reset_output_variables, reset_input_variables, discard_messages,
}
use fledge_south_hnz.Link.Activity.{request_connection_state}
use fledge_south_hnz.Link.Protocol.{
  Action, set_connection_pending, reset_input, reset_output, stop_client, reset_sarm, discard,
  resolve_connected, resolve_connection, transition, on_path, reset_connection, run_action,
  run_actions, enter, protocol_state_transition,
}
use fledge_south_hnz.Link.Shrinks.{request_connection_state-AsIn}
use fledge_south_hnz.Link.Quiet.{IsInvariant, Quiet-created}

abbrev pub IsMade : PathId → World → Type 0
IsMade j w = (path j w).created ≡ true

put_path-IsMade :
    (i j : PathId) (q : HnzPath) (w : World)
    → q.created ≡ (path i w).created
    → IsMade j w
    → IsMade j (put_path i q w)
put_path-IsMade path_a path_a q w e m = e ∙ m
put_path-IsMade path_a path_b q w e m = m
put_path-IsMade path_b path_a q w e m = m
put_path-IsMade path_b path_b q w e m = e ∙ m

request-IsMade :
    (i j : PathId) (c : ConnectionState) (w : World)
    → IsMade j w
    → IsMade j (request_connection_state i c w)
request-IsMade i j c w m = sym (ap (λ v. v.made) (request_connection_state-AsIn i j c w)) ∙ m

run_action-IsMade :
    (now : ℕ) (i j : PathId) (x : Action) (w : World) → IsMade j w → IsMade j (run_action now i x w)
unfolding run_action reset_connection stop_tcp reset_sarm_counters reset_output_variables
    reset_input_variables discard_messages
run_action-IsMade now i j set_connection_pending w m = request-IsMade i j pending_hnz w m
run_action-IsMade now i j reset_input w m = put_path-IsMade i j _ w refl m
run_action-IsMade now i j reset_output w m = put_path-IsMade i j _ w refl m
run_action-IsMade now i j stop_client w m = put_path-IsMade i j _ w refl m
run_action-IsMade now i j reset_sarm w m = put_path-IsMade i j _ w refl m
run_action-IsMade now i j discard w m = put_path-IsMade i j _ w refl m
run_action-IsMade now i j resolve_connected w m =
    put_path-IsMade i j _ _ refl (request-IsMade i j active w m)
run_action-IsMade now i j resolve_connection w m =
    put_path-IsMade i j _ _ refl (request-IsMade i j disconnected w m)

run_actions-IsMade :
    (now : ℕ) (i j : PathId) (xs : List Action) (w : World)
    → IsMade j w
    → IsMade j (run_actions now i xs w)
unfolding run_actions
run_actions-IsMade now i j [] w m = m
run_actions-IsMade now i j (x ∷ xs) w m =
    run_actions-IsMade now i j xs (run_action now i x w) (run_action-IsMade now i j x w m)

enter-IsMade :
    (now : ℕ) (i j : PathId) (s : ProtocolState) (acts : List Action) (w : World)
    → IsMade j w
    → IsMade j (enter now i s acts w)
unfolding enter
enter-IsMade now i j s acts w m = put_path-IsMade i j _ _ refl (
    run_actions-IsMade now i j acts (on_path (λ p. record p { protocol_state = s }) i w)
      (put_path-IsMade i j _ w refl m))

transition-IsMade :
    (now : ℕ) (i j : PathId) (e : ConnectionEvent) (w : World)
    → IsMade j w
    → IsMade j (protocol_state_transition now i e w)
unfolding protocol_state_transition
transition-IsMade now i j e w m =
    option-both (IsMade j) (transition (path i w).protocol_state e) _ _ m
      (λ (s, acts). enter-IsMade now i j s acts w m)

stopping-IsMade :
    (j : PathId) (w : World)
    → IsMade j w
    → IsMade j (record w { conn = record (w.conn) { is_running = false } })
stopping-IsMade path_a w m = m
stopping-IsMade path_b w m = m

pub IsMade-IsInvariant : (j : PathId) → IsInvariant (IsMade j)
IsMade-IsInvariant j = record {
  quiet = Quiet-created j;
  transition = λ now i e w made m. transition-IsMade now i j e w m;
  stopping = stopping-IsMade j;
}
