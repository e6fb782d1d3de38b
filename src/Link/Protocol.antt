-- ===== src/Link/Protocol.antt =====
-- The automaton of the protocol: the table of include/hnzpath.h, its actions, and
-- `protocolStateTransition` (src/hnzpath.cpp). Both mutexes are held, so a transition is one step.
use fledge_south_hnz.Prelude.{ℕ, Bool, true, false, not, ◌||◌, Option, none, some, List, [], ◌∷◌}
use fledge_south_hnz.State.Link.{
  HnzPath, PathId, ProtocolState, connection, input_connected, output_connected, connected,
  ConnectionEvent, received_sarm, received_ua, to_recv, max_send, tcp_cnx_lost, max_sarm_sent,
  to_tcack, disconnected, pending_hnz, active,
}
use fledge_south_hnz.State.Station.{World, path, put_path}
use fledge_south_hnz.Path.Send.{
  stop_tcp, reset_sarm_counters, reset_output_variables, reset_input_variables, discard_messages,
}
use fledge_south_hnz.Link.Activity.{request_connection_state}

-- The member functions that the table names.
pub data Action : Type 0 where
  set_connection_pending reset_input reset_output stop_client reset_sarm discard : Action
  resolve_connected resolve_connection : Action

abbrev pub Row : Type 0
Row = Option (ProtocolState × List Action)

-- `m_protocolStateTransitionMap`.
unfoldable pub transition : ProtocolState → ConnectionEvent → Row
transition connection received_sarm =
    some (input_connected, set_connection_pending ∷ reset_input ∷ [])
transition connection received_ua =
    some (output_connected, set_connection_pending ∷ reset_output ∷ [])
transition connection max_sarm_sent = some (connection, stop_client ∷ resolve_connection ∷ [])
transition connection to_recv = some (connection, stop_client ∷ resolve_connection ∷ [])
transition input_connected received_sarm =
    some (input_connected, set_connection_pending ∷ reset_input ∷ [])
transition input_connected to_recv = some (connection, resolve_connection ∷ [])
transition input_connected received_ua = some (connected, reset_output ∷ resolve_connected ∷ [])
transition input_connected max_sarm_sent = some (connection, stop_client ∷ resolve_connection ∷ [])
transition output_connected received_sarm = some (connected, reset_input ∷ resolve_connected ∷ [])
transition output_connected max_send =
    some (connection, reset_sarm ∷ discard ∷ resolve_connection ∷ [])
transition connected max_send =
    some (input_connected, set_connection_pending ∷ reset_sarm ∷ discard ∷ reset_input ∷ [])
transition connected to_tcack =
    some (input_connected, set_connection_pending ∷ reset_sarm ∷ discard ∷ reset_input ∷ [])
transition connected received_sarm =
    some (input_connected, set_connection_pending ∷ reset_sarm ∷ discard ∷ reset_input ∷ [])
transition connected to_recv =
    some (output_connected, set_connection_pending ∷ discard ∷ reset_output ∷ [])
transition connection tcp_cnx_lost = some (connection, resolve_connection ∷ [])
transition input_connected tcp_cnx_lost = some (connection, resolve_connection ∷ [])
transition output_connected tcp_cnx_lost = some (connection, discard ∷ resolve_connection ∷ [])
transition connected tcp_cnx_lost = some (connection, resolve_connection ∷ discard ∷ [])
transition _ _ = none

abbrev pub on_path : (HnzPath → HnzPath) → PathId → World → World
on_path f i w = put_path i (f (path i w)) w

-- The resets at the end of `resolveProtocolStateConnection`.
unfoldable pub reset_connection : ℕ → HnzPath → HnzPath
unfolding reset_input_variables reset_output_variables reset_sarm_counters
reset_connection now p =
    record (reset_sarm_counters now (reset_output_variables (reset_input_variables now p))) {
      last_sarm_sent_time = 0;
    }

unfoldable pub run_action : ℕ → PathId → Action → World → World
unfolding reset_connection stop_tcp reset_input_variables reset_output_variables reset_sarm_counters
    discard_messages
run_action now i set_connection_pending w = request_connection_state i pending_hnz w
run_action now i reset_input w = on_path (reset_input_variables now) i w
run_action now i reset_output w = on_path reset_output_variables i w
run_action now i stop_client w = on_path stop_tcp i w
run_action now i reset_sarm w = on_path (reset_sarm_counters now) i w
run_action now i discard w = on_path discard_messages i w
run_action now i resolve_connected w =
    on_path (λ p. record p { last_connected = now }) i (request_connection_state i active w)
run_action now i resolve_connection w =
    on_path (reset_connection now) i (request_connection_state i disconnected w)

unfoldable pub run_actions : ℕ → PathId → List Action → World → World
unfolding run_action
run_actions now i [] w = w
run_actions now i (x ∷ xs) w = run_actions now i xs (run_action now i x w)

unfoldable pub same_protocol : ProtocolState → ProtocolState → Bool
same_protocol connection connection = true
same_protocol input_connected input_connected = true
same_protocol output_connected output_connected = true
same_protocol connected connected = true
same_protocol _ _ = false

-- Entering a state with its actions; a change wakes the thread that manages the path.
unfoldable pub enter : ℕ → PathId → ProtocolState → List Action → World → World
unfolding run_actions same_protocol
enter now i s acts w =
    let changed = not (same_protocol (path i w).protocol_state s) in
    on_path (λ p. record p { state_changed = p.state_changed || changed }) i
      (run_actions now i acts (on_path (λ p. record p { protocol_state = s }) i w))

-- An event that the table does not know in this state changes nothing.
unfoldable pub protocol_state_transition : ℕ → PathId → ConnectionEvent → World → World
unfolding transition enter
protocol_state_transition now i e w = elim (transition (path i w).protocol_state e) [
  | none ↦ w
  | some (s, acts) ↦ enter now i s acts w
]
