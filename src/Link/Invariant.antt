-- ===== src/Link/Invariant.antt =====
-- The transitions of the automaton (include/hnzpath.h, src/hnzpath.cpp) under the invariant of the
-- two paths.
use fledge_south_hnz.Prelude.{
  ℕ, ◌≡◌, refl, sym, ap, ◌∙◌, ◌&&◌, ◌||◌, not, if◌then◌else◌, and-true, Bool-cases, Option-cases,
  inl, inr, Bool, true, false, none, some, List, [], ◌∷◌, arith,
}
use fledge_south_hnz.State.Link.{
  HnzPath, PathId, path_a, path_b, ProtocolState, connection, input_connected, output_connected,
  connected, ConnectionEvent, received_sarm, disconnected, pending_hnz,
}
use fledge_south_hnz.State.Station.{World, path, put_path}
use fledge_south_hnz.Link.Activity.{is_active_state, is_passive}
use fledge_south_hnz.Link.Protocol.{
  Action, set_connection_pending, reset_input, reset_output, stop_client, reset_sarm, discard,
  resolve_connected, resolve_connection, transition, Row, same_protocol, on_path, run_action,
  run_actions, enter, protocol_state_transition,
}
use fledge_south_hnz.Link.Coherence.{
  Coherent, Entering, request_other-Coherent, request_active-Coherent,
}

-- An update of one path that leaves alone what the invariant reads.
pub record IsLocal (p q : HnzPath) : Type 0 where
  pub protocol : q.protocol_state ≡ p.protocol_state
  pub activity : q.connection_state ≡ p.connection_state
  pub made : q.created ≡ p.created

pub put_path-Coherent :
    (i : PathId) (q : HnzPath) (w : World)
    → IsLocal (path i w) q
    → Coherent w
    → Coherent (put_path i q w)
put_path-Coherent path_a q w l v = ground arith
put_path-Coherent path_b q w l v = ground arith

put_path-Entering :
    (i : PathId) (s : ProtocolState) (q : HnzPath) (w : World)
    → IsLocal (path i w) q
    → Entering i s w
    → Entering i s (put_path i q w)
put_path-Entering path_a s q w l v = ground arith
put_path-Entering path_b s q w l v = ground arith

-- Does an action's request fit the state?
abbrev requests : Action → ProtocolState → Bool
requests set_connection_pending input_connected = true
requests set_connection_pending output_connected = true
requests resolve_connected connected = true
requests resolve_connection connection = true
requests _ _ = false

abbrev is_reset : Action → Bool
is_reset set_connection_pending = false
is_reset resolve_connected = false
is_reset resolve_connection = false
is_reset _ = true

abbrev all_resets : List Action → Bool
all_resets [] = true
all_resets (x ∷ xs) = is_reset x && all_resets xs

-- Are the actions resets around one request, which fits the state?
abbrev requests_once : ProtocolState → List Action → Bool
requests_once s [] = false
requests_once s (x ∷ xs) = if is_reset x then requests_once s xs else requests x s && all_resets xs

run_reset-Coherent :
    (now : ℕ) (i : PathId) (x : Action) (w : World)
    → is_reset x ≡ true
    → Coherent w
    → Coherent (run_action now i x w)
unfolding run_action
run_reset-Coherent now i reset_input w r v = put_path-Coherent i _ w (ground arith) v
run_reset-Coherent now i reset_output w r v = put_path-Coherent i _ w (ground arith) v
run_reset-Coherent now i stop_client w r v = put_path-Coherent i _ w (ground arith) v
run_reset-Coherent now i reset_sarm w r v = put_path-Coherent i _ w (ground arith) v
run_reset-Coherent now i discard w r v = put_path-Coherent i _ w (ground arith) v
run_reset-Coherent now i set_connection_pending w r v = cc
run_reset-Coherent now i resolve_connected w r v = cc
run_reset-Coherent now i resolve_connection w r v = cc

run_reset-Entering :
    (now : ℕ) (i : PathId) (s : ProtocolState) (x : Action) (w : World)
    → is_reset x ≡ true
    → Entering i s w
    → Entering i s (run_action now i x w)
unfolding run_action
run_reset-Entering now i s reset_input w r v = put_path-Entering i s _ w (ground arith) v
run_reset-Entering now i s reset_output w r v = put_path-Entering i s _ w (ground arith) v
run_reset-Entering now i s stop_client w r v = put_path-Entering i s _ w (ground arith) v
run_reset-Entering now i s reset_sarm w r v = put_path-Entering i s _ w (ground arith) v
run_reset-Entering now i s discard w r v = put_path-Entering i s _ w (ground arith) v
run_reset-Entering now i s set_connection_pending w r v = cc
run_reset-Entering now i s resolve_connected w r v = cc
run_reset-Entering now i s resolve_connection w r v = cc

run_request-Coherent :
    (now : ℕ) (i : PathId) (s : ProtocolState) (x : Action) (w : World)
    → requests x s ≡ true
    → Entering i s w
    → Coherent (run_action now i x w)
unfolding run_action is_active_state is_passive
run_request-Coherent now i input_connected set_connection_pending w r v =
    request_other-Coherent i input_connected pending_hnz w refl refl tt v
run_request-Coherent now i output_connected set_connection_pending w r v =
    request_other-Coherent i output_connected pending_hnz w refl refl tt v
run_request-Coherent now i connected resolve_connected w r v =
    put_path-Coherent i _ _ (ground arith) (request_active-Coherent i w v)
run_request-Coherent now i connection resolve_connection w r v =
    put_path-Coherent i _ _ (ground arith)
      (request_other-Coherent i connection disconnected w refl refl tt v)
run_request-Coherent now i _ _ w r v = cc

run_resets-Coherent :
    (now : ℕ) (i : PathId) (acts : List Action) (w : World)
    → all_resets acts ≡ true
    → Coherent w
    → Coherent (run_actions now i acts w)
unfolding run_actions
run_resets-Coherent now i [] w r v = v
run_resets-Coherent now i (x ∷ xs) w r v =
    let (h, t) = and-true (is_reset x) _ r in
    run_resets-Coherent now i xs (run_action now i x w) t (run_reset-Coherent now i x w h v)

run_actions-Coherent :
    (now : ℕ) (i : PathId) (s : ProtocolState) (acts : List Action) (w : World)
    → requests_once s acts ≡ true
    → Entering i s w
    → Coherent (run_actions now i acts w)
unfolding run_actions
run_actions-Coherent now i s [] w r v = cc
run_actions-Coherent now i s (x ∷ xs) w r v = elim (Bool-cases (is_reset x)) [
  | inl e ↦
      run_actions-Coherent now i s xs (run_action now i x w) (rw e at r)
        (run_reset-Entering now i s x w e v)
  | inr e ↦
      let (h, t) = and-true (requests x s) _ (rw e at r) in
      run_resets-Coherent now i xs (run_action now i x w) t (run_request-Coherent now i s x w h v)
]

-- Is the row's request the one for its state, and does it lead to CONNECTED only from a state with
-- one direction open?
abbrev row_fits : ProtocolState → Row → Bool
row_fits s none = true
row_fits s (some (t, acts)) =
    requests_once t acts && (half_open s || not (same_protocol t connected))
  where
    half_open : ProtocolState → Bool
    half_open input_connected = true
    half_open output_connected = true
    half_open _ = false

transition-fits : (s : ProtocolState) (e : ConnectionEvent) → row_fits s (transition s e) ≡ true
unfolding transition same_protocol
transition-fits connection received_sarm = refl
transition-fits connection _ = refl
transition-fits input_connected received_sarm = refl
transition-fits input_connected _ = refl
transition-fits output_connected received_sarm = refl
transition-fits output_connected _ = refl
transition-fits connected received_sarm = refl
transition-fits connected _ = refl

start-Entering :
    (i : PathId) (s t : ProtocolState) (acts : List Action) (w : World)
    → (path i w).created ≡ true
    → (path i w).protocol_state ≡ s
    → row_fits s (some (t, acts)) ≡ true
    → Coherent w
    → Entering i t (on_path (λ p. record p { protocol_state = t }) i w)
unfolding same_protocol
start-Entering path_a s t acts w m e f v = ground arith
start-Entering path_b s t acts w m e f v = ground arith

enter-Coherent :
    (now : ℕ) (i : PathId) (t : ProtocolState) (acts : List Action) (w : World)
    → (path i w).created ≡ true
    → row_fits (path i w).protocol_state (some (t, acts)) ≡ true
    → Coherent w
    → Coherent (enter now i t acts w)
unfolding enter
enter-Coherent now i t acts w m f v = put_path-Coherent i _ _ (ground arith) (
    run_actions-Coherent now i t acts _ (and-true (requests_once t acts) _ f).0
      (start-Entering i (path i w).protocol_state t acts w m refl f v))

-- Every event of the protocol, on a path that is set and in any state of both paths, keeps the
-- invariant `Coherent`: the connection state of each path fits its protocol state, the active path
-- is exactly the one that is ACTIVE, the connection is reported as STARTED exactly if there is
-- one, no path stays PASSIVE without one while the connection runs, and a path remembered as the
-- first with its input connected has its input connected.
pub protocol_state_transition-Coherent :
    (now : ℕ) (i : PathId) (e : ConnectionEvent) (w : World)
    → (path i w).created ≡ true
    → Coherent w
    → Coherent (protocol_state_transition now i e w)
unfolding protocol_state_transition
protocol_state_transition-Coherent now i e w m v =
    elim (Option-cases (transition (path i w).protocol_state e)) [
      | inl r ↦ rw (r, protocol_state_transition) v
      | inr ((t, acts), r) ↦
          rw (r, protocol_state_transition)
            (enter-Coherent now i t acts w m
              (sym (ap (row_fits (path i w).protocol_state) r)
                ∙ transition-fits (path i w).protocol_state e)
              v)
    ]
