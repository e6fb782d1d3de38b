-- ===== src/Link/Shrinks.antt =====
-- The queues of the two paths through the actions of the transitions (src/hnzpath.cpp,
-- src/hnzconnection.cpp).
use fledge_south_hnz.Prelude.{
  ℕ, ◌≡◌, refl, sym, ap, ◌∙◌, Bool, true, false, inl, inr, ◌⊎◌, List, [], ◌∷◌, All, none, some,
  if-both, arith,
}
use mathlib.Core.Path.{subst}
use fledge_south_hnz.State.Link.{
  HnzPath, PathConf, Message, PathId, path_a, path_b, ProtocolState, ConnectionState, disconnected,
  pending_hnz, passive, active, Connection,
}
use fledge_south_hnz.State.Station.{
  World, path, put_path, other, is_path, ConnectionStatus, not_connected,
}
use fledge_south_hnz.Path.Send.{may_send, is_format}
use fledge_south_hnz.Path.Fifo.{CanSend}
use fledge_south_hnz.Link.Activity.{
  request_connection_state, set_connection_state, update_connection_status, request_active,
  request_other, try_activate_other_path, first_input, is_active_state,
}
use fledge_south_hnz.Link.Protocol.{
  Action, set_connection_pending, reset_input, reset_output, stop_client, reset_sarm, discard,
  resolve_connected, resolve_connection, run_action, run_actions,
}

-- What `CanSend` reads of a path, and whether it is set.
pub record Queued : Type 0 where
  pub conf : PathConf
  pub protocol : ProtocolState
  pub sent : List Message
  pub waiting : List Message
  pub made : Bool

abbrev pub queued : HnzPath → Queued
queued p = record {
  conf = p.conf;
  protocol = p.protocol_state;
  sent = p.msg_sent;
  waiting = p.msg_waiting;
  made = p.created;
}

-- The queues are as before, or empty.
abbrev pub Shrunk : HnzPath → HnzPath → Type 0
Shrunk p q = (queued p ≡ queued q) ⊎ ((q.msg_sent ≡ []) × (q.msg_waiting ≡ []))

set_connection_state-queued :
    (i j : PathId) (c : ConnectionState) (w : World)
    → queued (path j w) ≡ queued (path j (set_connection_state i c w))
unfolding set_connection_state
set_connection_state-queued path_a path_a c w = ground arith
set_connection_state-queued path_a path_b c w = ground arith
set_connection_state-queued path_b path_a c w = ground arith
set_connection_state-queued path_b path_b c w = ground arith

-- The queues of a path are as in a state.
abbrev pub AsIn : PathId → World → World → Type 0
AsIn j w u = queued (path j w) ≡ queued (path j u)

conn-AsIn : (j : PathId) (w : World) (c : Connection) → AsIn j w (record w { conn = c })
conn-AsIn path_a w c = refl
conn-AsIn path_b w c = refl

update_connection_status-AsIn :
    (j : PathId) (s : ConnectionStatus) (w : World) → AsIn j w (update_connection_status s w)
unfolding update_connection_status
update_connection_status-AsIn path_a s w = refl
update_connection_status-AsIn path_b s w = refl

request_active-AsIn : (i j : PathId) (w : World) → AsIn j w (request_active i w)
unfolding request_active
request_active-AsIn i j w =
    let c : Connection = record (w.conn) { active_path = some i } in
    elim w.conn.active_path
      as (λ o. AsIn j w (elim o [
        | none ↦
            update_connection_status ConnectionStatus.started
              (set_connection_state i active (record w { conn = c }))
        | some k ↦ set_connection_state i passive w
      ])) [
        | none ↦
            conn-AsIn j w c
            ∙ set_connection_state-queued i j active (record w { conn = c })
            ∙ update_connection_status-AsIn j ConnectionStatus.started _
        | some k ↦ set_connection_state-queued i j passive w
      ]

try_activate_other_path-AsIn : (i j : PathId) (w : World) → AsIn j w (try_activate_other_path i w).0
unfolding try_activate_other_path
try_activate_other_path-AsIn i j w =
    let c : Connection = record (w.conn) { active_path = some (other i) } in
    if-both (λ (r : World × Bool). AsIn j w r.0) _ _ (w, false)
      (conn-AsIn j w c
        ∙ set_connection_state-queued (other i) j active (record w { conn = c })
        ∙ update_connection_status-AsIn j ConnectionStatus.started _)
      refl

request_other-AsIn :
    (i j : PathId) (c : ConnectionState) (w : World) → AsIn j w (request_other i c w)
unfolding request_other
request_other-AsIn i j c w =
    let u : World = set_connection_state i c w in
    let k : Connection = record (u.conn) { active_path = none; gi_repeat = 0 } in
    let t : World × Bool = try_activate_other_path i (record u { conn = k }) in
    let e : AsIn j w u = set_connection_state-queued i j c w in
    let f : AsIn j w t.0 =
      e ∙ conn-AsIn j u k ∙ try_activate_other_path-AsIn i j (record u { conn = k }) in
    if-both (AsIn j w) (is_path i u.conn.active_path) _ u
      (if-both (AsIn j w) t.1 t.0 _ f (f ∙ update_connection_status-AsIn j not_connected t.0)) e

pub request_connection_state-AsIn :
    (i j : PathId) (c : ConnectionState) (w : World) → AsIn j w (request_connection_state i c w)
unfolding request_connection_state
request_connection_state-AsIn i j c w =
    let k : Connection = record (w.conn) { first_input_connected = first_input i w } in
    if-both (AsIn j w) (is_active_state c) _ _
      (conn-AsIn j w k ∙ request_active-AsIn i j (record w { conn = k }))
      (conn-AsIn j w k ∙ request_other-AsIn i j c (record w { conn = k }))

-- The queues of path j are as before, or empty.
abbrev Shrinks : PathId → World → World → Type 0
Shrinks j w u = Shrunk (path j w) (path j u)

on_path-AsIn :
    (i j : PathId) (q : HnzPath) (w : World)
    → queued (path i w) ≡ queued q
    → AsIn j w (put_path i q w)
on_path-AsIn path_a path_a q w e = e
on_path-AsIn path_a path_b q w e = refl
on_path-AsIn path_b path_a q w e = refl
on_path-AsIn path_b path_b q w e = e

run_action-Shrinks :
    (now : ℕ) (i j : PathId) (x : Action) (w : World) → Shrinks j w (run_action now i x w)
unfolding run_action
run_action-Shrinks now i j set_connection_pending w =
    inl (request_connection_state-AsIn i j pending_hnz w)
run_action-Shrinks now i j reset_input w = inl (on_path-AsIn i j _ w refl)
run_action-Shrinks now i j reset_output w = inl (on_path-AsIn i j _ w refl)
run_action-Shrinks now i j stop_client w = inl (on_path-AsIn i j _ w refl)
run_action-Shrinks now i j reset_sarm w = inl (on_path-AsIn i j _ w refl)
run_action-Shrinks now path_a path_a discard w = inr (refl, refl)
run_action-Shrinks now path_a path_b discard w = inl refl
run_action-Shrinks now path_b path_a discard w = inl refl
run_action-Shrinks now path_b path_b discard w = inr (refl, refl)
run_action-Shrinks now i j resolve_connected w =
    inl (request_connection_state-AsIn i j active w ∙ on_path-AsIn i j _ _ refl)
run_action-Shrinks now i j resolve_connection w =
    inl (request_connection_state-AsIn i j disconnected w ∙ on_path-AsIn i j _ _ refl)

abbrev pub Empty : HnzPath → Type 0
Empty p = (p.msg_sent ≡ []) × (p.msg_waiting ≡ [])

Shrunk-Empty : (p q : HnzPath) → Shrunk p q → Empty p → Empty q
Shrunk-Empty p q (inl e) (s, t) =
    (sym (ap (λ (v : Queued). v.sent) e) ∙ s, sym (ap (λ (v : Queued). v.waiting) e) ∙ t)
Shrunk-Empty p q (inr e) h = e

abbrev pub Sendable : Queued → List Message → Type 0
Sendable v ms = All (λ m. may_send v.protocol (is_format v.conf.test_msg_send m.payload) ≡ true) ms

pub Empty-CanSend : (p : HnzPath) → Empty p → CanSend p
Empty-CanSend p (s, t) = record {
  sent = subst (Sendable (queued p)) (sym s) tt;
  waiting = subst (Sendable (queued p)) (sym t) tt;
}

Shrunk-CanSend : (p q : HnzPath) → Shrunk p q → CanSend p → CanSend q
Shrunk-CanSend p q (inl e) c = record {
  sent = subst (λ (v : Queued). Sendable v v.sent) e c.sent;
  waiting = subst (λ (v : Queued). Sendable v v.waiting) e c.waiting;
}
Shrunk-CanSend p q (inr e) c = Empty-CanSend q e

pub run_actions-CanSend :
    (now : ℕ) (i j : PathId) (acts : List Action) (w : World)
    → CanSend (path j w)
    → CanSend (path j (run_actions now i acts w))
unfolding run_actions
run_actions-CanSend now i j [] w c = c
run_actions-CanSend now i j (x ∷ xs) w c =
    run_actions-CanSend now i j xs (run_action now i x w)
      (Shrunk-CanSend (path j w) (path j (run_action now i x w)) (run_action-Shrinks now i j x w) c)

pub run_actions-Empty :
    (now : ℕ) (i j : PathId) (acts : List Action) (w : World)
    → Empty (path j w)
    → Empty (path j (run_actions now i acts w))
unfolding run_actions
run_actions-Empty now i j [] w c = c
run_actions-Empty now i j (x ∷ xs) w c =
    run_actions-Empty now i j xs (run_action now i x w)
      (Shrunk-Empty (path j w) (path j (run_action now i x w)) (run_action-Shrinks now i j x w) c)
