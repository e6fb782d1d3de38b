-- ===== src/Link/Queues.antt =====
-- The queues of the two paths through the transitions (include/hnzpath.h, src/hnzpath.cpp): every
-- queued message may be sent in the state that its path is in.
use fledge_south_hnz.Prelude.{
  ℕ, ◌≡◌, refl, sym, ap, ◌∙◌, Bool, true, false, ◌||◌, Option-cases, Bool-cases, inl, inr, List, [],
  ◌∷◌, none, some, arith,
}
use fledge_south_hnz.State.Link.{
  HnzPath, Message, PathId, path_a, path_b, ConnectionEvent, received_sarm, ProtocolState,
  connection, input_connected, output_connected, connected,
}
use fledge_south_hnz.State.Station.{World, path, other}
use fledge_south_hnz.Path.Send.{may_send}
use fledge_south_hnz.Path.Fifo.{CanSend}
use fledge_south_hnz.Link.Protocol.{
  Action, discard, Row, transition, on_path, run_action, run_actions, enter,
  protocol_state_transition,
}
use fledge_south_hnz.Link.Quiet.{IsInvariant}
use fledge_south_hnz.Link.Shrinks.{
  Empty, Sendable, Empty-CanSend, run_actions-CanSend, run_actions-Empty, queued,
}

abbrev is_discard : Action → Bool
is_discard discard = true
is_discard _ = false

abbrev discards : List Action → Bool
discards [] = false
discards (x ∷ xs) = is_discard x || discards xs

discard-Empty :
    (now : ℕ) (i : PathId) (x : Action) (w : World)
    → is_discard x ≡ true
    → Empty (path i (run_action now i x w))
unfolding run_action
discard-Empty now path_a discard w e = (refl, refl)
discard-Empty now path_b discard w e = (refl, refl)
discard-Empty now i _ w e = cc

-- Actions that discard leave the queues of their path empty.
discards-Empty :
    (now : ℕ) (i : PathId) (acts : List Action) (w : World)
    → discards acts ≡ true
    → Empty (path i (run_actions now i acts w))
unfolding run_actions
discards-Empty now i [] w e = cc
discards-Empty now i (x ∷ xs) w e = elim (Bool-cases (is_discard x)) [
  | inl d ↦ run_actions-Empty now i i xs (run_action now i x w) (discard-Empty now i x w d)
  | inr d ↦ discards-Empty now i xs (run_action now i x w) (rw d at e)
]

-- Does the second state let out at least what the first does?
abbrev lets_out : ProtocolState → ProtocolState → Bool
lets_out connection t = true
lets_out input_connected t = true
lets_out output_connected connection = false
lets_out output_connected input_connected = false
lets_out output_connected output_connected = true
lets_out output_connected connected = true
lets_out connected connection = false
lets_out connected input_connected = false
lets_out connected output_connected = false
lets_out connected connected = true

lets_out-may_send :
    (s t : ProtocolState) (b : Bool)
    → lets_out s t ≡ true
    → may_send s b ≡ true
    → may_send t b ≡ true
unfolding may_send
lets_out-may_send s t b e f = ground arith

-- Does a row discard the queues, or lead to a state that lets out at least as much?
abbrev row_safe : ProtocolState → Row → Bool
row_safe s none = true
row_safe s (some (t, acts)) = discards acts || lets_out s t

transition-safe : (s : ProtocolState) (e : ConnectionEvent) → row_safe s (transition s e) ≡ true
unfolding transition
transition-safe connection received_sarm = refl
transition-safe connection _ = refl
transition-safe input_connected received_sarm = refl
transition-safe input_connected _ = refl
transition-safe output_connected received_sarm = refl
transition-safe output_connected _ = refl
transition-safe connected received_sarm = refl
transition-safe connected _ = refl

-- The two queues may be sent.
pub record Queues (w : World) : Type 0 where
  pub on_a : CanSend w.a
  pub on_b : CanSend w.b

Queues-of : {w : World} → ((j : PathId) → CanSend (path j w)) → Queues w
Queues-of f = record { on_a = f path_a; on_b = f path_b }

at : (j : PathId) {w : World} → Queues w → CanSend (path j w)
at path_a q = q.on_a
at path_b q = q.on_b

-- A path that takes a state with what it may send.
enter_state-CanSend :
    (p : HnzPath) (t : ProtocolState)
    → lets_out p.protocol_state t ≡ true
    → CanSend p
    → CanSend (record p { protocol_state = t })
enter_state-CanSend p t e c = record {
  sent = more p.msg_sent c.sent;
  waiting = more p.msg_waiting c.waiting;
}
  where
    more :
        (ms : List Message)
        → Sendable (queued p) ms
        → Sendable (queued (record p { protocol_state = t })) ms
    more [] h = tt
    more (m ∷ ms) h = (lets_out-may_send p.protocol_state t _ e h.0, more ms h.1)

entered : PathId → ProtocolState → World → World
entered i t w = on_path (λ p. record p { protocol_state = t }) i w

entered-CanSend :
    (i j : PathId) (t : ProtocolState) (w : World)
    → lets_out (path i w).protocol_state t ≡ true
    → Queues w
    → CanSend (path j (entered i t w))
unfolding entered
entered-CanSend path_a path_a t w e q = enter_state-CanSend w.a t e q.on_a
entered-CanSend path_a path_b t w e q = q.on_b
entered-CanSend path_b path_a t w e q = q.on_a
entered-CanSend path_b path_b t w e q = enter_state-CanSend w.b t e q.on_b

other_entered-CanSend :
    (i : PathId) (t : ProtocolState) (w : World)
    → Queues w
    → CanSend (path (other i) (entered i t w))
unfolding entered
other_entered-CanSend path_a t w q = q.on_b
other_entered-CanSend path_b t w q = q.on_a

pick : (i : PathId) {w : World} → CanSend (path i w) → CanSend (path (other i) w) → Queues w
pick path_a c d = record { on_a = c; on_b = d }
pick path_b c d = record { on_a = d; on_b = c }

acted-Queues :
    (now : ℕ) (i : PathId) (t : ProtocolState) (acts : List Action) (w : World)
    → row_safe (path i w).protocol_state (some (t, acts)) ≡ true
    → Queues w
    → Queues (run_actions now i acts (entered i t w))
acted-Queues now i t acts w safe q = elim (Bool-cases (discards acts)) [
  | inl d ↦
      pick i
        (Empty-CanSend (path i (run_actions now i acts (entered i t w)))
          (discards-Empty now i acts (entered i t w) d))
        (run_actions-CanSend now i (other i) acts (entered i t w) (other_entered-CanSend i t w q))
  | inr d ↦
      let l : lets_out (path i w).protocol_state t ≡ true = rw d at safe in
      Queues-of
        (λ j. run_actions-CanSend now i j acts (entered i t w) (entered-CanSend i j t w l q))
]

noted-Queues :
    (i : PathId) (b : Bool) (w : World)
    → Queues w
    → Queues (on_path (λ p. record p { state_changed = b }) i w)
noted-Queues path_a b w q = record {
  on_a = record { sent = q.on_a.sent; waiting = q.on_a.waiting };
  on_b = q.on_b;
}
noted-Queues path_b b w q = record {
  on_a = q.on_a;
  on_b = record { sent = q.on_b.sent; waiting = q.on_b.waiting };
}

enter-Queues :
    (now : ℕ) (i : PathId) (t : ProtocolState) (acts : List Action) (w : World)
    → row_safe (path i w).protocol_state (some (t, acts)) ≡ true
    → Queues w
    → Queues (enter now i t acts w)
unfolding enter entered
enter-Queues now i t acts w safe q = noted-Queues i _ _ (acted-Queues now i t acts w safe q)

-- If every queued message of both paths may be sent in the state of its path, so it is after any
-- event of the protocol on a path.
pub protocol_state_transition-Queues :
    (now : ℕ) (i : PathId) (e : ConnectionEvent) (w : World)
    → Queues w
    → Queues (protocol_state_transition now i e w)
unfolding protocol_state_transition
protocol_state_transition-Queues now i e w q =
    elim (Option-cases (transition (path i w).protocol_state e)) [
      | inl r ↦ rw (r, protocol_state_transition) q
      | inr ((t, acts), r) ↦
          rw (r, protocol_state_transition)
            (enter-Queues now i t acts w
              (sym (ap (row_safe (path i w).protocol_state) r)
                ∙ transition-safe (path i w).protocol_state e)
              q)
    ]

pub Queues-IsInvariant : IsInvariant Queues
Queues-IsInvariant = record {
  quiet = λ s q. record { on_a = s.on_a.queues q.on_a; on_b = s.on_b.queues q.on_b };
  transition = λ now i e w made q. protocol_state_transition-Queues now i e w q;
  stopping = λ w q. record { on_a = q.on_a; on_b = q.on_b };
}
