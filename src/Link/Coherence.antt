-- ===== src/Link/Coherence.antt =====
-- The invariant of the two paths under the connection (src/hnzconnection.cpp): which states go
-- together, and what the requests within a transition make of them.
use fledge_south_hnz.Prelude.{
  ◌≡◌, Option-cases, inl, inr, Bool, true, false, Option, none, some, arith,
}
use fledge_south_hnz.State.Link.{
  PathId, path_a, path_b, ProtocolState, connection, input_connected, output_connected, connected,
  ConnectionState, disconnected, pending_hnz, passive, active,
}
use fledge_south_hnz.State.Station.{World, path, other, is_path, ConnectionStatus, not_connected}
use fledge_south_hnz.Link.Activity.{
  input_open, first_input, is_active_state, is_passive, request_active, request_other,
  request_connection_state,
}
use fledge_south_hnz.Link.Effects.{
  Sets, set_connection_state-Sets, Reports, update_connection_status-Reports, Keeps, Outcome,
  unmoved, taken, lost, request_other-Done,
}

-- The connection states that fit a state of the protocol.
abbrev pub Agrees : ProtocolState → ConnectionState → Type 0
Agrees connection disconnected = Unit
Agrees input_connected pending_hnz = Unit
Agrees output_connected pending_hnz = Unit
Agrees connected passive = Unit
Agrees connected active = Unit
Agrees _ _ = ⊥

abbrev pub has_path : Option PathId → Bool
has_path none = false
has_path (some i) = true

abbrev pub is_started : ConnectionStatus → Bool
is_started ConnectionStatus.started = true
is_started not_connected = false

-- What holds of the activity in between: the active path is the one whose state is ACTIVE, the
-- connection is reported as started if there is one, no path is left PASSIVE without one while
-- the connection runs, and a path that is not set is disconnected.
pub record Active (w : World) : Type 0 where
  pub active_a : is_active_state w.a.connection_state ≡ is_path path_a w.conn.active_path
  pub active_b : is_active_state w.b.connection_state ≡ is_path path_b w.conn.active_path
  pub status : is_started w.hnz.conn_status ≡ has_path w.conn.active_path
  pub none_idle :
      w.conn.is_running ≡ true
      → w.conn.active_path ≡ none
      → (is_passive w.a.connection_state ≡ false) × (is_passive w.b.connection_state ≡ false)
  pub unused_a : w.a.created ≡ false → w.a.connection_state ≡ disconnected
  pub unused_b : w.b.created ≡ false → w.b.connection_state ≡ disconnected

-- A path that is remembered as the first with its input connected has its input connected.
abbrev pub FirstOpen : PathId → World → Type 0
FirstOpen i w =
    is_path i w.conn.first_input_connected ≡ true → input_open (path i w).protocol_state ≡ true

-- The invariant between two operations.
pub record Coherent (w : World) : Type 0 where
  pub activity : Active w
  pub agrees_a : Agrees w.a.protocol_state w.a.connection_state
  pub agrees_b : Agrees w.b.protocol_state w.b.connection_state
  pub first_a : FirstOpen path_a w
  pub first_b : FirstOpen path_b w

-- What holds of path i within a transition to a state, before the request of that transition.
pub record Entering (i : PathId) (s : ProtocolState) (w : World) : Type 0 where
  pub activity : Active w
  pub set : (path i w).created ≡ true
  pub at : (path i w).protocol_state ≡ s
  pub ready : s ≡ connected → (path i w).connection_state ≡ pending_hnz
  pub agrees : Agrees (path (other i) w).protocol_state (path (other i) w).connection_state
  pub first : FirstOpen (other i) w

-- The three outcomes each restore the invariant.
module _ (s : ProtocolState) (c : ConnectionState) (p : is_active_state c ≡ false)
    (q : is_passive c ≡ false) (g : Agrees s c) (w u : World) where
  Outcome-Active :
      (i : PathId)
      → Entering i s w
      → Keeps i w u
      → (path i u).connection_state ≡ c
      → Outcome i w u
      → Active u
  unfolding is_active_state is_passive
  Outcome-Active path_a v k e (unmoved x y z t) = ground arith
  Outcome-Active path_a v k e (taken x y z t) = ground arith
  Outcome-Active path_a v k e (lost x y z t r) = ground arith
  Outcome-Active path_b v k e (unmoved x y z t) = ground arith
  Outcome-Active path_b v k e (taken x y z t) = ground arith
  Outcome-Active path_b v k e (lost x y z t r) = ground arith

  Outcome-Agrees :
      (i : PathId)
      → Entering i s w
      → Keeps i w u
      → (path i u).connection_state ≡ c
      → Outcome i w u
      → Agrees (path i u).protocol_state (path i u).connection_state
        × Agrees (path (other i) u).protocol_state (path (other i) u).connection_state
  unfolding is_passive
  Outcome-Agrees path_a v k e (unmoved x y z t) = ground arith
  Outcome-Agrees path_a v k e (taken x y z t) = ground arith
  Outcome-Agrees path_a v k e (lost x y z t r) = ground arith
  Outcome-Agrees path_b v k e (unmoved x y z t) = ground arith
  Outcome-Agrees path_b v k e (taken x y z t) = ground arith
  Outcome-Agrees path_b v k e (lost x y z t r) = ground arith

-- The first input, as a request computes it.
abbrev noted : PathId → World → World
noted i w = record w { conn = record (w.conn) { first_input_connected = first_input i w } }

noted-Entering :
    (i : PathId) (s : ProtocolState) (w : World) → Entering i s w → Entering i s (noted i w)
unfolding first_input
noted-Entering path_a s w v = ground arith
noted-Entering path_b s w v = ground arith

noted-FirstOpen : (i : PathId) (w : World) → FirstOpen i (noted i w)
unfolding first_input input_open
noted-FirstOpen path_a w h = ground arith
noted-FirstOpen path_b w h = ground arith

Keeps-FirstOpen :
    (i : PathId) (w u : World)
    → FirstOpen i w
    → FirstOpen (other i) w
    → Keeps i w u
    → FirstOpen i u × FirstOpen (other i) u
Keeps-FirstOpen path_a w u h k e = ground arith
Keeps-FirstOpen path_b w u h k e = ground arith

assemble :
    (i : PathId) (u : World)
    → Active u
    → Agrees (path i u).protocol_state (path i u).connection_state
      × Agrees (path (other i) u).protocol_state (path (other i) u).connection_state
    → FirstOpen i u × FirstOpen (other i) u
    → Coherent u
assemble path_a u v g f = record {
  activity = v;
  agrees_a = g.0;
  agrees_b = g.1;
  first_a = f.0;
  first_b = f.1;
}
assemble path_b u v g f = record {
  activity = v;
  agrees_a = g.1;
  agrees_b = g.0;
  first_a = f.1;
  first_b = f.0;
}

-- A request for a state that fits, other than ACTIVE and PASSIVE.
pub request_other-Coherent :
    (i : PathId) (s : ProtocolState) (c : ConnectionState) (w : World)
    → is_active_state c ≡ false
    → is_passive c ≡ false
    → Agrees s c
    → Entering i s w
    → Coherent (request_connection_state i c w)
unfolding request_connection_state
request_other-Coherent i s c w p q g v =
    let u = request_other i c (noted i w) in
    let n : Entering i s (noted i w) = noted-Entering i s w v in
    let (k, e, o) = request_other-Done i c (noted i w) in
    let done : Coherent u =
      assemble i u (Outcome-Active s c p q g (noted i w) u i n k e o)
        (Outcome-Agrees s c p q g (noted i w) u i n k e o)
        (Keeps-FirstOpen i (noted i w) u (noted-FirstOpen i w) n.first k) in
    rw p done

-- A path that asks for ACTIVE when none is active.
first-Coherent :
    (i : PathId) (w v x : World)
    → Entering i connected w
    → FirstOpen i w
    → w.conn.active_path ≡ none
    → Sets i active (record w { conn = record (w.conn) { active_path = some i } }) v
    → Reports ConnectionStatus.started v x
    → Coherent x
unfolding is_active_state is_passive
first-Coherent path_a w v x n f e s r = ground arith
first-Coherent path_b w v x n f e s r = ground arith

second-Coherent :
    (i j : PathId) (w v : World)
    → Entering i connected w
    → FirstOpen i w
    → w.conn.active_path ≡ some j
    → Sets i passive w v
    → Coherent v
unfolding is_active_state is_passive
second-Coherent path_a j w v n f e s = ground arith
second-Coherent path_b j w v n f e s = ground arith

-- A request for ACTIVE of a path whose protocol is connected.
pub request_active-Coherent :
    (i : PathId) (w : World)
    → Entering i connected w
    → Coherent (request_connection_state i active w)
unfolding request_connection_state
request_active-Coherent i w v = elim (Option-cases w.conn.active_path) [
  | inl e ↦
      rw (e, request_active)
        (first-Coherent i (noted i w) _ _ (noted-Entering i connected w v) (noted-FirstOpen i w) e
          (set_connection_state-Sets i active _)
          (update_connection_status-Reports ConnectionStatus.started _))
  | inr (j, e) ↦
      rw (e, request_active)
        (second-Coherent i j (noted i w) _ (noted-Entering i connected w v) (noted-FirstOpen i w) e
          (set_connection_state-Sets i passive _))
]
