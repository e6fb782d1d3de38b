-- ===== src/Link/Effects.antt =====
-- What the requests of src/hnzconnection.cpp change of the activity of the two paths: each branch of
-- a request for another state than ACTIVE, by its effects.
use fledge_south_hnz.Prelude.{
  ◌≡◌, Bool-cases, inl, inr, ap, ◌∙◌, Bool, true, false, ◌&&◌, none, some, arith,
}
use fledge_south_hnz.State.Link.{PathId, path_a, path_b, ConnectionState, active}
use fledge_south_hnz.State.Station.{World, path, other, is_path, ConnectionStatus, not_connected}
use fledge_south_hnz.Station.Status.{conn_status-update_hnz_connection}
use fledge_south_hnz.Link.Activity.{
  is_passive, set_connection_state, update_connection_status, request_other,
}

-- What `setConnectionState` changes of what the invariant reads.
pub record Sets (i : PathId) (c : ConnectionState) (w u : World) : Type 0 where
  pub state : (path i u).connection_state ≡ c
  pub kept : (path i u).protocol_state ≡ (path i w).protocol_state
  pub made : (path i u).created ≡ (path i w).created
  pub others : path (other i) u ≡ path (other i) w
  pub link : u.conn ≡ w.conn
  pub status : u.hnz.conn_status ≡ w.hnz.conn_status

pub set_connection_state-Sets :
    (i : PathId) (c : ConnectionState) (w : World) → Sets i c w (set_connection_state i c w)
unfolding set_connection_state
set_connection_state-Sets path_a c w = ground arith
set_connection_state-Sets path_b c w = ground arith

-- And the update of the connection's status.
pub record Reports (s : ConnectionStatus) (w u : World) : Type 0 where
  pub kept_a : u.a ≡ w.a
  pub kept_b : u.b ≡ w.b
  pub act : u.conn.active_path ≡ w.conn.active_path
  pub inp : u.conn.first_input_connected ≡ w.conn.first_input_connected
  pub runs : u.conn.is_running ≡ w.conn.is_running
  pub status : u.hnz.conn_status ≡ s

pub update_connection_status-Reports :
    (s : ConnectionStatus) (w : World) → Reports s w (update_connection_status s w)
unfolding update_connection_status
update_connection_status-Reports s w = ground (arith, conn_status-update_hnz_connection s w.hnz)

-- Can another path take over?
abbrev pub can_take_over : PathId → World → Bool
can_take_over j w =
    w.conn.is_running && (path j w).created && is_passive (path j w).connection_state

-- How a request for another state than ACTIVE ends: the path was not active, or the other path
-- takes over, or no path is left.
pub data Outcome (i : PathId) (w u : World) : Type 0 where
  unmoved :
      is_path i w.conn.active_path ≡ false
      → u.conn.active_path ≡ w.conn.active_path
      → (path (other i) u).connection_state ≡ (path (other i) w).connection_state
      → u.hnz.conn_status ≡ w.hnz.conn_status
      → Outcome i w u
  taken :
      can_take_over (other i) w ≡ true
      → u.conn.active_path ≡ some (other i)
      → (path (other i) u).connection_state ≡ active
      → u.hnz.conn_status ≡ ConnectionStatus.started
      → Outcome i w u
  lost :
      can_take_over (other i) w ≡ false
      → is_path i w.conn.active_path ≡ true
      → u.conn.active_path ≡ none
      → (path (other i) u).connection_state ≡ (path (other i) w).connection_state
      → u.hnz.conn_status ≡ not_connected
      → Outcome i w u

-- What every request leaves alone, and the first input that it computes.
pub record Keeps (i : PathId) (w u : World) : Type 0 where
  pub mine : (path i u).protocol_state ≡ (path i w).protocol_state
  pub made : (path i u).created ≡ (path i w).created
  pub theirs : (path (other i) u).protocol_state ≡ (path (other i) w).protocol_state
  pub others_made : (path (other i) u).created ≡ (path (other i) w).created
  pub runs : u.conn.is_running ≡ w.conn.is_running
  pub inp : u.conn.first_input_connected ≡ w.conn.first_input_connected

-- The world in which another path is looked for.
abbrev pub released : PathId → ConnectionState → World → World
released i c w =
    let u = set_connection_state i c w in
    record u { conn = record (u.conn) { active_path = none; gi_repeat = 0 } }

-- The world in which path j has taken over.
abbrev pub taken_over : PathId → World → World
taken_over j w =
    update_connection_status ConnectionStatus.started
      (set_connection_state j active (record w { conn = record (w.conn) { active_path = some j } }))

module _ (i : PathId) (c : ConnectionState) (w : World) where
  same_test :
      (b : Bool)
      → is_path i w.conn.active_path ≡ b
      → is_path i (set_connection_state i c w).conn.active_path ≡ b
  same_test b e = ap (λ k. is_path i k.active_path) (set_connection_state-Sets i c w).link ∙ e

  request_other-away :
      is_path i w.conn.active_path ≡ false → request_other i c w ≡ set_connection_state i c w
  unfolding request_other
  request_other-away e = rw (same_test false e)

  request_other-takes :
      is_path i w.conn.active_path ≡ true
      → can_take_over (other i) (released i c w) ≡ true
      → request_other i c w ≡ taken_over (other i) (released i c w)
  unfolding request_other
  request_other-takes e h = rw (same_test true e, h)

  request_other-loses :
      is_path i w.conn.active_path ≡ true
      → can_take_over (other i) (released i c w) ≡ false
      → request_other i c w ≡ update_connection_status not_connected (released i c w)
  unfolding request_other
  request_other-loses e h = rw (same_test true e, h)

-- A request for another state than ACTIVE: what it keeps, and how it ends.
abbrev pub Done : PathId → ConnectionState → World → World → Type 0
Done i c w u = Keeps i w u × ((path i u).connection_state ≡ c) × Outcome i w u

away-Done :
    (i : PathId) (c : ConnectionState) (w u : World)
    → is_path i w.conn.active_path ≡ false
    → Sets i c w u
    → Done i c w u
away-Done path_a c w u e s =
    (ground arith, s.state, unmoved e (ground arith) (ground arith) s.status)
away-Done path_b c w u e s =
    (ground arith, s.state, unmoved e (ground arith) (ground arith) s.status)

module _ (c : ConnectionState) (w u v x : World) where
  taken-Done :
      (i : PathId)
      → is_path i w.conn.active_path ≡ true
      → can_take_over (other i) w ≡ true
      → Sets i c w u
      → Sets
          (other i)
          active
          (record u { conn = record (u.conn) { active_path = some (other i); gi_repeat = 0 } })
          v
      → Reports ConnectionStatus.started v x
      → Done i c w x
  taken-Done path_a m e s s' r =
      (ground arith, ground arith, taken e (ground arith) (ground arith) (ground arith))
  taken-Done path_b m e s s' r =
      (ground arith, ground arith, taken e (ground arith) (ground arith) (ground arith))

  lost-Done :
      (i : PathId)
      → is_path i w.conn.active_path ≡ true
      → can_take_over (other i) w ≡ false
      → Sets i c w u
      → Reports not_connected
          (record u { conn = record (u.conn) { active_path = none; gi_repeat = 0 } })
          x
      → Done i c w x
  lost-Done path_a m e s r =
      (ground arith, ground arith, lost e m (ground arith) (ground arith) (ground arith))
  lost-Done path_b m e s r =
      (ground arith, ground arith, lost e m (ground arith) (ground arith) (ground arith))

can_take_over-released :
    (i : PathId) (c : ConnectionState) (w : World)
    → can_take_over (other i) (released i c w) ≡ can_take_over (other i) w
can_take_over-released path_a c w = ground (arith, set_connection_state-Sets path_a c w)
can_take_over-released path_b c w = ground (arith, set_connection_state-Sets path_b c w)

pub request_other-Done :
    (i : PathId) (c : ConnectionState) (w : World) → Done i c w (request_other i c w)
request_other-Done i c w = elim (Bool-cases (is_path i w.conn.active_path)) [
  | inr away ↦
      rw (request_other-away i c w away) (away-Done i c w _ away (set_connection_state-Sets i c w))
  | inl mine ↦ elim (Bool-cases (can_take_over (other i) w)) [
    | inl ready ↦ rw (request_other-takes i c w mine (can_take_over-released i c w ∙ ready)) (
        taken-Done c w _ _ _ i mine ready (set_connection_state-Sets i c w)
          (set_connection_state-Sets (other i) active _)
          (update_connection_status-Reports ConnectionStatus.started _))
    | inr gone ↦ rw (request_other-loses i c w mine (can_take_over-released i c w ∙ gone)) (
        lost-Done c w _ w _ i mine gone (set_connection_state-Sets i c w)
          (update_connection_status-Reports not_connected _))
  ]
]
