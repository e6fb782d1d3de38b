-- ===== src/Link/Activity.antt =====
-- Which path is active (src/hnzconnection.cpp, and `HNZPath::setConnectionState` of src/hnzpath.cpp).
-- The operations hold the mutex of the active path, so each is one step.
use fledge_south_hnz.Prelude.{
  if◌then◌else◌, Bool, true, false, not, ◌&&◌, Option, none, some, List, [], ◌∷◌,
}
use fledge_south_hnz.State.Link.{
  PathId, path_a, path_b, ProtocolState, input_connected, connected, ConnectionState, disconnected,
  pending_hnz, passive, active,
}
use fledge_south_hnz.State.Station.{
  World, path, put_path, other, same_path, is_path, ConnectionStatus, not_connected, Audit,
  path_active, path_passive, path_fail,
}
use fledge_south_hnz.Station.Monitor.{update_hnz_connection}

unfoldable pub same_state : ConnectionState → ConnectionState → Bool
same_state disconnected disconnected = true
same_state pending_hnz pending_hnz = true
same_state passive passive = true
same_state active active = true
same_state _ _ = false

-- The audit of a change between two states, which differ.
unfoldable pub state_audits : PathId → ConnectionState → ConnectionState → List Audit
state_audits i old passive = path_passive i ∷ []
state_audits i old active = path_active i ∷ []
state_audits i pending_hnz disconnected = []
state_audits i disconnected disconnected = path_fail i ∷ []
state_audits i passive disconnected = path_fail i ∷ []
state_audits i active disconnected = path_fail i ∷ []
state_audits i disconnected pending_hnz = []
state_audits i pending_hnz pending_hnz = path_fail i ∷ []
state_audits i passive pending_hnz = path_fail i ∷ []
state_audits i active pending_hnz = path_fail i ∷ []

abbrev add_audits : List Audit → World → World
add_audits [] w = w
add_audits (x ∷ xs) w = record w { hnz = record (w.hnz) { audits = x ∷ w.hnz.audits } }

unfoldable pub set_connection_state : PathId → ConnectionState → World → World
unfolding same_state state_audits
set_connection_state i new_state w =
    let old = (path i w).connection_state in
    if same_state new_state old
    then w
    else add_audits (state_audits i old new_state)
        (put_path i (record (path i w) { connection_state = new_state }) w)

unfoldable pub update_connection_status : ConnectionStatus → World → World
update_connection_status new_state w = record w {
  hnz = update_hnz_connection new_state w.hnz;
  conn = record (w.conn) {
    send_init_next_connection = elim new_state [
      | ConnectionStatus.started ↦ w.conn.send_init_next_connection
      | not_connected ↦ true
    ];
  };
}

unfoldable pub is_passive : ConnectionState → Bool
is_passive passive = true
is_passive _ = false

-- `tryActivateOtherPath`; with two paths the loop has one candidate.
unfoldable pub try_activate_other_path : PathId → World → World × Bool
unfolding is_passive
try_activate_other_path i w =
    let j = other i in
    if w.conn.is_running && (path j w).created && is_passive (path j w).connection_state
    then (
      update_connection_status ConnectionStatus.started (
          set_connection_state j active
            (record w { conn = record (w.conn) { active_path = some j } })),
      true,
    )
    else (w, false)

unfoldable pub input_open : ProtocolState → Bool
input_open input_connected = true
input_open connected = true
input_open _ = false

-- The first path with its input connected, after a request of path i.
unfoldable pub first_input : PathId → World → Option PathId
unfolding input_open
first_input i w = elim w.conn.first_input_connected [
  | none ↦ if input_open (path i w).protocol_state then some i else none
  | some j ↦ if same_path i j && not (input_open (path i w).protocol_state) then none else some j
]

-- A request for ACTIVE.
unfoldable pub request_active : PathId → World → World
request_active i w = elim w.conn.active_path [
  | none ↦
      update_connection_status ConnectionStatus.started (
        set_connection_state i active
          (record w { conn = record (w.conn) { active_path = some i } }))
  | some j ↦ set_connection_state i passive w
]

-- A request for another state, which is always granted.
unfoldable pub request_other : PathId → ConnectionState → World → World
unfolding try_activate_other_path
request_other i new_state w =
    let u = set_connection_state i new_state w in
    if is_path i u.conn.active_path
    then (let (v, found) =
          try_activate_other_path i
            (record u { conn = record (u.conn) { active_path = none; gi_repeat = 0 } }) in
        if found then v else update_connection_status not_connected v)
    else u

unfoldable pub is_active_state : ConnectionState → Bool
is_active_state active = true
is_active_state _ = false

unfoldable pub request_connection_state : PathId → ConnectionState → World → World
unfolding first_input is_active_state request_active request_other
request_connection_state i new_state w =
    let u = record w { conn = record (w.conn) { first_input_connected = first_input i w } } in
    if is_active_state new_state then request_active i u else request_other i new_state u

-- `canPathExtractMessage`.
unfoldable pub can_path_extract_message : PathId → World → Bool
can_path_extract_message i w =
    if is_path i w.conn.active_path
    then true
    else is_path i w.conn.first_input_connected && is_none w.conn.active_path
  where
    is_none : Option PathId → Bool
    is_none none = true
    is_none (some j) = false

-- `getPassivePath`: the first path that is set and not active.
unfoldable pub get_passive_path : World → Option PathId
get_passive_path w =
    if w.a.created && not (is_path path_a w.conn.active_path)
    then some path_a
    else (if w.b.created && not (is_path path_b w.conn.active_path) then some path_b else none)
