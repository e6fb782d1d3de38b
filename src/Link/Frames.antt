-- ===== src/Link/Frames.antt =====
-- Received frames and the manager of a path (src/hnzpath.cpp): SARM, UA, receipts and information
-- frames, SARM and BULLE in time. A frame is the bytes that `checkCRC` accepted, the CRC included.
use fledge_south_hnz.Prelude.{
  ℕ, ◌+◌, ◌-◌, ◌*◌, ◌%◌, ◌^◌, ltb, leb, ◌==◌, if◌then◌else◌, Bool, true, false, not, ◌&&◌, none,
  some, List, [], length, get_or, drop, shr, low_bits, Result, ok, fault, buffer_overrun,
}
use fledge_south_hnz.State.Link.{
  HnzPath, PathId, ProtocolState, connection, input_connected, output_connected, connected,
  received_sarm, received_ua, to_recv, max_sarm_sent,
}
use fledge_south_hnz.State.Station.{World, path, put_path}
use fledge_south_hnz.Path.Send.{send_ua, send_sarm, send_bulle, received_bulle}
use fledge_south_hnz.Path.Ack.{received_rr, send_rr}
use fledge_south_hnz.Path.Extract.{extract_messages}
use fledge_south_hnz.Link.Activity.{can_path_extract_message}
use fledge_south_hnz.Link.Protocol.{on_path, protocol_state_transition}

-- The messages for Fledge with the new state.
abbrev pub Received : Type 0
Received = List (List ℕ) × World

unfoldable pub receive_sarm : ℕ → PathId → World → World
unfolding protocol_state_transition send_ua
receive_sarm now i w =
    let u = on_path (send_ua now) i w in
    if ltb ((path i u).last_connected + (path i u).repeat_timeout) now
    then protocol_state_transition now i received_sarm u
    else u

unfoldable pub receive_ua : ℕ → PathId → World → World
unfolding protocol_state_transition
receive_ua now i w = protocol_state_transition now i received_ua w

-- The three fields of a control byte.
abbrev pub ns_of : ℕ → ℕ
ns_of type_byte = low_bits (shr type_byte 1) 3

abbrev pub pf_of : ℕ → ℕ
pf_of type_byte = low_bits (shr type_byte 4) 1

abbrev pub nr_of : ℕ → ℕ
nr_of type_byte = low_bits (shr type_byte 5) 3

-- The messages of an information frame, on the path that may extract them. A BULLE among them
-- restarts the inactivity timer. A frame without room for address, type and CRC has a negative size.
unfoldable pub extract_on : ℕ → PathId → List ℕ → World → Result Received
extract_on now i frame w =
    if not (can_path_extract_message i w)
    then ok ([], w)
    else (if ltb (length frame) 4
        then fault buffer_overrun
        else elim (extract_messages (path i w).codes (path i w).test_msg_receive (drop 2 frame)
            (length frame - 4)) [
              | none ↦ fault buffer_overrun
              | some r ↦ ok (r.messages, if r.bulle then on_path (received_bulle now) i w else w)
            ])

-- The receipt: the messages are dropped where the received NR is not valid.
unfoldable pub acknowledge_on : ℕ → PathId → ℕ → Received → Received
acknowledge_on now i type_byte (messages, w) =
    let (p, accepted) =
      send_rr now (path i w) (pf_of type_byte == 1) (ns_of type_byte) (nr_of type_byte) in
    (if accepted then messages else [], put_path i p w)

unfoldable pub is_output : ProtocolState → Bool
is_output output_connected = true
is_output _ = false

unfoldable pub receive_info : ℕ → PathId → List ℕ → World → Result Received
unfolding extract_on acknowledge_on is_output
receive_info now i frame w =
    if is_output (path i w).protocol_state then ok ([], w) else elim (extract_on now i frame w) [
      | fault e ↦ fault e
      | ok r ↦ ok (acknowledge_on now i (get_or frame 1 0) r)
    ]

unfoldable pub receive_rr : ℕ → PathId → ℕ → World → World
receive_rr now i type_byte w =
    put_path i (received_rr now (path i w) (nr_of type_byte) (pf_of type_byte == 1)).0 w

unfoldable pub is_connection : ProtocolState → Bool
is_connection connection = true
is_connection _ = false

-- The direction that a frame of this type must come from.
unfoldable pub expected_direction : HnzPath → ℕ → ℕ
expected_direction p t =
    (if t == p.codes.ua_code then 1 else 0)
    + (if not (t == p.codes.sarm_code) && not (t == p.codes.ua_code) && not (low_bits t 1 == 0)
        then 1
        else 0)

-- The `switch` over the type of a frame.
unfoldable pub dispatch_frame : ℕ → PathId → List ℕ → ℕ → World → Result Received
unfolding receive_ua receive_sarm receive_info receive_rr is_connection
dispatch_frame now i frame t w =
    if t == (path i w).codes.ua_code
    then ok ([], receive_ua now i w)
    else (if t == (path i w).codes.sarm_code
        then ok ([], receive_sarm now i w)
        else (if is_connection (path i w).protocol_state
            then ok ([], w)
            else (if low_bits t 1 == 0
                then receive_info now i frame w
                else ok ([], receive_rr now i t w))))

unfoldable pub analyze_frame : ℕ → PathId → List ℕ → World → Result Received
unfolding expected_direction dispatch_frame
analyze_frame now i frame w =
    let t = get_or frame 1 0 in
    if (path i w).remote_address == shr (get_or frame 0 0) 2
    then (if low_bits (shr (get_or frame 0 0) 1) 1 == expected_direction (path i w) t
        then dispatch_frame now i frame t w
        else ok ([], w))
    else ok ([], w)

-- The end of `m_manageHNZProtocolState` while SARM are sent. The first part of the result is the
-- time to sleep.
unfoldable pub manage_sarm : ℕ → PathId → World → ℕ × World
unfolding protocol_state_transition send_sarm
manage_sarm now i w =
    let p = path i w in
    if leb now (p.last_msg_time + p.inacc_timeout * 1000)
    then (if ltb now (p.last_sarm_sent_time + p.repeat_timeout)
        then (p.last_sarm_sent_time + p.repeat_timeout - now, w)
        else (let u =
              (if p.nbr_sarm_sent == p.max_sarm
                then protocol_state_transition now i max_sarm_sent w
                else w) in
            (p.repeat_timeout, on_path (send_sarm now) i u)))
    else (1000, protocol_state_transition now i to_recv w)

-- `m_bulle_time * 1000` on 32 bits.
abbrev pub bulle_time_ms : HnzPath → ℕ
bulle_time_ms p = p.bulle_time * 1000 % 2 ^ 32

unfoldable pub is_connected : ProtocolState → Bool
is_connected connected = true
is_connected _ = false

unfoldable pub manage_bulle : ℕ → PathId → World → ℕ × World
unfolding protocol_state_transition send_bulle is_connected
manage_bulle now i w =
    let p = path i w in
    let due = leb (p.last_msg_sent_time + bulle_time_ms p) now in
    let sleep = if due then bulle_time_ms p else p.last_msg_sent_time + bulle_time_ms p - now in
    let u = if due then on_path (send_bulle now) i w else w in
    if ltb ((path i u).last_msg_time + p.inacc_timeout * 1000) now
      && is_connected (path i u).protocol_state
    then (10, protocol_state_transition now i to_recv u)
    else (sleep, u)

unfoldable pub manage_state : ℕ → PathId → ProtocolState → World → ℕ × World
unfolding manage_sarm manage_bulle
manage_state now i connection w = manage_sarm now i w
manage_state now i input_connected w = manage_sarm now i w
manage_state now i connected w = manage_bulle now i w
manage_state now i output_connected w = manage_bulle now i w

-- `m_manageHNZProtocolState`.
unfoldable pub manage_hnz_protocol_state : ℕ → PathId → World → ℕ × World
unfolding manage_state
manage_hnz_protocol_state now i w = manage_state now i (path i w).protocol_state w
