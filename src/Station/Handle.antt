-- ===== src/Station/Handle.antt =====
-- Messages of the station at HNZ (`m_handle_message` and the handlers, src/hnz.cpp): the readings
-- they give, acknowledged commands, and the end of a general interrogation.
use fledge_south_hnz.Prelude.{
  ℕ, ◌==◌, if◌then◌else◌, Bool, true, false, ◌&&◌, String, Option, none, some, List, [], ◌∷◌, ◌++◌,
  map, is_empty, Result, ok, ◌>>=◌,
}
use fledge_south_hnz.State.Clock.{Clock}
use fledge_south_hnz.State.Conf.{is_ts_address_cg_triggering}
use fledge_south_hnz.State.Link.{PathId, ProtocolState, input_connected}
use fledge_south_hnz.State.Station.{World, path, GiStatus, in_progress, Reading, Hnz}
use fledge_south_hnz.Path.Commands.{received_command_ack}
use fledge_south_hnz.Station.Monitor.{send_to_fledge, same_gi, update_gi_status}
use fledge_south_hnz.Station.Reading.{ReadingParameters, prepare_reading}
use fledge_south_hnz.Station.Telemetry.{
  byte, bit, split_address, tm4_parameters, tsce_parameters, tscg_parameters, tmn_parameters,
  atvc_address, atvc_parameters, atc_parameters,
}
use fledge_south_hnz.Link.Gi.{send_general_interrogation, check_gi_completed}

abbrev pub readings_of : List ReadingParameters → List Reading
readings_of = map prepare_reading

unfoldable pub set_day_section : ℕ → World → World
set_day_section section w = record w { hnz = record (w.hnz) { day_section = section } }

-- `m_handleATC` and `m_handleATVC` acknowledge on every path that is set.
unfoldable pub acknowledge_command : String → ℕ → World → World
acknowledge_command kind addr w = record w {
  a = if w.a.created then received_command_ack w.a kind addr else w.a;
  b = if w.b.created then received_command_ack w.b kind addr else w.b;
}

abbrev pub is_input : ProtocolState → Bool
is_input input_connected = true
is_input _ = false

-- While the active path has only its input connected, the section of the day may not be set.
unfoldable pub unset_section : World → Bool
unset_section w = elim w.conn.active_path [
  | none ↦ false
  | some i ↦ is_input (path i w).protocol_state
]

unfoldable pub gi_running : GiStatus → Bool
gi_running GiStatus.started = true
gi_running in_progress = true
gi_running _ = false

-- A new GI now, or after the one that is running.
unfoldable pub request_gi : ℕ → PathId → World → World
unfolding gi_running send_general_interrogation
request_gi now i w =
    if gi_running w.hnz.gi_status
    then record w { hnz = record (w.hnz) { gi_in_queue = true } }
    else send_general_interrogation now i w

-- A TSCE of a configured address at its triggering value asks for a GI.
unfoldable pub trigger_gi : ℕ → List ℕ → World → World
unfolding request_gi
trigger_gi now bytes w = elim (is_ts_address_cg_triggering w.hnz.conf (split_address bytes)) [
  | none ↦ w
  | some v ↦
      if bit (byte bytes 2) 3 == v
      then elim w.conn.active_path [ none ↦ w | some i ↦ request_gi now i w ]
      else w
]

unfoldable pub handle_tsce : Clock → List ℕ → World → List Reading × World
unfolding unset_section trigger_gi
handle_tsce clock bytes w =
    let ps = tsce_parameters w.hnz.conf clock w.hnz.day_section (unset_section w) bytes in
    (readings_of ps, if is_empty ps then w else trigger_gi clock.now bytes w)

unfoldable pub handle_tscg : List ℕ → World → List Reading × World
unfolding same_gi
handle_tscg bytes w =
    let ps = tscg_parameters w.hnz.conf bytes in
    let h = record (w.hnz) {
      gi_addresses_received = w.hnz.gi_addresses_received ++ map (λ p. p.msg_address) ps;
    } in
    (
      readings_of ps,
      record w {
        hnz = if same_gi h.gi_status GiStatus.started then update_gi_status in_progress h else h;
      },
    )

-- The `switch` over the type of a message.
unfoldable pub handle_by_type : Clock → List ℕ → World → List Reading × World
unfolding set_day_section acknowledge_command handle_tsce handle_tscg
handle_by_type clock bytes w =
    let t = byte bytes 0 in
    let c = w.hnz.conf.codes in
    if t == c.modulo_code
    then ([], set_day_section (byte bytes 1) w)
    else (if t == c.tm4_code
        then (readings_of (tm4_parameters w.hnz.conf bytes), w)
        else (if t == c.tsce_code
            then handle_tsce clock bytes w
            else (if t == c.tscg_code
                then handle_tscg bytes w
                else (if t == c.tmn_code
                    then (readings_of (tmn_parameters w.hnz.conf bytes), w)
                    else (if t == c.tcack_code
                        then (
                          readings_of (atc_parameters w.hnz.conf bytes),
                          acknowledge_command "TC" (split_address bytes) w,
                        )
                        else (if t == c.tvcack_code
                            then (
                              readings_of (atvc_parameters w.hnz.conf bytes),
                              acknowledge_command "TVC" (atvc_address bytes) w,
                            )
                            else ([], w)))))))

-- `back()` of the received addresses.
unfoldable pub last_of : List ℕ → Option ℕ
last_of [] = none
last_of (x ∷ []) = some x
last_of (x ∷ y ∷ r) = last_of (y ∷ r)

-- Was the last expected TS received?
unfoldable pub is_gi_complete : Hnz → Bool
unfolding last_of
is_gi_complete h = elim (last_of h.gi_addresses_received) [
  | none ↦ false
  | some x ↦ x == h.conf.last_ts_addr
]

-- `m_handle_message`: the readings go out before the end of a GI is looked for.
unfoldable pub handle_message : Clock → List ℕ → World → Result World
unfolding handle_by_type is_gi_complete
handle_message clock bytes w =
    let (readings, u) = handle_by_type clock bytes w in
    let v = record u { hnz = send_to_fledge u.hnz readings } in
    if byte bytes 0 == w.hnz.conf.codes.tscg_code && is_gi_complete v.hnz
    then check_gi_completed clock.now true v
    else ok v

-- The messages of one frame, in order (`HNZ::receive`).
unfoldable pub handle_messages : Clock → List (List ℕ) → World → Result World
unfolding handle_message
handle_messages clock [] w = ok w
handle_messages clock (m ∷ ms) w = handle_message clock m w >>= handle_messages clock ms
