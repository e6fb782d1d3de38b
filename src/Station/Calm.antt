-- ===== src/Station/Calm.antt =====
-- The messages of the station and the operations from Fledge (src/hnz.cpp), by what they change of
-- the parts of the state that the invariant of the two paths reads.
use fledge_south_hnz.Prelude.{
  ℕ, ◌==◌, ◌&&◌, ◌||◌, ◌≡◌, refl, Bool, true, false, List, [], ◌∷◌, ◌++◌, map, is_empty, Option,
  none, some, String, str_eq, ℤ, if◌then◌else◌, Ensures-if, if-both, option-when, ◌≡◌, arith,
}
use fledge_south_hnz.State.Clock.{Clock}
use fledge_south_hnz.State.Conf.{is_ts_address_cg_triggering}
use fledge_south_hnz.State.Link.{PathId}
use fledge_south_hnz.State.Station.{World, Hnz, path, GiStatus, in_progress, Reading}
use fledge_south_hnz.Path.Commands.{received_command_ack}
use fledge_south_hnz.Station.Monitor.{
  send_to_fledge, same_gi, update_gi_status, send_south_monitoring_event, ingest,
}
use fledge_south_hnz.Station.Telemetry.{
  byte, bit, split_address, tsce_parameters, tscg_parameters, atvc_address,
}
use fledge_south_hnz.Station.Handle.{
  set_day_section, acknowledge_command, unset_section, gi_running, request_gi, trigger_gi,
  handle_tsce, handle_tscg, handle_by_type, is_gi_complete, handle_message, handle_messages,
}
use fledge_south_hnz.Station.Operation.{
  Parameters, command_param, byte_of, CommandResult, syntax_error, network_issue, send_command,
  process_command_operation, north_status, operation,
}
use fledge_south_hnz.Link.Gi.{check_gi_completed}
use fledge_south_hnz.Link.Steady.{
  Steady, view-Steady, Steady-refl, send_tc_command-Steady, send_tvc_command-Steady,
}
use fledge_south_hnz.Link.Quiet.{Quiet, Quiet-refl, Quiet-trans, put_path-Quiet, hnz-Quiet}
use fledge_south_hnz.Link.Report.{report-update_gi_status, report-send_to_fledge, report}
use fledge_south_hnz.Link.Calm.{
  active-busy, send_general_interrogation-Quiet, Calm, Calm-after, Calm->>=,
  check_gi_completed-Calm,
}

request_gi-Quiet :
    (now : ℕ) (i : PathId) (w : World) → w.conn.active_path ≡ some i → Quiet w (request_gi now i w)
unfolding request_gi
request_gi-Quiet now i w e =
    if-both (Quiet w) (gi_running w.hnz.gi_status) _ _
      (hnz-Quiet w (record (w.hnz) { gi_in_queue = true }) refl)
      (send_general_interrogation-Quiet now i w (active-busy w i e))

trigger_gi-Quiet : (now : ℕ) (bytes : List ℕ) (w : World) → Quiet w (trigger_gi now bytes w)
unfolding trigger_gi
trigger_gi-Quiet now bytes w =
    elim (is_ts_address_cg_triggering w.hnz.conf (split_address bytes))
      as (λ o. Quiet w (elim o [
        | none ↦ w
        | some v ↦
            if bit (byte bytes 2) 3 == v
            then elim w.conn.active_path [ none ↦ w | some i ↦ request_gi now i w ]
            else w
      ])) [
        | none ↦ Quiet-refl w
        | some v ↦
            if-both (Quiet w) (bit (byte bytes 2) 3 == v) _ _
              (option-when (Quiet w) w.conn.active_path w _ (Quiet-refl w)
                (λ i e. request_gi-Quiet now i w e))
              (Quiet-refl w)
      ]

handle_tsce-Quiet :
    (clock : Clock) (bytes : List ℕ) (w : World) → Quiet w (handle_tsce clock bytes w).1
unfolding handle_tsce
handle_tsce-Quiet clock bytes w =
    if-both (Quiet w)
      (is_empty (tsce_parameters w.hnz.conf clock w.hnz.day_section (unset_section w) bytes)) _ _
      (Quiet-refl w) (trigger_gi-Quiet clock.now bytes w)

handle_tscg-Quiet : (bytes : List ℕ) (w : World) → Quiet w (handle_tscg bytes w).1
unfolding handle_tscg
handle_tscg-Quiet bytes w =
    let h : Hnz = record (w.hnz) {
      gi_addresses_received =
          w.hnz.gi_addresses_received
          ++ map (λ p. p.msg_address) (tscg_parameters w.hnz.conf bytes);
    } in
    hnz-Quiet w _ (
      if-both (λ k. report k ≡ report w.hnz) (same_gi w.hnz.gi_status GiStatus.started)
        (update_gi_status in_progress h) h (report-update_gi_status in_progress h) refl)

acknowledge_command-Quiet :
    (kind : String) (addr : ℕ) (w : World) → Quiet w (acknowledge_command kind addr w)
unfolding acknowledge_command received_command_ack
acknowledge_command-Quiet kind addr w = record {
  on_a = if-both (Steady w.a) w.a.created _ _ (view-Steady refl) (Steady-refl w.a);
  on_b = if-both (Steady w.b) w.b.created _ _ (view-Steady refl) (Steady-refl w.b);
  active = refl;
  first = refl;
  running = refl;
  reported = refl;
  asks = λ r e. e;
}

-- What a handler returns beside readings.
abbrev Leaves : World → List Reading × World → Type 0
Leaves w r = Quiet w r.1

pub handle_by_type-Quiet :
    (clock : Clock) (bytes : List ℕ) (w : World) → Quiet w (handle_by_type clock bytes w).1
unfolding handle_by_type set_day_section
handle_by_type-Quiet clock bytes w =
    let t : ℕ = byte bytes 0 in
    if-both (Leaves w) (t == w.hnz.conf.codes.modulo_code) _ _
      (hnz-Quiet w (record (w.hnz) { day_section = byte bytes 1 }) refl)
      (if-both (Leaves w) (t == w.hnz.conf.codes.tm4_code) _ _ (Quiet-refl w) (
        if-both (Leaves w) (t == w.hnz.conf.codes.tsce_code) _ _ (handle_tsce-Quiet clock bytes w) (
          if-both (Leaves w) (t == w.hnz.conf.codes.tscg_code) _ _ (handle_tscg-Quiet bytes w) (
            if-both (Leaves w) (t == w.hnz.conf.codes.tmn_code) _ _ (Quiet-refl w) (
              if-both (Leaves w) (t == w.hnz.conf.codes.tcack_code) _ _
                (acknowledge_command-Quiet "TC" (split_address bytes) w)
                (if-both (Leaves w) (t == w.hnz.conf.codes.tvcack_code) _ _
                  (acknowledge_command-Quiet "TVC" (atvc_address bytes) w) (Quiet-refl w)))))))

pub handle_message-Calm :
    (clock : Clock) (bytes : List ℕ) (w : World) → Calm w (handle_message clock bytes w)
unfolding handle_message
handle_message-Calm clock bytes w =
    let r : List Reading × World = handle_by_type clock bytes w in
    let u : World = r.1 in
    let h : Hnz = send_to_fledge u.hnz r.0 in
    let v : World = record u { hnz = h } in
    let q : Quiet w v =
      Quiet-trans (handle_by_type-Quiet clock bytes w)
        (hnz-Quiet u h (report-send_to_fledge u.hnz r.0)) in
    Ensures-if (Quiet w) (byte bytes 0 == w.hnz.conf.codes.tscg_code && is_gi_complete h) _ _
      (Calm-after (check_gi_completed clock.now true v) q
        (check_gi_completed-Calm clock.now true v))
      q

pub handle_messages-Calm :
    (clock : Clock) (ms : List (List ℕ)) (w : World) → Calm w (handle_messages clock ms w)
unfolding handle_messages
handle_messages-Calm clock [] w = Quiet-refl w
handle_messages-Calm clock (m ∷ ms) w =
    Calm->>= w (handle_message clock m w) (handle_messages clock ms) (handle_message-Calm clock m w)
      (handle_messages-Calm clock ms)

-- What an operation returns beside its answer.
abbrev Answers {ℓ} : {A : Type ℓ} → World → World × A → Type 0
Answers w r = Quiet w r.0

send_command-Quiet :
    (now : ℕ) (kind : String) (address value : ℤ) (i : PathId) (w : World)
    → Quiet w (send_command now kind address value i w).0
unfolding send_command
send_command-Quiet now kind address value i w =
    if-both (Answers w) (str_eq kind "TC") _ _
      (put_path-Quiet i _ w (send_tc_command-Steady now (path i w) address (byte_of value)))
      (if-both (Answers w) (str_eq kind "TVC") _ (w, syntax_error)
        (put_path-Quiet i _ w (send_tvc_command-Steady now (path i w) (byte_of address) value))
        (Quiet-refl w))

process_command_operation-Quiet :
    (stoi : String → Option ℤ) (now : ℕ) (params : Parameters) (w : World)
    → Quiet w (process_command_operation stoi now params w).0
unfolding process_command_operation
process_command_operation-Quiet stoi now params w =
    let kind : String = command_param "co_type" "" params in
    let addr_str : String = command_param "co_addr" "" params in
    let val_str : String = command_param "co_value" "" params in
    if-both (Answers w) (str_eq kind "" || (str_eq addr_str "" || str_eq val_str ""))
      (w, syntax_error) _ (Quiet-refl w)
      (elim (stoi addr_str)
        as (λ x. Answers {A = CommandResult} w (elim x [
          | none ↦ (w, syntax_error)
          | some address ↦ elim (stoi val_str) [
            | none ↦ (w, syntax_error)
            | some value ↦ elim w.conn.active_path [
              | none ↦ (w, network_issue)
              | some i ↦ send_command now kind address value i w
            ]
          ]
        ])) [
          | none ↦ Quiet-refl w
          | some address ↦
              elim (stoi val_str)
                as (λ y. Answers {A = CommandResult} w (elim y [
                  | none ↦ (w, syntax_error)
                  | some value ↦ elim w.conn.active_path [
                    | none ↦ (w, network_issue)
                    | some i ↦ send_command now kind address value i w
                  ]
                ])) [
                  | none ↦ Quiet-refl w
                  | some value ↦
                      elim w.conn.active_path
                        as (λ o. Answers {A = CommandResult} w (elim o [
                          | none ↦ (w, network_issue)
                          | some i ↦ send_command now kind address value i w
                        ])) [
                          | none ↦ Quiet-refl w
                          | some i ↦ send_command-Quiet now kind address value i w
                        ]
                ]
        ])

north_status-Quiet :
    (now : ℕ) (params : Parameters) (w : World) → Quiet w (north_status now params w).0
unfolding north_status
north_status-Quiet now [] w = Quiet-refl w
north_status-Quiet now ((name, value) ∷ []) w =
    if-both (Answers w) (str_eq value "init_socket_finished") _ (w, false)
      (option-when (Answers {A = Bool} w) w.conn.active_path (w, false) _ (Quiet-refl w)
        (λ i e. request_gi-Quiet now i w e))
      (Quiet-refl w)
north_status-Quiet now (x ∷ y ∷ rest) w = Quiet-refl w

pub operation-Quiet :
    (stoi : String → Option ℤ) (now : ℕ) (name : String) (params : Parameters) (w : World)
    → Quiet w (operation stoi now name params w).0
unfolding operation send_south_monitoring_event ingest
operation-Quiet stoi now name params w =
    if-both (Answers w) (str_eq name "HNZCommand") _ _
      (process_command_operation-Quiet stoi now params w)
      (if-both (Answers w) (str_eq name "request_connection_status") _ _
        (hnz-Quiet w (send_south_monitoring_event w.hnz true true) (ground arith))
        (if-both (Answers w) (str_eq name "north_status") _ (w, false)
          (north_status-Quiet now params w) (Quiet-refl w)))
