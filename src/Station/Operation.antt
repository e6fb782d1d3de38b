-- ===== src/Station/Operation.antt =====
-- Commands and requests from Fledge (`operation`, `processCommandOperation`, src/hnz.cpp). `stoi` is
-- a parameter: it gives an `int`, or none for the two exceptions that are caught.
use fledge_south_hnz.Prelude.{
  ℕ, ◌-◌, ◌%◌, if◌then◌else◌, Bool, true, false, ◌||◌, String, str_eq, Option, none, some, List, [],
  ◌∷◌, ℤ, pos, negsuc,
}
use fledge_south_hnz.State.Link.{PathId}
use fledge_south_hnz.State.Station.{World, path, put_path}
use fledge_south_hnz.Path.Commands.{send_tc_command, send_tvc_command}
use fledge_south_hnz.Station.Monitor.{send_south_monitoring_event}
use fledge_south_hnz.Station.Handle.{request_gi}

-- PLUGIN_PARAMETER: a name and a value.
abbrev pub Parameters : Type 0
Parameters = List (String × String)

-- The value of the last parameter of that name, or the empty text that the map starts with.
unfoldable pub command_param : String → String → Parameters → String
command_param name value [] = value
command_param name value ((n, v) ∷ rest) =
    command_param name (if str_eq n name then v else value) rest

-- A conversion to `unsigned char`.
abbrev pub byte_of : ℤ → ℕ
byte_of (pos n) = n % 256
byte_of (negsuc n) = (255 - n % 256) % 256

-- What the operation returns: 0, 1 (syntax error) and 2 (network issue).
pub data CommandResult : Type 0 where
  sent syntax_error network_issue : CommandResult

unfoldable pub command_result : Bool → CommandResult
command_result true = sent
command_result false = network_issue

-- The command on the active path.
unfoldable pub send_command : ℕ → String → ℤ → ℤ → PathId → World → World × CommandResult
unfolding command_result send_tc_command send_tvc_command
send_command now kind address value i w =
    if str_eq kind "TC"
    then (let (p, success) = send_tc_command now (path i w) address (byte_of value) in
        (put_path i p w, command_result success))
    else (if str_eq kind "TVC"
        then (let (p, success) = send_tvc_command now (path i w) (byte_of address) value in
            (put_path i p w, command_result success))
        else (w, syntax_error))

unfoldable pub process_command_operation :
    (String → Option ℤ) → ℕ → Parameters → World → World × CommandResult
unfolding command_param send_command
process_command_operation stoi now params w =
    let kind = command_param "co_type" "" params in
    let addr_str = command_param "co_addr" "" params in
    let val_str = command_param "co_value" "" params in
    if str_eq kind "" || (str_eq addr_str "" || str_eq val_str "")
    then (w, syntax_error)
    else elim (stoi addr_str) [
      | none ↦ (w, syntax_error)
      | some address ↦ elim (stoi val_str) [
        | none ↦ (w, syntax_error)
        | some value ↦ elim w.conn.active_path [
          | none ↦ (w, network_issue)
          | some i ↦ send_command now kind address value i w
        ]
      ]
    ]

unfoldable pub is_sent : CommandResult → Bool
is_sent sent = true
is_sent _ = false

-- The request of the north service, once its socket is ready.
unfoldable pub north_status : ℕ → Parameters → World → World × Bool
unfolding request_gi
north_status now ((name, value) ∷ []) w =
    if str_eq value "init_socket_finished"
    then elim w.conn.active_path [ none ↦ (w, false) | some i ↦ (request_gi now i w, true) ]
    else (w, false)
north_status now _ w = (w, false)

unfoldable pub operation : (String → Option ℤ) → ℕ → String → Parameters → World → World × Bool
unfolding process_command_operation is_sent north_status
operation stoi now name params w =
    if str_eq name "HNZCommand"
    then (let (u, r) = process_command_operation stoi now params w in (u, is_sent r))
    else (if str_eq name "request_connection_status"
        then (record w { hnz = send_south_monitoring_event w.hnz true true }, true)
        else (if str_eq name "north_status" then north_status now params w else (w, false)))
