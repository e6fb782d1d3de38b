-- ===== src/Plugin.antt =====
-- The life of the plugin (`start`, `stop`, `reconfigure`, `setJsonConfig` and the destructor of
-- src/hnz.cpp) around a `World`.
pub mod Entry
pub mod Audits
pub mod Invariant
pub mod Reporting
pub mod Renewal
pub mod Life
pub mod Promises
pub mod Rounds
pub mod Exceptions
pub mod Faults
mod Tests
use fledge_south_hnz.Prelude.{
  ℕ, if◌then◌else◌, Bool, true, false, not, ◌&&◌, ◌||◌, String, str_eq, Option, none, some, List,
  [], ◌∷◌, ℤ, Result, ok, fault, null_pointer, ◌>>=◌,
}
use fledge_south_hnz.State.Conf.{Codes, HnzConf, new_conf, is_complete}
use fledge_south_hnz.State.Link.{PathId, path_a, path_b}
use fledge_south_hnz.State.Station.{World, Hnz, not_connected, idle, path_unused, service_fail}
use fledge_south_hnz.Conf.Json.{Json, Conversions}
use fledge_south_hnz.Conf.Protocol.{import_config_json}
use fledge_south_hnz.Conf.Exchange.{import_exchanged_data_json}
use fledge_south_hnz.Link.Create.{declared_link, create_connection, add_audit}
use fledge_south_hnz.Link.Timers.{stop_connection}
use fledge_south_hnz.Station.Monitor.{register_ingest}
use fledge_south_hnz.Station.Reading.{send_all_tm_quality_readings, send_all_ts_quality_readings}
use fledge_south_hnz.Station.Operation.{Parameters, command_param, operation}
use fledge_south_hnz.System.{Event, step}

-- The object HNZ. `has_connection` tells whether `m_hnz_connection` is set; without it the paths and
-- the connection of the world are those of no object.
pub record Plugin : Type 0 where
  pub world : World
  pub is_running : Bool
  pub should_run : Bool
  pub has_connection : Bool
  pub service_name : String

-- What `reconfigure` reads of a ConfigCategory: the two items, where they exist, and the name.
pub record Category : Type 0 where
  pub protocol_stack : Option String
  pub exchanged_data : Option String
  pub name : String

unfoldable pub new_hnz : Codes → Hnz
unfolding new_conf
new_hnz codes = record {
  conf = new_conf codes;
  gi_addresses_received = [];
  has_ingest = false;
  day_section = 0;
  conn_status = not_connected;
  gi_status = idle;
  gi_in_queue = false;
  quality_update_timer = 0;
  quality_update_timeout_ms = 500;
  ingested = [];
  audits = [];
}

-- A new HNZ, in a world without connection.
unfoldable pub new_plugin : Codes → World → Plugin
unfolding new_hnz declared_link
new_plugin codes w = record {
  world = declared_link (new_conf codes) (record w { hnz = new_hnz codes });
  is_running = false;
  should_run = false;
  has_connection = false;
  service_name = "";
}

-- The start of a plugin with a complete configuration. The threads of the paths and of the
-- connection are the events of `works`.
unfoldable pub launch : ℕ → Plugin → Result Plugin
unfolding send_all_tm_quality_readings send_all_ts_quality_readings
launch now p = do
  h ← send_all_tm_quality_readings true false [] p.world.hnz
  k ← send_all_ts_quality_readings now true false [] h
  (if p.has_connection
      then ok (record p { world = record (p.world) { hnz = k }; is_running = true })
      else fault null_pointer)

unfoldable pub start : ℕ → Bool → Plugin → Result Plugin
unfolding launch
start now requested p =
    let q : Plugin = record p { should_run = requested || p.should_run } in
    if q.is_running then ok q else (if is_complete q.world.hnz.conf then launch now q else ok q)

unfoldable pub stop : ℕ → Bool → Plugin → Plugin
unfolding stop_connection
stop now requested p = record p {
  world = if p.has_connection then stop_connection now p.world else p.world;
  is_running = false;
  should_run = if requested then false else p.should_run;
  has_connection = false;
}

-- The destructor, which `plugin_shutdown` calls.
unfoldable pub shutdown : ℕ → Plugin → Plugin
unfolding stop
shutdown now p = if p.is_running then stop now true p else p

unfoldable pub set_conf : HnzConf → World → World
set_conf c w = record w { hnz = record (w.hnz) { conf = c } }

-- With a complete configuration: the connection, which runs where an address is configured, and
-- the start that was asked for before.
unfoldable pub connect_plugin : ℕ → Plugin → Result (Plugin × Bool)
unfolding create_connection start
connect_plugin now p =
    let q : Plugin = record p {
      world = create_connection now p.world.hnz.conf p.world;
      has_connection = true;
    } in
    if not q.world.conn.is_running
    then ok (q, false)
    else (if q.should_run then (start now false q >>= λ r. ok (r, true)) else ok (q, true))

-- The stop before a change of the configuration.
unfoldable pub stop_running : ℕ → Plugin → Plugin
unfolding stop
stop_running now p = if p.is_running then stop now false p else p

unfoldable pub take_conf : HnzConf → String → Plugin → Plugin
unfolding set_conf
take_conf conf service p = record p {
  service_name = if str_eq service "" then p.service_name else service;
  world = set_conf conf p.world;
}

abbrev pub item : Option String → String
item none = ""
item (some s) = s

-- The audits of all connection states, after a configuration that was refused.
unfoldable pub refuse : Plugin → Plugin
unfolding add_audit
refuse p = record p {
  world =
      add_audit service_fail
        (add_audit (path_unused path_b) (add_audit (path_unused path_a) p.world));
}

module _ {V : Type 0} (json : Json V) (conv : Conversions) where
  -- A new configuration from the texts that are not empty.
  unfoldable pub read_conf : Codes → String → String → HnzConf
  unfolding new_conf import_config_json import_exchanged_data_json
  read_conf codes protocol msgs =
      let c = new_conf codes in
      let d = if str_eq protocol "" then c else import_config_json json conv protocol c in
      if str_eq msgs "" then d else import_exchanged_data_json json conv msgs d

  unfoldable pub set_json_config : ℕ → String → String → String → Plugin → Result (Plugin × Bool)
  unfolding stop_running read_conf take_conf connect_plugin
  set_json_config now protocol msgs service p =
      let q = stop_running now p in
      let conf = read_conf q.world.hnz.conf.codes protocol msgs in
      let r = take_conf conf service q in
      if str_eq protocol "" && (str_eq msgs "" && str_eq service "")
      then ok (p, true)
      else (if is_complete conf then connect_plugin now r else ok (r, false))

  unfoldable pub reconfigure : ℕ → Category → Plugin → Result Plugin
  unfolding set_json_config refuse
  reconfigure now config p = do
    (q, success) ←
        set_json_config now (item config.protocol_stack) (item config.exchanged_data) config.name p
    ok (if success then q else refuse q)

-- Whether an operation gets as far as `m_hnz_connection->getActivePath()`.
unfoldable pub needs_connection : (String → Option ℤ) → String → Parameters → Bool
unfolding command_param
needs_connection stoi name params =
    if str_eq name "HNZCommand"
    then command_reaches (command_param "co_type" "" params) (command_param "co_addr" "" params)
        (command_param "co_value" "" params)
    else str_eq name "north_status" && asks_init params
  where
    both : Option ℤ → Option ℤ → Bool
    both (some a) (some v) = true
    both _ _ = false

    command_reaches : String → String → String → Bool
    command_reaches kind addr value =
        not (str_eq kind "" || (str_eq addr "" || str_eq value "")) && both (stoi addr) (stoi value)

    asks_init : Parameters → Bool
    asks_init ((n, v) ∷ []) = str_eq v "init_socket_finished"
    asks_init _ = false

-- An operation on the object.
unfoldable pub operate :
    (String → Option ℤ) → ℕ → String → Parameters → Plugin → Result (Plugin × Bool)
unfolding needs_connection operation
operate stoi now name params p =
    if not p.has_connection && needs_connection stoi name params
    then fault null_pointer
    else (let (w, done) = operation stoi now name params p.world in
        ok (record p { world = w }, done))
