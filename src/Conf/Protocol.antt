-- ===== src/Conf/Protocol.antt =====
-- The import of the protocol stack (`importConfigJson`, `m_importTransportLayer` and
-- `m_importApplicationLayer` of src/hnzconf.cpp).
use fledge_south_hnz.Prelude.{
  ltb, if◌then◌else◌, Bool, true, false, not, ◌&&◌, String, none, some, List, [], ◌∷◌, pos,
}
use fledge_south_hnz.State.Conf.{HnzConf}
use fledge_south_hnz.State.Link.{PathId, path_a, path_b}
use fledge_south_hnz.Conf.Json.{
  Json, Conversions, json_conf_name, default_port, default_inacc_timeout, default_max_sarm,
  default_repeat_path, default_repeat_timeout, default_anticipation_ratio, default_gi_repeat_count,
  default_gi_time, default_c_ack_time, default_cmd_recv_timeout, default_bulle_time,
}
use fledge_south_hnz.Conf.Retrieve.{
  find, check_string, retrieve_uint, retrieve_uint_or, retrieve_string, retrieve_int64_or,
  retrieve_bool_or, retrieve_bulle, retrieve_schedule,
}

-- One `is_complete &= m_retrieve(...)`.
abbrev pub Setting : Type 0
Setting = HnzConf → HnzConf × Bool

-- What stands for a missing object: an error, or nothing.
abbrev pub fails : Setting
fails c = (c, false)

abbrev pub skips : Setting
skips c = (c, true)

-- Settings one after the other: all are made, whether or not one fails.
unfoldable pub import_settings : List Setting → Setting
import_settings [] c = (c, true)
import_settings (s ∷ ss) c =
    let (d, done) = s c in let (e, rest) = import_settings ss d in (e, done && rest)

module _ {V : Type 0} (json : Json V) (v : V) where
  unfoldable pub import_remote_addr : Setting
  unfolding retrieve_uint
  import_remote_addr c =
      let (addr, done) = retrieve_uint json v "remote_station_addr" c.remote_station_addr in
      (record c { remote_station_addr = addr }, done && not (ltb 64 addr))

  unfoldable pub import_numbers : List Setting
  unfolding retrieve_uint_or
  import_numbers =
      (λ c.
        let (x, done) =
          retrieve_uint_or json v "inacc_timeout" c.inacc_timeout default_inacc_timeout in
        (record c { inacc_timeout = x }, done))
      ∷ (λ c.
          let (x, done) = retrieve_uint_or json v "max_sarm" c.max_sarm default_max_sarm in
          (record c { max_sarm = x }, done))
      ∷ (λ c.
          let (x, done) = retrieve_uint_or json v "repeat_path_A" c.repeat_a default_repeat_path in
          (record c { repeat_a = x }, done))
      ∷ (λ c.
          let (x, done) = retrieve_uint_or json v "repeat_path_B" c.repeat_b default_repeat_path in
          (record c { repeat_b = x }, done))
      ∷ (λ c.
          let (x, done) =
            retrieve_uint_or json v "repeat_timeout" c.repeat_timeout default_repeat_timeout in
          (record c { repeat_timeout = x }, done))
      ∷ (λ c.
          let (x, done) =
            retrieve_uint_or json v "anticipation_ratio" c.anticipation_ratio
              default_anticipation_ratio in
          (record c { anticipation_ratio = x }, done))
      ∷ []

  unfoldable pub import_gi_settings : List Setting
  unfolding retrieve_uint_or
  import_gi_settings =
      (λ c.
        let (x, done) =
          retrieve_uint_or json v "gi_repeat_count" c.gi_repeat_count default_gi_repeat_count in
        (record c { gi_repeat_count = x }, done))
      ∷ (λ c.
          let (x, done) = retrieve_uint_or json v "gi_time" c.gi_time default_gi_time in
          (record c { gi_time = x }, done))
      ∷ []

  unfoldable pub import_times : List Setting
  unfolding retrieve_uint_or retrieve_int64_or
  import_times =
      (λ c.
        let (x, done) = retrieve_uint_or json v "c_ack_time" c.c_ack_time default_c_ack_time in
        (record c { c_ack_time = x }, done))
      ∷ (λ c.
          let (x, done) =
            retrieve_int64_or json v "cmd_recv_timeout" c.cmd_recv_timeout
              (pos default_cmd_recv_timeout) in
          (record c { cmd_recv_timeout = x }, done))
      ∷ (λ c.
          let (x, done) = retrieve_uint_or json v "bulle_time" c.bulle_time default_bulle_time in
          (record c { bulle_time = x }, done))
      ∷ []

  -- Two BULLE, and the time of the scheduled GI.
  unfoldable pub import_formats : Conversions → List Setting
  unfolding retrieve_bulle retrieve_schedule
  import_formats conv =
      (λ c.
        let (x, done) = retrieve_bulle json conv v "test_msg_send" c.test_msg_send in
        (record c { test_msg_send = x }, done))
      ∷ (λ c.
          let (x, done) = retrieve_bulle json conv v "test_msg_receive" c.test_msg_receive in
          (record c { test_msg_receive = x }, done))
      ∷ (λ c.
          let (x, done) = retrieve_schedule json conv v "gi_schedule" c.gi_schedule in
          (record c { gi_schedule = x }, done))
      ∷ []

  unfoldable pub import_application_layer : Conversions → Setting
  unfolding import_settings import_remote_addr import_numbers import_formats import_gi_settings
      import_times
  import_application_layer conv c =
      import_settings
        (import_remote_addr
          ∷ import_settings import_numbers
          ∷ import_settings (import_formats conv)
          ∷ import_settings import_gi_settings
          ∷ import_settings import_times
          ∷ [])
        c

  -- One entry of the connections.
  unfoldable pub import_connection : PathId → Setting
  unfolding retrieve_string retrieve_uint_or
  import_connection path_a c =
      let (ip, found) = retrieve_string json v "srv_ip" c.ip_a in
      let (port, done) = retrieve_uint_or json v "port" c.port_a default_port in
      (record c { ip_a = ip; port_a = port }, found && done)
  import_connection path_b c =
      let (ip, found) = retrieve_string json v "srv_ip" c.ip_b in
      let (port, done) = retrieve_uint_or json v "port" c.port_b default_port in
      (record c { ip_b = ip; port_b = port }, found && done)

module _ {V : Type 0} (json : Json V) where
  -- The loop over one or two connections, which is left at an entry that is no object.
  unfoldable pub import_connections : List V → Setting
  unfolding import_connection
  import_connections (x ∷ []) c =
      if json.is_object x then import_connection json x path_a c else (c, false)
  import_connections (x ∷ y ∷ []) c =
      if json.is_object x
      then (let (d, done) = import_connection json x path_a c in
          if json.is_object y
          then (let (e, rest) = import_connection json y path_b d in (e, done && rest))
          else (d, false))
      else (c, false)
  import_connections _ c = (c, false)

  -- Without an array of connections there is no error here.
  unfoldable pub import_transport_layer : V → Setting
  unfolding import_connections
  import_transport_layer transport c = elim (find json json.as_array transport "connections") [
    | none ↦ (c, true)
    | some conns ↦ import_connections conns c
  ]

  abbrev pub found_object : V → String → (V → Setting) → Setting → Setting
  found_object info key found missing c = elim (json.member info key) [
    | none ↦ missing c
    | some x ↦ if json.is_object x then found x c else missing c
  ]

  unfoldable pub import_application : Conversions → V → Setting
  unfolding import_application_layer retrieve_bool_or
  import_application conv app c =
      let (d, done) = import_application_layer json app conv c in
      (record d { use_utc = (retrieve_bool_or json app "modulo_use_utc" d.use_utc false).0 }, done)

  unfoldable pub import_south_monitoring : V → Setting
  unfolding check_string retrieve_string
  import_south_monitoring south c =
      if check_string json south "asset"
      then (let (asset, done) = retrieve_string json south "asset" c.connx_status in
          (record c { connx_status = asset }, done))
      else (c, true)

  unfoldable pub stack_settings : Conversions → V → List Setting
  unfolding check_string import_transport_layer import_application import_south_monitoring
  stack_settings conv info =
      (λ c. (c, check_string json info "name" && check_string json info "version"))
      ∷ found_object info "transport_layer" import_transport_layer fails
      ∷ found_object info "application_layer" (import_application conv) fails
      ∷ found_object info "south_monitoring" import_south_monitoring skips
      ∷ []

  unfoldable pub import_protocol_stack : Conversions → V → HnzConf → HnzConf
  unfolding stack_settings import_settings
  import_protocol_stack conv info c =
      let (d, done) = import_settings (stack_settings conv info) c in
      record d { config_is_complete = done }

  -- `importConfigJson`.
  unfoldable pub import_config_json : Conversions → String → HnzConf → HnzConf
  unfolding import_protocol_stack
  import_config_json conv text conf =
      let c : HnzConf = record conf { config_is_complete = false } in
      elim (json.parse text) [
        | none ↦ c
        | some document ↦
            if json.is_object document
            then elim (json.member document json_conf_name) [
              | none ↦ c
              | some info ↦ if json.is_object info then import_protocol_stack conv info c else c
            ]
            else c
      ]
