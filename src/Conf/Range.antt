-- ===== src/Conf/Range.antt =====
-- The ranges of the settings after an import of the protocol stack (src/hnzconf.cpp).
use fledge_south_hnz.Prelude.{
  ◌≤◌, ◌≡◌, ltb, ltb-false→le, true, false, not, ◌&&◌, and-true, not-true, String, [], ◌∷◌,
}
use fledge_south_hnz.State.Conf.{HnzConf}
use fledge_south_hnz.State.Link.{PathId, path_a, path_b}
use fledge_south_hnz.Conf.Json.{Json, Conversions}
use fledge_south_hnz.Conf.Bounds.{InRange, bulle_member-IsBytes, schedule_member-IsSchedule}
use fledge_south_hnz.Conf.Retrieve.{check_string, retrieve_uint, retrieve_bulle, retrieve_schedule}
use fledge_south_hnz.Conf.Protocol.{
  fails, skips, Setting, import_settings, import_remote_addr, import_numbers, import_gi_settings,
  import_times, import_formats, import_application_layer, import_connection, import_transport_layer,
  found_object, stack_settings, import_application, import_south_monitoring, import_protocol_stack,
  import_config_json,
}
use fledge_south_hnz.Conf.Settings.{
  Keeps, Makes, import_settings-Keeps, import_settings-Makes, import_settings-Makes_later,
  import_transport_layer-Keeps, found_object-Keeps, found_object-Makes,
  import_south_monitoring-Keeps, import_config_json-either,
}

abbrev pub AddressFits : HnzConf → Type 0
AddressFits c = c.remote_station_addr ≤ 64

module _ {V : Type 0} (json : Json V) (conv : Conversions) where
  import_formats-InRange : (v : V) → Keeps InRange (import_settings (import_formats json v conv))
  unfolding import_formats retrieve_bulle retrieve_schedule
  import_formats-InRange v = import_settings-Keeps InRange (import_formats json v conv) (
    (λ c p. (
      p.0,
      (bulle_member-IsBytes json conv (json.member v "test_msg_send") c.test_msg_send p.1.0, p.1.1),
    )),
    (
      (λ c p. (
        p.0,
        (
          p.1.0,
          bulle_member-IsBytes json conv (json.member v "test_msg_receive") c.test_msg_receive
              p.1.1,
        ),
      )),
      (
        (λ c p. (
          schedule_member-IsSchedule json conv (json.member v "gi_schedule") c.gi_schedule p.0,
          p.1,
        )),
        tt,
      ),
    ),
  )

  -- Of a predicate that only the address or the formats matter for.
  import_numbers-Keeps : (v : V) → Keeps InRange (import_settings (import_numbers json v))
  unfolding import_numbers import_settings
  import_numbers-Keeps v c p = p

  import_gi_settings-Keeps : (v : V) → Keeps InRange (import_settings (import_gi_settings json v))
  unfolding import_gi_settings import_settings
  import_gi_settings-Keeps v c p = p

  import_times-Keeps : (v : V) → Keeps InRange (import_settings (import_times json v))
  unfolding import_times import_settings
  import_times-Keeps v c p = p

  import_remote_addr-Keeps : (v : V) → Keeps InRange (import_remote_addr json v)
  unfolding import_remote_addr
  import_remote_addr-Keeps v c p = p

  import_application_layer-InRange : (v : V) → Keeps InRange (import_application_layer json v conv)
  unfolding import_application_layer
  import_application_layer-InRange v =
      import_settings-Keeps InRange
        (import_remote_addr json v
          ∷ import_settings (import_numbers json v)
          ∷ import_settings (import_formats json v conv)
          ∷ import_settings (import_gi_settings json v)
          ∷ import_settings (import_times json v)
          ∷ [])
        (
          import_remote_addr-Keeps v,
          (
            import_numbers-Keeps v,
            (import_formats-InRange v, (import_gi_settings-Keeps v, (import_times-Keeps v, tt))),
          ),
        )

  import_application-InRange : (x : V) → Keeps InRange (import_application json conv x)
  unfolding import_application
  import_application-InRange x c p = import_application_layer-InRange x c p

  -- The address comes first, and what follows keeps it.
  import_application-AddressFits : (x : V) → Makes AddressFits (import_application json conv x)
  unfolding import_application import_application_layer import_remote_addr import_settings
      import_numbers import_formats import_gi_settings import_times
  import_application-AddressFits x c e =
      let addr = (retrieve_uint json x "remote_station_addr" c.remote_station_addr).0 in
      let fits = (and-true _ (not (ltb 64 addr)) (and-true _ _ e).0).1 in
      ltb-false→le 64 addr (not-true _ fits)

  import_connection-InRange : (x : V) (i : PathId) → Keeps InRange (import_connection json x i)
  unfolding import_connection
  import_connection-InRange x path_a c p = p
  import_connection-InRange x path_b c p = p

  import_connection-AddressFits :
      (x : V) (i : PathId) → Keeps AddressFits (import_connection json x i)
  unfolding import_connection
  import_connection-AddressFits x path_a c p = p
  import_connection-AddressFits x path_b c p = p

  stack_settings-InRange : (x : V) → Keeps InRange (import_settings (stack_settings json conv x))
  unfolding stack_settings
  stack_settings-InRange x = import_settings-Keeps InRange (stack_settings json conv x) (
    (λ c p. p),
    (
      found_object-Keeps json conv InRange x "transport_layer" (import_transport_layer json) fails
          (import_transport_layer-Keeps json conv InRange import_connection-InRange) (λ c p. p),
      (
        found_object-Keeps json conv InRange x "application_layer" (import_application json conv)
            fails import_application-InRange (λ c p. p),
        (
          found_object-Keeps json conv InRange x "south_monitoring" (import_south_monitoring json)
              skips (import_south_monitoring-Keeps json conv InRange (λ c asset p. p)) (λ c p. p),
          tt,
        ),
      ),
    ),
  )

  stack_settings-AddressFits :
      (x : V) → Makes AddressFits (import_settings (stack_settings json conv x))
  unfolding stack_settings
  stack_settings-AddressFits x =
      let named : Setting = λ c. (c, check_string json x "name" && check_string json x "version") in
      let transport = found_object json x "transport_layer" (import_transport_layer json) fails in
      let application =
        found_object json x "application_layer" (import_application json conv) fails in
      let south = found_object json x "south_monitoring" (import_south_monitoring json) skips in
      import_settings-Makes_later AddressFits named (transport ∷ application ∷ south ∷ []) (
        import_settings-Makes_later AddressFits transport (application ∷ south ∷ []) (
          import_settings-Makes AddressFits application (south ∷ [])
            (found_object-Makes json conv AddressFits x "application_layer"
              (import_application json conv) fails import_application-AddressFits (λ c e. cc))
            (
              found_object-Keeps json conv AddressFits x "south_monitoring"
                  (import_south_monitoring json) skips
                  (import_south_monitoring-Keeps json conv AddressFits (λ c asset p. p)) (λ c p. p),
              tt,
            )))

  -- If the scheduled GI is off or a time of the day, and the two BULLE are pairs of bytes, so they
  -- are after the import of any text as the protocol stack, whether or not it fails.
  pub import_config_json-InRange :
      (text : String) (c : HnzConf) → InRange c → InRange (import_config_json json conv text c)
  unfolding import_protocol_stack
  import_config_json-InRange text c p =
      let d : HnzConf = record c { config_is_complete = false } in
      import_config_json-either json conv InRange text c p (λ x. stack_settings-InRange x d p)

  -- Whatever the text is, if the import of the protocol stack marks the configuration as complete,
  -- the address of the remote station is at most 64.
  pub import_config_json-AddressFits :
      (text : String) (c : HnzConf)
      → (import_config_json json conv text c).config_is_complete ≡ true
      → AddressFits (import_config_json json conv text c)
  unfolding import_protocol_stack
  import_config_json-AddressFits text c =
      let d : HnzConf = record c { config_is_complete = false } in
      import_config_json-either json conv (λ e. e.config_is_complete ≡ true → AddressFits e) text c
        (λ e. cc) (λ x. stack_settings-AddressFits x d)
