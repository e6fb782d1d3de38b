-- ===== src/Conf/Settings.antt =====
-- What holds after settings one after the other, and after the import of the protocol stack (src/hnzconf.cpp).
use fledge_south_hnz.Prelude.{
  ◌≡◌, Bool, true, false, ◌&&◌, and-true, if-both, option-both, String, none, some, List, [], ◌∷◌,
  All, if◌then◌else◌,
}
use fledge_south_hnz.State.Conf.{HnzConf}
use fledge_south_hnz.State.Link.{PathId, path_a, path_b}
use fledge_south_hnz.Conf.Json.{Json, Conversions, json_conf_name}
use fledge_south_hnz.Conf.Retrieve.{find, check_string, retrieve_string}
use fledge_south_hnz.Conf.Protocol.{
  Setting, import_settings, import_connection, import_connections, import_transport_layer,
  found_object, import_south_monitoring, import_protocol_stack, import_config_json,
}

-- A setting keeps a predicate, whether or not it succeeds.
abbrev pub Keeps : (HnzConf → Type 0) → Setting → Type 0
Keeps P s = (c : HnzConf) → P c → P (s c).0

-- A setting that succeeds makes a predicate hold.
abbrev pub Makes : (HnzConf → Type 0) → Setting → Type 0
Makes P s = (c : HnzConf) → (s c).1 ≡ true → P (s c).0

module _ (P : HnzConf → Type 0) where
  pub import_settings-Keeps : (ss : List Setting) → All (Keeps P) ss → Keeps P (import_settings ss)
  unfolding import_settings
  import_settings-Keeps [] h c p = p
  import_settings-Keeps (s ∷ ss) h c p = import_settings-Keeps ss h.1 (s c).0 (h.0 c p)

  -- The first setting makes it hold, or a later one does.
  pub import_settings-Makes :
      (s : Setting) (ss : List Setting)
      → Makes P s
      → All (Keeps P) ss
      → Makes P (import_settings (s ∷ ss))
  unfolding import_settings
  import_settings-Makes s ss m h c e = import_settings-Keeps ss h (s c).0 (m c (and-true _ _ e).0)

  pub import_settings-Makes_later :
      (s : Setting) (ss : List Setting)
      → Makes P (import_settings ss)
      → Makes P (import_settings (s ∷ ss))
  unfolding import_settings
  import_settings-Makes_later s ss m c e = m (s c).0 (and-true (s c).1 _ e).1

module _ {V : Type 0} (json : Json V) (conv : Conversions) where
  module _ (P : HnzConf → Type 0)
      (keeps : (x : V) (i : PathId) → Keeps P (import_connection json x i)) where
    import_connections-Keeps : (xs : List V) → Keeps P (import_connections json xs)
    unfolding import_connections
    import_connections-Keeps [] c p = p
    import_connections-Keeps (x ∷ []) c p =
        if-both (λ (r : HnzConf × Bool). P r.0) (json.is_object x)
          (import_connection json x path_a c) (c, false) (keeps x path_a c p) p
    import_connections-Keeps (x ∷ y ∷ []) c p =
        let r = import_connection json x path_a c in
        let q : P r.0 = keeps x path_a c p in
        let e = import_connection json y path_b r.0 in
        let Q : HnzConf × Bool → Type 0 = λ s. P s.0 in
        if-both Q (json.is_object x) (if json.is_object y then (e.0, r.1 && e.1) else (r.0, false))
          (c, false)
          (if-both Q (json.is_object y) (e.0, r.1 && e.1) (r.0, false) (keeps y path_b r.0 q) q) p
    import_connections-Keeps (x ∷ y ∷ z ∷ xs) c p = p

    pub import_transport_layer-Keeps : (x : V) → Keeps P (import_transport_layer json x)
    unfolding import_transport_layer
    import_transport_layer-Keeps x c p =
        option-both (λ (r : HnzConf × Bool). P r.0) (find json json.as_array x "connections")
          (c, true) (λ xs. import_connections json xs c) p (λ xs. import_connections-Keeps xs c p)

  pub found_object-Keeps :
      (P : HnzConf → Type 0) (info : V) (key : String) (found : V → Setting) (missing : Setting)
      → ((x : V) → Keeps P (found x))
      → Keeps P missing
      → Keeps P (found_object json info key found missing)
  found_object-Keeps P info key found missing h m c p =
      option-both (λ (r : HnzConf × Bool). P r.0) (json.member info key) (missing c)
        (λ x. if json.is_object x then found x c else missing c) (m c p)
        (λ x.
          if-both (λ (r : HnzConf × Bool). P r.0) (json.is_object x) (found x c) (missing c)
            (h x c p) (m c p))

  pub found_object-Makes :
      (P : HnzConf → Type 0) (info : V) (key : String) (found : V → Setting) (missing : Setting)
      → ((x : V) → Makes P (found x))
      → Makes P missing
      → Makes P (found_object json info key found missing)
  found_object-Makes P info key found missing h m c =
      let Q : HnzConf × Bool → Type 0 = λ r. r.1 ≡ true → P r.0 in
      option-both Q (json.member info key) (missing c)
        (λ x. if json.is_object x then found x c else missing c) (m c)
        (λ x. if-both Q (json.is_object x) (found x c) (missing c) (h x c) (m c))

  pub import_south_monitoring-Keeps :
      (P : HnzConf → Type 0)
      → ((c : HnzConf) (asset : String) → P c → P (record c { connx_status = asset }))
      → (x : V) → Keeps P (import_south_monitoring json x)
  unfolding import_south_monitoring
  import_south_monitoring-Keeps P keeps x c p =
      let r = retrieve_string json x "asset" c.connx_status in
      if-both (λ (r : HnzConf × Bool). P r.0) (check_string json x "asset")
        (record c { connx_status = r.0 }, r.1) (c, true) (keeps c r.0 p) p

  -- The import is that of the stack, or leaves only the flag behind.
  pub import_config_json-either :
      (P : HnzConf → Type 0) (text : String) (conf : HnzConf)
      → let c : HnzConf = record conf { config_is_complete = false } in
        P c
        → ((info : V) → P (import_protocol_stack json conv info c))
        → P (import_config_json json conv text conf)
  unfolding import_config_json
  import_config_json-either P text conf p h =
      let c : HnzConf = record conf { config_is_complete = false } in
      let stack : V → HnzConf =
        λ info. if json.is_object info then import_protocol_stack json conv info c else c in
      let found : V → HnzConf = λ document. elim (json.member document json_conf_name) [
        | none ↦ c
        | some info ↦ stack info
      ] in
      option-both P (json.parse text) c
        (λ document. if json.is_object document then found document else c) p
        (λ document.
          if-both P (json.is_object document) (found document) c
            (option-both P (json.member document json_conf_name) c stack p (λ info.
              if-both P (json.is_object info) (import_protocol_stack json conv info c) c (h info)
                p))
            p)
