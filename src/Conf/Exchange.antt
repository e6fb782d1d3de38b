-- ===== src/Conf/Exchange.antt =====
-- The import of the exchanged data (`importExchangedDataJson`, `m_importDatapoint` and
-- `m_isGiTriggeringTs` of src/hnzconf.cpp).
use fledge_south_hnz.Prelude.{
  ℕ, ◌-◌, ◌^◌, ltb, ◌==◌, if◌then◌else◌, Bool, true, false, ◌&&◌, String, str_eq, Option, none,
  some, List, [], ◌∷◌,
}
use fledge_south_hnz.State.Conf.{HnzConf, Labels}
use fledge_south_hnz.Conf.Json.{Json, Conversions, json_exchanged_data_name}
use fledge_south_hnz.Conf.Retrieve.{
  is_some, find, check_string, retrieve_uint, retrieve_string, retrieve_string_or,
}

-- `operator[]` and `=` on the inner map, which is kept in the order of the addresses.
unfoldable pub set_label : ℕ → String → Labels → Labels
set_label addr label [] = (addr, label) ∷ []
set_label addr label ((a, l) ∷ rest) =
    let later = set_label addr label rest in
    if addr == a
    then (a, label) ∷ rest
    else (if ltb addr a then (addr, label) ∷ (a, l) ∷ rest else (a, l) ∷ later)

-- `m_msg_list[msg_code][station][addr] = label`.
unfoldable pub set_message :
    String → ℕ → ℕ → String → List (String × ℕ × Labels) → List (String × ℕ × Labels)
unfolding set_label
set_message code station addr label [] = (code, station, set_label addr label []) ∷ []
set_message code station addr label ((c, s, ls) ∷ rest) =
    let later = set_message code station addr label rest in
    if str_eq c code && s == station
    then (c, s, set_label addr label ls) ∷ rest
    else (c, s, ls) ∷ later

-- `map::insert`: an address that is there keeps its value.
unfoldable pub insert_trigger : ℕ → ℕ → List (ℕ × ℕ) → List (ℕ × ℕ)
insert_trigger addr value [] = (addr, value) ∷ []
insert_trigger addr value ((a, v) ∷ rest) =
    let later = insert_trigger addr value rest in
    if a == addr then (a, v) ∷ rest else (a, v) ∷ later

-- What an entry for HNZ adds, if its address was read.
unfoldable pub store_message : String → ℕ → String → Option ℕ → HnzConf → HnzConf
unfolding set_message insert_trigger
store_message code addr label trigger c = record c {
  msg_list = set_message code c.remote_station_addr addr label c.msg_list;
  last_ts_addr = if ltb c.last_ts_addr addr then addr else c.last_ts_addr;
  cg_triggering_ts = elim trigger [
    | none ↦ c.cg_triggering_ts
    | some v ↦ insert_trigger addr v c.cg_triggering_ts
  ];
}

-- The address of a text, 0 where it is none or beyond 32 bits, and whether it was one.
unfoldable pub read_address : Conversions → String → ℕ × Bool
read_address conv text = elim (conv.stoul 10 text) [
  | none ↦ (0, false)
  | some n ↦ if ltb n (2 ^ 32) then (n, true) else (0, false)
]

module _ {V : Type 0} (json : Json V) where
  -- The value of the first subtype with a trigger; the `int` -1, which is 2^32 - 1 in JSON, and a
  -- value of another kind stand for none.
  unfoldable pub find_trigger : List V → Option ℕ
  unfolding retrieve_uint
  find_trigger [] = none
  find_trigger (x ∷ xs) =
      let later = find_trigger xs in
      if json.is_object x && is_some (json.member x "trigger_south_gi")
      then (let (value, found) = retrieve_uint json x "trigger_south_gi" 0 in
          if found then (if value == 2 ^ 32 - 1 then none else some value) else none)
      else later

  unfoldable pub gi_trigger : V → Option ℕ
  unfolding find_trigger
  gi_trigger msg = elim (find json json.as_array msg "pivot_subtypes") [
    | none ↦ none
    | some subtypes ↦ find_trigger subtypes
  ]

  -- The loop over the protocols of a datapoint, which is left at an entry that is no object.
  unfoldable pub import_protocols :
      Conversions → String → Option ℕ → List V → HnzConf → HnzConf × Bool
  unfolding retrieve_string retrieve_string_or read_address store_message
  import_protocols conv label trigger [] c = (c, true)
  import_protocols conv label trigger (x ∷ xs) c =
      if json.is_object x
      then (let (name, named) = retrieve_string json x "name" "" in
          let skipped = import_protocols conv label trigger xs c in
          let (address, has_address) = retrieve_string_or json x "address" "" "" in
          let (code, has_code) = retrieve_string_or json x "typeid" "" "" in
          let (addr, numeric) = read_address conv address in
          let (d, rest) =
            import_protocols conv label trigger xs (store_message code addr label trigger c) in
          if str_eq name "hnzip"
          then (d, named && (has_address && (has_code && (numeric && rest))))
          else (skipped.0, named && skipped.1))
      else (c, false)

  unfoldable pub import_datapoint : Conversions → V → HnzConf → HnzConf × Bool
  unfolding retrieve_string check_string gi_trigger import_protocols
  import_datapoint conv msg c =
      if json.is_object msg
      then (let (label, labelled) = retrieve_string json msg "label" "" in
          let described = check_string json msg "pivot_id" && check_string json msg "pivot_type" in
          elim (find json json.as_array msg "protocols") [
            | none ↦ (c, false)
            | some protocols ↦
                let (d, done) = import_protocols conv label (gi_trigger msg) protocols c in
                (d, labelled && (described && done))
          ])
      else (c, false)

  unfoldable pub import_datapoints : Conversions → List V → HnzConf → HnzConf × Bool
  unfolding import_datapoint
  import_datapoints conv [] c = (c, true)
  import_datapoints conv (x ∷ xs) c =
      let (d, done) = import_datapoint conv x c in
      let (e, rest) = import_datapoints conv xs d in (e, done && rest)

  unfoldable pub import_exchanged_data : Conversions → V → HnzConf → HnzConf
  unfolding check_string import_datapoints
  import_exchanged_data conv info c = elim (find json json.as_array info "datapoints") [
    | none ↦ c
    | some msgs ↦
        let (d, done) = import_datapoints conv msgs (record c { last_ts_addr = 0 }) in
        record d {
          exchange_data_is_complete =
              check_string json info "name" && (check_string json info "version" && done);
        }
  ]

  -- `importExchangedDataJson`.
  unfoldable pub import_exchanged_data_json : Conversions → String → HnzConf → HnzConf
  unfolding import_exchanged_data
  import_exchanged_data_json conv text conf =
      let c : HnzConf = record conf { exchange_data_is_complete = false } in
      elim (json.parse text) [
        | none ↦ c
        | some document ↦
            if json.is_object document
            then elim (json.member document json_exchanged_data_name) [
              | none ↦ c
              | some info ↦ if json.is_object info then import_exchanged_data conv info c else c
            ]
            else c
      ]
