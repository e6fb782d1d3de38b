-- ===== src/Conf/Through.antt =====
-- What the import of the exchanged data keeps (`importExchangedDataJson` of src/hnzconf.cpp): whatever
-- each of its entries keeps.
use fledge_south_hnz.Prelude.{
  ℕ, if◌then◌else◌, Bool, false, ◌&&◌, String, str_eq, Option, none, some, List, [], ◌∷◌, if-both,
  option-both,
}
use fledge_south_hnz.State.Conf.{HnzConf}
use fledge_south_hnz.Conf.Json.{Json, Conversions, json_exchanged_data_name}
use fledge_south_hnz.Conf.Retrieve.{find, check_string, retrieve_string, retrieve_string_or}
use fledge_south_hnz.Conf.Exchange.{
  store_message, read_address, gi_trigger, import_protocols, import_datapoint, import_datapoints,
  import_exchanged_data, import_exchanged_data_json,
}

-- What every entry keeps, and the flags.
module _ {V : Type 0} (json : Json V) (conv : Conversions) (P : HnzConf → Type 0)
    (stored : (code : String) (addr : ℕ) (label : String) (trigger : Option ℕ) (c : HnzConf)
      → P c
      → P (store_message code addr label trigger c))
    (marked : (b : Bool) (c : HnzConf) → P c → P (record c { exchange_data_is_complete = b })) where
  import_protocols-Keeps :
      (label : String) (trigger : Option ℕ) (xs : List V) (c : HnzConf)
      → P c
      → P (import_protocols json conv label trigger xs c).0
  unfolding import_protocols
  import_protocols-Keeps label trigger [] c p = p
  import_protocols-Keeps label trigger (x ∷ xs) c p =
      let named = retrieve_string json x "name" "" in
      let address = retrieve_string_or json x "address" "" "" in
      let code = retrieve_string_or json x "typeid" "" "" in
      let addr = read_address conv address.0 in
      let d =
        import_protocols json conv label trigger xs (store_message code.0 addr.0 label trigger c) in
      let skipped = import_protocols json conv label trigger xs c in
      let added : HnzConf × Bool = (d.0, named.1 && (address.1 && (code.1 && (addr.1 && d.1)))) in
      let Q : HnzConf × Bool → Type 0 = λ r. P r.0 in
      if-both Q (json.is_object x)
        (if str_eq named.0 "hnzip" then added else (skipped.0, named.1 && skipped.1)) (c, false)
        (if-both Q (str_eq named.0 "hnzip") added (skipped.0, named.1 && skipped.1)
          (import_protocols-Keeps label trigger xs (store_message code.0 addr.0 label trigger c)
            (stored code.0 addr.0 label trigger c p))
          (import_protocols-Keeps label trigger xs c p))
        p

  import_datapoint-Keeps : (x : V) (c : HnzConf) → P c → P (import_datapoint json conv x c).0
  unfolding import_datapoint
  import_datapoint-Keeps x c p =
      let label = retrieve_string json x "label" "" in
      let described = check_string json x "pivot_id" && check_string json x "pivot_type" in
      let Q : HnzConf × Bool → Type 0 = λ r. P r.0 in
      let run : List V → HnzConf × Bool = λ ps.
        let (d, done) = import_protocols json conv label.0 (gi_trigger json x) ps c in
        (d, label.1 && (described && done)) in
      if-both Q (json.is_object x)
        (elim (find json json.as_array x "protocols") [ none ↦ (c, false) | some ps ↦ run ps ])
        (c, false)
        (option-both Q (find json json.as_array x "protocols") (c, false) run p
          (λ ps. import_protocols-Keeps label.0 (gi_trigger json x) ps c p))
        p

  import_datapoints-Keeps :
      (xs : List V) (c : HnzConf) → P c → P (import_datapoints json conv xs c).0
  unfolding import_datapoints
  import_datapoints-Keeps [] c p = p
  import_datapoints-Keeps (x ∷ xs) c p =
      import_datapoints-Keeps xs (import_datapoint json conv x c).0 (import_datapoint-Keeps x c p)

  import_exchanged_data-Keeps :
      (info : V) (c : HnzConf)
      → ((n : ℕ) → P (record c { last_ts_addr = n }))
      → P (import_exchanged_data json conv info c)
  unfolding import_exchanged_data
  import_exchanged_data-Keeps info c p =
      let run : List V → HnzConf = λ msgs.
        let (d, done) = import_datapoints json conv msgs (record c { last_ts_addr = 0 }) in
        record d {
          exchange_data_is_complete =
              check_string json info "name" && (check_string json info "version" && done);
        } in
      option-both P (find json json.as_array info "datapoints") c run (p c.last_ts_addr)
        (λ msgs. marked _ _ (import_datapoints-Keeps msgs (record c { last_ts_addr = 0 }) (p 0)))

  pub import_exchanged_data_json-Keeps :
      (text : String) (conf : HnzConf)
      → ((n : ℕ) → P (record conf { last_ts_addr = n }))
      → P (import_exchanged_data_json json conv text conf)
  unfolding import_exchanged_data_json
  import_exchanged_data_json-Keeps text conf before =
      let c : HnzConf = record conf { exchange_data_is_complete = false } in
      let p : (n : ℕ) → P (record c { last_ts_addr = n }) =
        λ n. marked false (record conf { last_ts_addr = n }) (before n) in
      let imported : V → HnzConf =
        λ info. if json.is_object info then import_exchanged_data json conv info c else c in
      let found : V → HnzConf = λ document. elim (json.member document json_exchanged_data_name) [
        | none ↦ c
        | some info ↦ imported info
      ] in
      option-both P (json.parse text) c
        (λ document. if json.is_object document then found document else c) (p c.last_ts_addr)
        (λ document.
          if-both P (json.is_object document) (found document) c
            (option-both P (json.member document json_exchanged_data_name) c imported
              (p c.last_ts_addr)
              (λ info.
                if-both P (json.is_object info) (import_exchanged_data json conv info c) c
                  (import_exchanged_data-Keeps info c p) (p c.last_ts_addr)))
            (p c.last_ts_addr))
