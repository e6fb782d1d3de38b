-- ===== src/Conf/Covers.antt =====
-- The last address of the exchanged data (`m_lastTSAddr` of src/hnzconf.cpp).
use fledge_south_hnz.Prelude.{
  ℕ, ◌==◌, ◌≤◌, if◌then◌else◌, ◌&&◌, ◌≡◌, refl, ap, String, str_eq, Option, none, some, List, [],
  arith, inl, inr, Bool-cases, eq_iff,
}
use fledge_south_hnz.State.Conf.{HnzConf, Labels, label_at, labels_of}
use fledge_south_hnz.Conf.Json.{Json, Conversions}
use fledge_south_hnz.Conf.Through.{import_exchanged_data_json-Keeps}
use fledge_south_hnz.Conf.Labels.{labels_or, labels_of-set_message, label_at-set_label}
use fledge_south_hnz.Conf.Exchange.{set_message, store_message, import_exchanged_data_json}

-- The label of a message of any station.
abbrev pub entry : List (String × ℕ × Labels) → String → ℕ → ℕ → Option String
entry ms k s a = label_at a (labels_or (labels_of k s ms))

entry-set_message :
    (code : String) (station addr : ℕ) (label : String) (ms : List (String × ℕ × Labels))
    (k : String) (s a : ℕ)
    → entry (set_message code station addr label ms) k s a
      ≡ (if str_eq code k && (station == s) && (addr == a) then some label else entry ms k s a)
entry-set_message code station addr label ms k s a =
    let h = labels_of-set_message code station addr label ms k s in
    let one = label_at-set_label addr label (labels_or (labels_of code station ms)) a in
    elim (Bool-cases (str_eq code k)) [
      | inl e ↦ let same = (eq_iff code k).0 e in grind arith
      | inr e ↦ grind arith
    ]

-- No configured address is beyond the last one.
abbrev pub Covers : HnzConf → Type 0
Covers c =
    (k : String) (s a : ℕ) (l : String) → entry c.msg_list k s a ≡ some l → a ≤ c.last_ts_addr

store_message-Covers :
    (code : String) (addr : ℕ) (label : String) (trigger : Option ℕ) (c : HnzConf)
    → Covers c
    → Covers (store_message code addr label trigger c)
unfolding store_message
store_message-Covers code addr label trigger c p k s a l e =
    let h = entry-set_message code c.remote_station_addr addr label c.msg_list k s a in
    let old = p k s a l in grind arith

no_entry :
    (ms : List (String × ℕ × Labels)) (k : String) (s a : ℕ) (l : String)
    → ms ≡ []
    → entry ms k s a ≡ some l
    → (b : ℕ) → a ≤ b
unfolding labels_of label_at
no_entry ms k s a l empty e b =
    let f = ap (λ ms. entry ms k s a) empty in let n : entry [] k s a ≡ none = refl in cc

module _ {V : Type 0} (json : Json V) (conv : Conversions) where
  -- After the import of any text as the exchanged data into a configuration without messages, the
  -- address of every configured message, of any type and station, is at most the last address.
  pub last_ts_addr-import_exchanged_data_json :
      (text : String) (conf : HnzConf) (k : String) (s a : ℕ) (l : String)
      → conf.msg_list ≡ []
      → entry (import_exchanged_data_json json conv text conf).msg_list k s a ≡ some l
      → a ≤ (import_exchanged_data_json json conv text conf).last_ts_addr
  last_ts_addr-import_exchanged_data_json text conf k s a l empty e =
      import_exchanged_data_json-Keeps json conv Covers store_message-Covers (λ b c p. p) text conf
        (λ n k s a l e. no_entry conf.msg_list k s a l empty e n) k s a l e
