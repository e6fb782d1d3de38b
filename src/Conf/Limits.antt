-- ===== src/Conf/Limits.antt =====
-- The limits of a configuration through both imports (src/hnzconf.cpp).
use fledge_south_hnz.Prelude.{ℕ, ◌≡◌, refl, inl, true, String, Option, arith}
use fledge_south_hnz.State.Conf.{HnzConf, Codes, new_conf}
use fledge_south_hnz.Conf.Json.{Json, Conversions}
use fledge_south_hnz.Conf.Protocol.{import_config_json}
use fledge_south_hnz.Conf.Exchange.{store_message, import_exchanged_data_json}
use fledge_south_hnz.Conf.Bounds.{InRange}
use fledge_south_hnz.Conf.Range.{
  AddressFits, import_config_json-AddressFits, import_config_json-InRange,
}
use fledge_south_hnz.Conf.Through.{import_exchanged_data_json-Keeps}

-- The address fits once the protocol stack is complete, and the other settings are in range.
abbrev pub Limits : HnzConf → Type 0
Limits c = (c.config_is_complete ≡ true → AddressFits c) × InRange c

pub new_conf-Limits : (codes : Codes) → Limits (new_conf codes)
unfolding new_conf
new_conf-Limits codes =
    (λ e. cc, (inl refl, ((omega arith, omega arith), (omega arith, omega arith))))

store_message-Limits :
    (code : String) (addr : ℕ) (label : String) (trigger : Option ℕ) (c : HnzConf)
    → Limits c
    → Limits (store_message code addr label trigger c)
unfolding store_message
store_message-Limits code addr label trigger c p = p

module _ {V : Type 0} (json : Json V) (conv : Conversions) where
  pub import_config_json-Limits :
      (text : String) (c : HnzConf) → Limits c → Limits (import_config_json json conv text c)
  import_config_json-Limits text c p = (
    import_config_json-AddressFits json conv text c,
    import_config_json-InRange json conv text c p.1,
  )

  pub import_exchanged_data_json-Limits :
      (text : String) (c : HnzConf)
      → Limits c
      → Limits (import_exchanged_data_json json conv text c)
  import_exchanged_data_json-Limits text c p =
      import_exchanged_data_json-Keeps json conv Limits store_message-Limits (λ b c q. q) text c
        (λ n. p)
