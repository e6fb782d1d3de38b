-- ===== src/Conf/Tests.antt =====
-- The theorems on the configuration at concrete documents.
use fledge_south_hnz.Prelude.{
  ◌==◌, ◌&&◌, str_eq, arith, ◌≡◌, ◌≤◌, refl, inl, if◌then◌else◌, true, none, some, [],
}
use fledge_south_hnz.State.Conf.{HnzConf, new_conf, get_label, is_complete, labels_of, label_at}
use fledge_south_hnz.Path.Samples.{codes}
use fledge_south_hnz.Conf.Protocol.{import_config_json}
use fledge_south_hnz.Conf.Exchange.{store_message, import_exchanged_data_json}
use fledge_south_hnz.Conf.Bounds.{InRange}
use fledge_south_hnz.Conf.Labels.{get_label-store_message}
use fledge_south_hnz.Conf.Covers.{entry, last_ts_addr-import_exchanged_data_json}
use fledge_south_hnz.Conf.Samples.{json, conversions}

read_protocol : HnzConf
unfolding import_config_json
read_protocol = import_config_json json conversions "protocol" (new_conf codes)

read_protocol_complete : read_protocol.config_is_complete ≡ true
unfolding read_protocol import_config_json
read_protocol_complete = refl

new_conf-InRange : InRange (new_conf codes)
unfolding new_conf
new_conf-InRange = (inl refl, ((omega arith, omega arith), (omega arith, omega arith)))

read_protocol-schedule : read_protocol.gi_schedule ≡ record { activate = true; hour = 13; min = 30 }
unfolding read_protocol import_config_json
read_protocol-schedule = refl

read_protocol-empty : read_protocol.msg_list ≡ []
unfolding read_protocol import_config_json new_conf
read_protocol-empty = refl

read_data : HnzConf
unfolding import_exchanged_data_json
read_data = import_exchanged_data_json json conversions "data" read_protocol

read_data-entry : entry read_data.msg_list "TS" 12 511 ≡ some "TS1"
unfolding read_data read_protocol import_config_json import_exchanged_data_json labels_of label_at
    new_conf
read_data-entry = refl

read_data_complete : is_complete read_data ≡ true
unfolding read_data read_protocol import_config_json import_exchanged_data_json is_complete
read_data_complete = refl

last_ts_addr-import_exchanged_data_json_example : 511 ≤ read_data.last_ts_addr
unfolding read_data
last_ts_addr-import_exchanged_data_json_example =
    last_ts_addr-import_exchanged_data_json json conversions "data" read_protocol "TS" 12 511 "TS1"
      read_protocol-empty read_data-entry

get_label-store_message_example :
    get_label (store_message "TM" 20 "TM2" none read_data) "TM" 20
    ≡ (if str_eq "TM" "TM" && 20 == 20 then "TM2" else get_label read_data "TM" 20)
get_label-store_message_example = get_label-store_message "TM" 20 "TM2" none read_data "TM" 20
