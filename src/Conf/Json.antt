-- ===== src/Conf/Json.antt =====
-- What the import uses of rapidjson and of the conversions of the C++ library, which are parameters,
-- and the keys and defaults of include/hnzconf.h.
use fledge_south_hnz.Prelude.{ℕ, Bool, String, Option, List, ℤ}

-- rapidjson on a type of values: `Document::Parse`, `HasMember` with `operator[]`, `IsObject`, and
-- the getters, each with its test.
pub record Json (V : Type 0) : Type 0 where
  pub parse : String → Option V
  pub member : V → String → Option V
  pub is_object : V → Bool
  pub as_array : V → Option (List V)
  pub as_string : V → Option String
  pub as_uint : V → Option ℕ
  pub as_int64 : V → Option ℤ
  pub as_bool : V → Option Bool

-- `stoul` for a base and `stoi`: none for the exceptions `invalid_argument` and `out_of_range`.
pub record Conversions : Type 0 where
  pub stoul : ℕ → String → Option ℕ
  pub stoi : String → Option ℤ

abbrev pub json_conf_name : String
json_conf_name = "protocol_stack"

abbrev pub json_exchanged_data_name : String
json_exchanged_data_name = "exchanged_data"

abbrev pub default_port : ℕ
default_port = 6001

abbrev pub default_inacc_timeout : ℕ
default_inacc_timeout = 180

abbrev pub default_max_sarm : ℕ
default_max_sarm = 30

abbrev pub default_repeat_path : ℕ
default_repeat_path = 3

abbrev pub default_repeat_timeout : ℕ
default_repeat_timeout = 3000

abbrev pub default_anticipation_ratio : ℕ
default_anticipation_ratio = 3

abbrev pub default_tst_msg : String
default_tst_msg = "1304"

abbrev pub default_gi_schedule : String
default_gi_schedule = "99:99"

abbrev pub default_gi_repeat_count : ℕ
default_gi_repeat_count = 3

abbrev pub default_gi_time : ℕ
default_gi_time = 255

abbrev pub default_c_ack_time : ℕ
default_c_ack_time = 10

abbrev pub default_cmd_recv_timeout : ℕ
default_cmd_recv_timeout = 100000

abbrev pub default_bulle_time : ℕ
default_bulle_time = 10
