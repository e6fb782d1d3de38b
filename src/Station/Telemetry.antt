-- ===== src/Station/Telemetry.antt =====
-- The fields of the messages of a station (`m_handleTM4`, `m_handleTSCE`, `m_handleTSCG`,
-- `m_handleTMN`, `m_handleATVC`, `m_handleATC` of src/hnz.cpp): bytes in, parameters of readings out.
-- An address that is put together by `to_string` and `stoi` ends in one digit.
use fledge_south_hnz.Prelude.{
  ℕ, zero, suc, ◌+◌, ◌-◌, ◌*◌, ◌/◌, ◌%◌, ◌^◌, leb, ◌==◌, if◌then◌else◌, Bool, true, false, String,
  str_eq, List, [], ◌∷◌, ◌++◌, get_or, shr, low_bits, ℤ, pos, neg,
}
use fledge_south_hnz.State.Clock.{Tm, Clock, real_time, seconds_of_day}
use fledge_south_hnz.State.Conf.{HnzConf, get_label}
use fledge_south_hnz.Station.Reading.{ReadingParameters, default_parameters}
use fledge_south_hnz.Station.Epoch.{get_epoch_ms_timestamp}

abbrev pub byte : List ℕ → ℕ → ℕ
byte bytes k = get_or bytes k 0

abbrev pub bit : ℕ → ℕ → ℕ
bit x k = low_bits (shr x k) 1

-- The parameters, unless the message is not configured.
abbrev pub labelled : HnzConf → ReadingParameters → List ReadingParameters
labelled conf p =
    let label = get_label conf p.msg_code p.msg_address in
    if str_eq label "" then [] else record p { label = label } ∷ []

abbrev pub parameters_for : HnzConf → String → ℕ → ReadingParameters
parameters_for conf code addr = record default_parameters {
  msg_code = code;
  station_addr = conf.remote_station_addr;
  msg_address = addr;
}

-- The value of a TM on a byte: in ones' complement from 0x80 on, where `value ^ 0xFF` is
-- `0xFF - value`.
unfoldable pub tm8_value : ℕ → ℤ
tm8_value b = if leb 0x80 b then neg (0xFF - b) else pos b

unfoldable pub tm4_at : HnzConf → List ℕ → ℕ → List ReadingParameters
unfolding tm8_value
tm4_at conf bytes i =
    let b = byte bytes (2 + i) in
    labelled conf (record (parameters_for conf "TM" (byte bytes 1 + i)) {
      value = tm8_value b;
      valid = if b == 0xFF then 1 else 0;
      an = "TMA";
    })

unfoldable pub tm4_parameters : HnzConf → List ℕ → List ReadingParameters
unfolding tm4_at
tm4_parameters conf bytes =
    tm4_at conf bytes 0 ++ (tm4_at conf bytes 1 ++ (tm4_at conf bytes 2 ++ tm4_at conf bytes 3))

-- AD0 and ADB of a TSCE or an ATC, as decimal digits of one number.
unfoldable pub split_address : List ℕ → ℕ
split_address bytes = byte bytes 1 * 10 + shr (byte bytes 2) 5

-- `epochMs - real_utc_offset_s * 1000`, on 64 bits.
unfoldable pub utc_timestamp : ℕ → Tm → Tm → ℕ
utc_timestamp epoch_ms real utc =
    (epoch_ms + 2 ^ 64 + seconds_of_day utc * 1000 - seconds_of_day real * 1000) % 2 ^ 64

unfoldable pub tsce_parameters : HnzConf → Clock → ℕ → Bool → List ℕ → List ReadingParameters
unfolding split_address utc_timestamp get_epoch_ms_timestamp
tsce_parameters conf clock day_section empty_timestamp bytes =
    let ts = byte bytes 3 * 2 ^ 8 + byte bytes 4 in
    let epoch_ms = get_epoch_ms_timestamp clock.now day_section ts in
    labelled conf (record (parameters_for conf "TS" (split_address bytes)) {
      value = pos (bit (byte bytes 2) 3);
      valid = bit (byte bytes 2) 4;
      ts = utc_timestamp epoch_ms (real_time conf.use_utc clock) clock.utc;
      ts_iv = bit (byte bytes 2) 2;
      ts_c = bit (byte bytes 2) 1;
      ts_s = bit (byte bytes 2) 0;
      empty_timestamp = empty_timestamp;
    })

-- The address of the i-th TS of a TSCG, and its two bits.
unfoldable pub tscg_address : List ℕ → ℕ → ℕ
tscg_address bytes i = (byte bytes 1 + i / 8) * 10 + i % 8

unfoldable pub tscg_value : List ℕ → ℕ → ℕ
tscg_value bytes i = low_bits (shr (byte bytes (2 + i / 4)) ((3 - i % 4) * 2)) 1

unfoldable pub tscg_valid : List ℕ → ℕ → ℕ
tscg_valid bytes i = shr (low_bits (shr (byte bytes (2 + i / 4)) ((3 - i % 4) * 2)) 2) 1

unfoldable pub tscg_at : HnzConf → List ℕ → ℕ → List ReadingParameters
unfolding tscg_address tscg_value tscg_valid
tscg_at conf bytes i = labelled conf (record (parameters_for conf "TS" (tscg_address bytes i)) {
  value = pos (tscg_value bytes i);
  valid = tscg_valid bytes i;
  cg = true;
})

-- The loop over the TS from the i-th on, `n` of them.
unfoldable pub tscg_from : HnzConf → List ℕ → ℕ → ℕ → List ReadingParameters
unfolding tscg_at
tscg_from conf bytes i zero = []
tscg_from conf bytes i (suc n) = tscg_at conf bytes i ++ tscg_from conf bytes (i + 1) n

unfoldable pub tscg_parameters : HnzConf → List ℕ → List ReadingParameters
unfolding tscg_from
tscg_parameters conf bytes = tscg_from conf bytes 0 16

-- A TM of 16 bits in two's complement, low byte first.
unfoldable pub tm16_value : ℕ → ℕ → ℤ
tm16_value low high =
    let v = high * 2 ^ 8 + low in if leb 0x8000 v then neg (32768 - v % 0x8000) else pos v

unfoldable pub tmn_at : HnzConf → List ℕ → Bool → ℕ → List ReadingParameters
unfolding tm16_value
tmn_at conf bytes is_tm8 i = labelled conf (
    if is_tm8
    then record (parameters_for conf "TM" (byte bytes 1 + i)) {
      value = pos (byte bytes (2 + i));
      valid = bit (byte bytes 6) i;
      an = "TM8";
    }
    else record (parameters_for conf "TM" (byte bytes 1 + i * 2)) {
      value = tm16_value (byte bytes (2 + i * 2)) (byte bytes (2 + i * 2 + 1));
      valid = bit (byte bytes 6) (i * 2);
      an = "TM16";
    })

unfoldable pub tmn_parameters : HnzConf → List ℕ → List ReadingParameters
unfolding tmn_at
tmn_parameters conf bytes =
    if shr (byte bytes 6) 7 == 1
    then tmn_at conf bytes true 0
      ++ (tmn_at conf bytes true 1 ++ (tmn_at conf bytes true 2 ++ tmn_at conf bytes true 3))
    else tmn_at conf bytes false 0 ++ tmn_at conf bytes false 1

unfoldable pub atvc_address : List ℕ → ℕ
atvc_address bytes = low_bits (byte bytes 1) 5

unfoldable pub atvc_value : List ℕ → ℤ
atvc_value bytes =
    if shr (byte bytes 3) 7 % 2 == 1
    then neg (low_bits (byte bytes 2) 7)
    else pos (low_bits (byte bytes 2) 7)

unfoldable pub atvc_parameters : HnzConf → List ℕ → List ReadingParameters
unfolding atvc_address atvc_value
atvc_parameters conf bytes =
    labelled conf (record (parameters_for conf "TVC" (atvc_address bytes)) {
      value = atvc_value bytes;
      valid = bit (byte bytes 1) 6;
    })

unfoldable pub atc_value : List ℕ → ℕ
atc_value bytes = low_bits (shr (byte bytes 2) 3) 2

unfoldable pub atc_parameters : HnzConf → List ℕ → List ReadingParameters
unfolding split_address atc_value
atc_parameters conf bytes = labelled conf (record (parameters_for conf "TC" (split_address bytes)) {
  value = pos (atc_value bytes);
  valid = if low_bits (byte bytes 2) 3 == 1 then 0 else 1;
})
