-- ===== src/Station/Reading.antt =====
-- The readings that HNZ builds (`m_prepare_reading`, src/hnz.cpp), and the quality updates.
use fledge_south_hnz.Prelude.{
  ℕ, ◌+◌, ◌-◌, ◌^◌, ltb, leb, ◌==◌, if◌then◌else◌, Bool, true, false, not, ◌&&◌, ◌||◌, String,
  str_eq, List, [], ◌∷◌, ◌++◌, none, some, ◌>>=◌, ℤ, pos, Result, ok, fault, out_of_range,
}
use fledge_south_hnz.State.Conf.{Labels, labels_of}
use fledge_south_hnz.State.Station.{Value, text, num, Reading, Hnz}
use fledge_south_hnz.Station.Monitor.{send_to_fledge}

pub record ReadingParameters : Type 0 where
  pub label : String
  pub msg_code : String
  pub station_addr : ℕ
  pub msg_address : ℕ
  pub value : ℤ
  pub valid : ℕ
  pub ts : ℕ
  pub ts_iv : ℕ
  pub ts_c : ℕ
  pub ts_s : ℕ
  pub empty_timestamp : Bool
  pub cg : Bool
  pub an : String
  pub outdated : Bool
  pub quality_update : Bool

-- The default values of include/hnz.h.
abbrev pub default_parameters : ReadingParameters
default_parameters = record {
  label = "";
  msg_code = "";
  station_addr = 0;
  msg_address = 0;
  value = pos 0;
  valid = 0;
  ts = 0;
  ts_iv = 0;
  ts_c = 0;
  ts_s = 0;
  empty_timestamp = false;
  cg = false;
  an = "";
  outdated = false;
  quality_update = false;
}

abbrev pub nat : ℕ → Value
nat n = num (pos n)

abbrev pub flag : Bool → Value
flag b = nat (if b then 1 else 0)

abbrev pub Attributes : Type 0
Attributes = List (String × Value)

abbrev pub only_if : Bool → Attributes → Attributes
only_if b xs = if b then xs else []

-- The attributes of a TS with its time.
unfoldable pub time_attributes : ReadingParameters → Attributes
time_attributes p =
    only_if (not p.empty_timestamp) (("do_ts", nat p.ts) ∷ [])
    ++ ("do_ts_iv", nat p.ts_iv) ∷ ("do_ts_c", nat p.ts_c) ∷ ("do_ts_s", nat p.ts_s) ∷ []

unfoldable pub prepare_reading : ReadingParameters → Reading
unfolding time_attributes
prepare_reading p =
    let is_ts = str_eq p.msg_code "TS" in
    let is_tm = str_eq p.msg_code "TM" in
    record {
      asset = p.label;
      object = "data_object";
      attributes =
          ("do_type", text p.msg_code)
          ∷ ("do_station", nat p.station_addr)
          ∷ ("do_addr", nat p.msg_address)
          ∷ (only_if (not p.quality_update) (("do_value", num p.value) ∷ [])
              ++ (("do_valid", nat p.valid)
                  ∷ (only_if is_tm (("do_an", text p.an) ∷ [])
                      ++ (only_if is_ts (("do_cg", flag p.cg) ∷ [])
                          ++ (only_if (is_tm || is_ts) (("do_outdated", flag p.outdated) ∷ [])
                              ++ only_if (is_ts && not p.cg) (time_attributes p))))));
    }

unfoldable pub contains : List ℕ → ℕ → Bool
contains [] a = false
contains (x ∷ xs) a = x == a || contains xs a

-- One reading for each label that the filter does not hold.
unfoldable pub quality_readings : ReadingParameters → List ℕ → Labels → List Reading
unfolding contains
quality_readings template reject [] = []
quality_readings template reject ((addr, label) ∷ rest) =
    let others = quality_readings template reject rest in
    if contains reject addr
    then others
    else prepare_reading (record template { label = label; msg_address = addr }) ∷ others

-- `m_sendAllTIQualityReadings`: `map::at` faults where no message of the type is configured.
unfoldable pub send_all_quality_readings : ReadingParameters → List ℕ → Hnz → Result Hnz
unfolding quality_readings
send_all_quality_readings template reject h =
    elim (labels_of template.msg_code template.station_addr h.conf.msg_list) [
      | none ↦ fault out_of_range
      | some labels ↦ ok (send_to_fledge h (quality_readings template reject labels))
    ]

-- `m_sendAllTMQualityReadings`.
unfoldable pub send_all_tm_quality_readings : Bool → Bool → List ℕ → Hnz → Result Hnz
unfolding send_all_quality_readings
send_all_tm_quality_readings invalid outdated reject h =
    send_all_quality_readings
      (record default_parameters {
        msg_code = "TM";
        station_addr = h.conf.remote_station_addr;
        valid = if invalid then 1 else 0;
        outdated = outdated;
        an = "TMA";
        quality_update = true;
      })
      reject h

-- `m_sendAllTSQualityReadings`.
unfoldable pub send_all_ts_quality_readings : ℕ → Bool → Bool → List ℕ → Hnz → Result Hnz
unfolding send_all_quality_readings
send_all_ts_quality_readings now invalid outdated reject h =
    send_all_quality_readings
      (record default_parameters {
        msg_code = "TS";
        station_addr = h.conf.remote_station_addr;
        valid = if invalid then 1 else 0;
        outdated = outdated;
        ts = now;
        quality_update = true;
      })
      reject h

-- `updateQualityUpdateTimer`. The `long` that is passed is a 64-bit pattern: from 2^63 on it is
-- negative, after the clock was set back, and lengthens the time.
unfoldable pub update_quality_update_timer : ℕ → ℕ → Hnz → Result Hnz
update_quality_update_timer now elapsed h =
    if h.quality_update_timer == 0
    then ok h
    else (if leb (2 ^ 63) elapsed
        then ok (record h { quality_update_timer = h.quality_update_timer + (2 ^ 64 - elapsed) })
        else (if ltb elapsed h.quality_update_timer
            then ok (record h { quality_update_timer = h.quality_update_timer - elapsed })
            else (do
              k ← send_all_tm_quality_readings false true [] (record h { quality_update_timer = 0 })
              send_all_ts_quality_readings now false true [] k)))
