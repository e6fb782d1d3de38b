-- ===== src/Station/Tests.antt =====
-- The theorems on messages and timestamps at concrete inputs (src/hnz.cpp).
use fledge_south_hnz.Prelude.{
  some, ℕ, ◌+◌, ◌-◌, ◌*◌, ◌^◌, ◌≡◌, refl, pos, negsuc, arith, [], ◌∷◌, ok, ◌&&◌, not,
}
use fledge_south_hnz.State.Clock.{Tm}
use fledge_south_hnz.Path.Commands.{tc_frame, tvc_frame, time_frame}
use fledge_south_hnz.Path.Samples.{codes}
use fledge_south_hnz.Station.Telemetry.{
  byte, split_address, atc_value, atvc_address, atvc_value, utc_timestamp,
}
use fledge_south_hnz.State.Conf.{Labels, labels_of, label_at}
use fledge_south_hnz.State.Station.{Hnz, path_fail}
use fledge_south_hnz.State.Link.{path_b}
use fledge_south_hnz.Station.Texts.{audit_of, read_audit, read_audit-audit_of}
use fledge_south_hnz.Link.Samples.{closed_world}
use fledge_south_hnz.Station.Reading.{contains}
use fledge_south_hnz.Station.Mismatch.{
  AddressesDiff, mismatching_addresses, has_label, contains-mismatching_addresses,
}
use fledge_south_hnz.Station.Epoch.{
  get_epoch_ms_timestamp, get_epoch_ms_timestamp-section_of, section_of, units_of, one_day_ms,
}
use fledge_south_hnz.Station.Codec.{
  tc_ack, tvc_ack, split_address-tc_ack, split_address-tc_frame_wraps, atvc_value-tvc_ack,
  get_epoch_ms_timestamp-time_frame, utc_timestamp-get_epoch_ms_timestamp,
  utc_timestamp-get_epoch_ms_timestamp_late,
}

-- 2022-01-01 is day 18993.
abbrev new_year : ℕ
new_year = 1640995200000

-- The station is 5 s behind and still on the day before.
get_epoch_ms_timestamp-section_of_example :
    get_epoch_ms_timestamp (new_year + 2000) 143 59700 ≡ new_year - 3000
get_epoch_ms_timestamp-section_of_example =
    get_epoch_ms_timestamp-section_of (new_year + 2000) (new_year - 3000) (omega arith)
      (omega arith) (omega arith) (omega arith)

split_address-tc_ack_example :
    (split_address (tc_ack 0x09 1 (tc_frame codes (pos 142) 1)) ≡ 142)
    × (atc_value (tc_ack 0x09 1 (tc_frame codes (pos 142) 1)) ≡ 1)
split_address-tc_ack_example =
    split_address-tc_ack codes 142 1 0x09 1 (omega arith) (omega arith) (omega arith) (omega arith)

split_address-tc_frame_wraps_example : split_address (tc_frame codes (pos 518) 1) ≡ 510
split_address-tc_frame_wraps_example =
    split_address-tc_frame_wraps codes 518 1 (omega arith) (omega arith)

atvc_value-tvc_ack_example :
    (atvc_address (tvc_ack 0x08 4 0 0 (tvc_frame codes 31 (negsuc 41))) ≡ 31)
    × (atvc_value (tvc_ack 0x08 4 0 0 (tvc_frame codes 31 (negsuc 41))) ≡ negsuc 41)
atvc_value-tvc_ack_example =
    atvc_value-tvc_ack codes 31 (negsuc 41) 0x08 4 0 0 (omega arith) (omega arith) (omega arith)
      (omega arith) (omega arith)

-- 13:37:42.
abbrev afternoon : Tm
afternoon = record {
  tm_mday = 1;
  tm_mon = 0;
  tm_year = 122;
  tm_hour = 13;
  tm_min = 37;
  tm_sec = 42;
}

abbrev afternoon_ms : ℕ
afternoon_ms = new_year + 49062123

get_epoch_ms_timestamp-time_frame_example :
    get_epoch_ms_timestamp afternoon_ms (byte (time_frame codes afternoon_ms afternoon) 1) (
      byte (time_frame codes afternoon_ms afternoon) 2 * 2 ^ 8
      + byte (time_frame codes afternoon_ms afternoon) 3)
    ≡ new_year + 49062120
get_epoch_ms_timestamp-time_frame_example =
    get_epoch_ms_timestamp-time_frame codes afternoon_ms afternoon (omega arith) refl refl

-- 14:37:42 at the station.
utc_timestamp-get_epoch_ms_timestamp_example :
    utc_timestamp
      (get_epoch_ms_timestamp afternoon_ms
        (section_of (afternoon_ms + 3600 * 1000))
        (units_of (afternoon_ms + 3600 * 1000)))
      (record afternoon { tm_hour = 14 })
      afternoon
    ≡ new_year + 49062120
utc_timestamp-get_epoch_ms_timestamp_example =
    utc_timestamp-get_epoch_ms_timestamp afternoon_ms 3600 (record afternoon { tm_hour = 14 })
      afternoon (omega arith) (omega arith) (omega arith) (omega arith) (omega arith) (omega arith)

-- 00:05:00 at the station, 23:05:00 of the day before in UTC.
utc_timestamp-get_epoch_ms_timestamp_late_example :
    utc_timestamp
      (get_epoch_ms_timestamp
        (new_year - 3300000)
        (section_of (new_year - 3300000 + 3600000))
        (units_of (new_year - 3300000 + 3600000)))
      (record afternoon { tm_hour = 0; tm_min = 5; tm_sec = 0 })
      (record afternoon { tm_hour = 23; tm_min = 5; tm_sec = 0 })
    ≡ new_year - 3300000 + one_day_ms
utc_timestamp-get_epoch_ms_timestamp_late_example =
    utc_timestamp-get_epoch_ms_timestamp_late (new_year - 3300000)
      (record afternoon { tm_hour = 0; tm_min = 5; tm_sec = 0 })
      (record afternoon { tm_hour = 23; tm_min = 5; tm_sec = 0 }) (omega arith) (omega arith)
      (omega arith) (omega arith) (omega arith)

-- Two TS of which one was received, with one that is not configured.
abbrev two_ts : Labels
two_ts = (511, "TS1") ∷ (512, "TS2") ∷ []

abbrev interrogated : Hnz
interrogated = record (closed_world.hnz) {
  gi_addresses_received = 600 ∷ 511 ∷ [];
  conf = record (closed_world.hnz.conf) { msg_list = ("TS", 12, two_ts) ∷ [] };
}

contains-mismatching_addresses_example :
    (d : AddressesDiff) × ((mismatching_addresses interrogated ≡ ok d)
      × ((contains d.missing_addresses 512
            ≡ (has_label (label_at 512 two_ts) && not (contains (600 ∷ 511 ∷ []) 512)))
          × (contains d.extra_addresses 512
              ≡ (contains (600 ∷ 511 ∷ []) 512 && not (has_label (label_at 512 two_ts))))))
unfolding labels_of contains
contains-mismatching_addresses_example =
    contains-mismatching_addresses interrogated two_ts 512 refl (refl, (refl, tt))

-- The message of path B when it fails.
path_fail_message :
    (audit_of "hnz" (path_fail path_b)).message ≡ "{\"message\":\"hnz-B-disconnected\"}"
unfolding audit_of
path_fail_message = refl

read_audit-audit_of_example :
    read_audit "hnz" (audit_of "hnz" (path_fail path_b)) ≡ some (path_fail path_b)
read_audit-audit_of_example = read_audit-audit_of "hnz" (path_fail path_b)
