-- ===== src/Station/Codec.antt =====
-- What a command or a setting of the clock says on the wire (src/hnzpath.cpp) against how the
-- handlers of the acknowledgements and of the timestamps read it (src/hnz.cpp).
use fledge_south_hnz.Prelude.{
  ℕ, ◌+◌, ◌-◌, ◌*◌, ◌/◌, ◌%◌, ◌^◌, ◌≤◌, ◌<◌, ◌≡◌, List, [], ◌∷◌, ℤ, pos, negsuc, abs, arith,
}
use fledge_south_hnz.State.Conf.{Codes}
use fledge_south_hnz.State.Clock.{Tm, seconds_of_day}
use fledge_south_hnz.Path.Commands.{tc_frame, tvc_frame, time_frame, leading_digits, last_digit}
use fledge_south_hnz.Station.Telemetry.{
  byte, split_address, atc_value, atvc_address, atvc_value, utc_timestamp,
}
use fledge_south_hnz.Station.Epoch.{get_epoch_ms_timestamp, section_of, units_of, one_day_ms}

-- What a station answers to a TC: the command under the code of the answer, with the result of the
-- command in the three low bits of the last byte (1 where it is carried out).
abbrev pub tc_ack : ℕ → ℕ → List ℕ → List ℕ
tc_ack code result command = code ∷ byte command 1 ∷ (byte command 2 + result) ∷ []

-- What a station answers to a TVC: the command under the code of the answer, with bits of its own
-- above the address, above the value and below the sign.
abbrev pub tvc_ack : ℕ → ℕ → ℕ → ℕ → List ℕ → List ℕ
tvc_ack code high mid low command =
    code ∷ (byte command 1 + high * 32) ∷ (byte command 2 + mid * 128) ∷ (byte command 3 + low) ∷ []

-- The answer to a TC with an address below 2560 whose last digit is at most 7 and a value below 4,
-- whatever its code and the result in its three low bits are, is read back with the address and
-- the value that were sent.
pub split_address-tc_ack :
    (c : Codes) (addr v code result : ℕ)
    → addr < 2560
    → addr % 10 < 8
    → v < 4
    → result < 8
    → (split_address (tc_ack code result (tc_frame c (pos addr) v)) ≡ addr)
      × (atc_value (tc_ack code result (tc_frame c (pos addr) v)) ≡ v)
unfolding tc_frame leading_digits last_digit split_address atc_value
split_address-tc_ack c addr v code result h d e r = (omega arith, omega arith)

-- The address of a TC, below 2560, that ends in 8 or 9 comes back as an address that is 8 less.
pub split_address-tc_frame_wraps :
    (c : Codes) (addr v : ℕ)
    → addr < 2560
    → 8 ≤ addr % 10
    → split_address (tc_frame c (pos addr) v) ≡ addr - 8
unfolding tc_frame leading_digits last_digit split_address
split_address-tc_frame_wraps c addr v h d = omega arith

-- The answer to a TVC with an address below 32 and a value from -127 to 127, whatever its code,
-- the three bits above the address, the bit above the value and the seven bits below the sign are,
-- is read back with the address and the value that were sent.
pub atvc_value-tvc_ack :
    (c : Codes) (addr : ℕ) (v : ℤ) (code high mid low : ℕ)
    → addr < 32
    → abs v < 128
    → high < 8
    → mid < 2
    → low < 128
    → (atvc_address (tvc_ack code high mid low (tvc_frame c addr v)) ≡ addr)
      × (atvc_value (tvc_ack code high mid low (tvc_frame c addr v)) ≡ v)
unfolding tvc_frame atvc_address atvc_value
atvc_value-tvc_ack c addr (pos n) code high mid low h e r s t = (ground arith, ground arith)
atvc_value-tvc_ack c addr (negsuc n) code high mid low h e r s t = (ground arith, ground arith)

-- From one day after the epoch on, the time that the plugin sends, read the way the plugin reads
-- the time of a TSCE, is its own clock to 10 ms, where `t` is the UTC reading of that clock.
pub get_epoch_ms_timestamp-time_frame :
    (c : Codes) (now : ℕ) (t : Tm)
    → one_day_ms ≤ now
    → t.tm_hour ≡ now % one_day_ms / 3600000
    → t.tm_min ≡ now % 3600000 / 60000
    → get_epoch_ms_timestamp now
        (byte (time_frame c now t) 1)
        (byte (time_frame c now t) 2 * 2 ^ 8 + byte (time_frame c now t) 3)
      ≡ now - now % 10
unfolding time_frame get_epoch_ms_timestamp
get_epoch_ms_timestamp-time_frame c now t d eh em = ground arith

-- From one day after the epoch on and before 2^63 ms, with a station on a local time that is
-- `offset` seconds ahead of UTC, the timestamp of a TSCE sent now is the UTC time to 10 ms, if the
-- station's clock agrees and is in neither the first nor the last ten minutes of its day.
pub utc_timestamp-get_epoch_ms_timestamp :
    (now offset : ℕ) (local utc : Tm)
    → one_day_ms ≤ now
    → now < 2 ^ 63
    → seconds_of_day utc ≡ now / 1000 % 86400
    → seconds_of_day local ≡ (now / 1000 + offset) % 86400
    → 0 < section_of (now + offset * 1000)
    → section_of (now + offset * 1000) < 143
    → utc_timestamp
        (get_epoch_ms_timestamp now
          (section_of (now + offset * 1000))
          (units_of (now + offset * 1000)))
        local
        utc
      ≡ now - now % 10
unfolding utc_timestamp get_epoch_ms_timestamp
utc_timestamp-get_epoch_ms_timestamp now offset local utc d l eu el lo hi = ground arith

-- From one day after the epoch on and before 2^63 ms, with a station one hour ahead of UTC and its
-- clock in agreement, the timestamp of a TSCE from the first ten minutes of the station's day is
-- one day late.
pub utc_timestamp-get_epoch_ms_timestamp_late :
    (now : ℕ) (local utc : Tm)
    → one_day_ms ≤ now
    → now < 2 ^ 63
    → seconds_of_day utc ≡ now / 1000 % 86400
    → seconds_of_day local ≡ (now / 1000 + 3600) % 86400
    → section_of (now + 3600000) ≡ 0
    → utc_timestamp
        (get_epoch_ms_timestamp now (section_of (now + 3600000)) (units_of (now + 3600000)))
        local
        utc
      ≡ now - now % 10 + one_day_ms
unfolding utc_timestamp get_epoch_ms_timestamp
utc_timestamp-get_epoch_ms_timestamp_late now local utc d l eu el z = ground arith
