-- ===== src/Station/Epoch.antt =====
-- The time of a TSCE (`HNZ::getEpochMsTimestamp`, src/hnz.cpp): a section of ten minutes of the
-- station's day and units of 10 ms, on the day that the local clock suggests.
use fledge_south_hnz.Prelude.{
  ℕ, ◌+◌, ◌-◌, ◌*◌, ◌/◌, ◌%◌, ◌≤◌, ◌≡◌, ◌==◌, if◌then◌else◌, ◌&&◌, arith,
}

abbrev pub one_hour_ms : ℕ
one_hour_ms = 3600000

abbrev pub one_day_ms : ℕ
one_day_ms = 86400000

abbrev pub ten_min_ms : ℕ
ten_min_ms = 600000

-- `now` is the local clock, after the first day of the epoch.
unfoldable pub get_epoch_ms_timestamp : ℕ → ℕ → ℕ → ℕ
get_epoch_ms_timestamp now day_section ts =
    let day_start = now - now % one_day_ms in
    let hours = now % one_day_ms / one_hour_ms % 24 in
    let later = if day_section == 0 && hours == 23 then day_start + one_day_ms else day_start in
    let day = if day_section == 143 && hours == 0 then later - one_day_ms else later in
    day + day_section * ten_min_ms + ts * 10

-- The section of the day and the time in it, as a station sends them.
abbrev pub section_of : ℕ → ℕ
section_of t = t % one_day_ms / ten_min_ms

abbrev pub units_of : ℕ → ℕ
units_of t = t % ten_min_ms / 10

-- From one day after the epoch on, the timestamp of a TSCE is the time of the station, to 10 ms,
-- if the two clocks differ by at most ten minutes, also where midnight lies between them.
pub get_epoch_ms_timestamp-section_of :
    (now t : ℕ)
    → one_day_ms ≤ now
    → one_day_ms ≤ t
    → t ≤ now + ten_min_ms
    → now ≤ t + ten_min_ms
    → get_epoch_ms_timestamp now (section_of t) (units_of t) ≡ t - t % 10
unfolding get_epoch_ms_timestamp
get_epoch_ms_timestamp-section_of now t d e u v = ground arith
