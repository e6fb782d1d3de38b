-- ===== src/State/Clock.antt =====
-- What the code reads of the time. The calls of the C++ and C libraries are inputs of the model.
use fledge_south_hnz.Prelude.{ℕ, ◌+◌, ◌*◌, Bool, if◌then◌else◌}

-- What `gmtime_r` or `localtime_r` give of a time.
pub record Tm : Type 0 where
  pub tm_mday : ℕ
  pub tm_mon : ℕ
  pub tm_year : ℕ
  pub tm_hour : ℕ
  pub tm_min : ℕ
  pub tm_sec : ℕ

-- `tm_hour * 3600 + tm_min * 60 + tm_sec`.
abbrev pub seconds_of_day : Tm → ℕ
seconds_of_day t = t.tm_hour * 3600 + t.tm_min * 60 + t.tm_sec

-- The milliseconds since the epoch, and both readings of that time.
pub record Clock : Type 0 where
  pub now : ℕ
  pub local : Tm
  pub utc : Tm

-- `use_utc ? gmtime_r(...) : localtime_r(...)`.
abbrev pub real_time : Bool → Clock → Tm
real_time use_utc c = if use_utc then c.utc else c.local
