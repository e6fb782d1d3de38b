-- ===== src/Conf/Retrieve.antt =====
-- `m_check_...` and the overloads of `m_retrieve` (src/hnzconf.cpp). The result of an overload is the
-- new value of its target and whether it succeeded.
use Prim.Native.String.{len, slice}
use fledge_south_hnz.Prelude.{
  ℕ, ◌%◌, ltb, ◌==◌, if◌then◌else◌, Bool, true, false, not, ◌||◌, String, str_eq, Option, none,
  some, ℤ, pos, negsuc,
}
use fledge_south_hnz.State.Conf.{BulleFormat, GiScheduleFormat}
use fledge_south_hnz.Conf.Json.{Json, Conversions, default_tst_msg, default_gi_schedule}

abbrev pub is_some {ℓ} : {A : Type ℓ} → Option A → Bool
is_some none = false
is_some (some a) = true

-- A required value of a kind: `HasMember`, then the getter with its test.
abbrev pub get {ℓ} : {A : Type ℓ} → Option A → A → A × Bool
get none old = (old, false)
get (some a) old = (a, true)

module _ {V : Type 0} (json : Json V) where
  -- The member of this key, if there is one of the kind.
  abbrev pub find {ℓ} : {A : Type ℓ} → (V → Option A) → V → String → Option A
  find kind v key = elim (json.member v key) [ none ↦ none | some x ↦ kind x ]

  -- The overloads with a default: it is taken for a missing key, not for a value of another kind.
  abbrev pub find_or {ℓ} : {A : Type ℓ} → (V → Option A) → V → String → A → A → A × Bool
  find_or kind v key old default = elim (json.member v key) [
    | none ↦ (default, true)
    | some x ↦ get (kind x) old
  ]

  unfoldable pub check_string : V → String → Bool
  check_string v key = is_some (find json.as_string v key)

  unfoldable pub check_array : V → String → Bool
  check_array v key = is_some (find json.as_array v key)

  unfoldable pub check_object : V → String → Bool
  check_object v key = elim (json.member v key) [ none ↦ false | some x ↦ json.is_object x ]

  unfoldable pub retrieve_uint : V → String → ℕ → ℕ × Bool
  retrieve_uint v key old = get (find json.as_uint v key) old

  unfoldable pub retrieve_uint_or : V → String → ℕ → ℕ → ℕ × Bool
  retrieve_uint_or v key old default = find_or json.as_uint v key old default

  unfoldable pub retrieve_string : V → String → String → String × Bool
  retrieve_string v key old = get (find json.as_string v key) old

  unfoldable pub retrieve_string_or : V → String → String → String → String × Bool
  retrieve_string_or v key old default = find_or json.as_string v key old default

  unfoldable pub retrieve_int64_or : V → String → ℤ → ℤ → ℤ × Bool
  retrieve_int64_or v key old default = find_or json.as_int64 v key old default

  unfoldable pub retrieve_bool_or : V → String → Bool → Bool → Bool × Bool
  retrieve_bool_or v key old default = find_or json.as_bool v key old default

-- Two `unsigned char`, if both were read.
abbrev pub bytes_of : Option ℕ → Option ℕ → Option BulleFormat
bytes_of none y = none
bytes_of (some x) none = none
bytes_of (some x) (some y) = some (record { first = x % 256; second = y % 256 })

-- Two bytes from the two halves of a text.
unfoldable pub parse_bulle : Conversions → String → Option BulleFormat
parse_bulle conv text =
    bytes_of (conv.stoul 16 (slice text 0 2)) (conv.stoul 16 (slice text 2 (len text)))

-- A number from 0 up to a bound.
abbrev pub below : ℕ → ℤ → Option ℕ
below bound (pos n) = if ltb n bound then some n else none
below bound (negsuc n) = none

abbrev pub number_below : ℕ → Option ℤ → Option ℕ
number_below bound none = none
number_below bound (some z) = below bound z

unfoldable pub parse_hour : Conversions → String → Option ℕ
parse_hour conv text = number_below 24 (conv.stoi (slice text 0 2))

unfoldable pub parse_min : Conversions → String → Option ℕ
parse_min conv text = number_below 60 (conv.stoi (slice text 3 (len text)))

-- No scheduled GI.
abbrev pub no_schedule : GiScheduleFormat
no_schedule = record { activate = false; hour = 99; min = 99 }

-- A schedule, if an hour and a minute were read.
abbrev pub schedule_of : Option ℕ → Option ℕ → Option GiScheduleFormat
schedule_of none m = none
schedule_of (some h) none = none
schedule_of (some h) (some m) = some (record { activate = true; hour = h; min = m })

-- A time "HH:MM", or the text that stands for no schedule.
unfoldable pub parse_schedule : Conversions → String → Option GiScheduleFormat
unfolding parse_hour parse_min
parse_schedule conv text =
    if str_eq text default_gi_schedule
    then some no_schedule
    else (if not (len text == 5) || not (str_eq (slice text 2 3) ":")
        then none
        else schedule_of (parse_hour conv text) (parse_min conv text))

module _ {V : Type 0} (json : Json V) (conv : Conversions) where
  unfoldable pub bulle_text : Option String → BulleFormat → BulleFormat × Bool
  unfolding parse_bulle
  bulle_text none old = (old, false)
  bulle_text (some text) old =
      if len text == 4 then get (parse_bulle conv text) old else (old, false)

  unfoldable pub bulle_member : Option V → BulleFormat → BulleFormat × Bool
  unfolding parse_bulle bulle_text
  bulle_member none old = get (parse_bulle conv default_tst_msg) old
  bulle_member (some x) old = bulle_text (json.as_string x) old

  unfoldable pub retrieve_bulle : V → String → BulleFormat → BulleFormat × Bool
  unfolding bulle_member
  retrieve_bulle v key old = bulle_member (json.member v key) old

  unfoldable pub schedule_text : Option String → GiScheduleFormat → GiScheduleFormat × Bool
  unfolding parse_schedule
  schedule_text none old = (old, false)
  schedule_text (some text) old = get (parse_schedule conv text) old

  unfoldable pub schedule_member : Option V → GiScheduleFormat → GiScheduleFormat × Bool
  unfolding schedule_text
  schedule_member none old = (no_schedule, true)
  schedule_member (some x) old = schedule_text (json.as_string x) old

  unfoldable pub retrieve_schedule : V → String → GiScheduleFormat → GiScheduleFormat × Bool
  unfolding schedule_member
  retrieve_schedule v key old = schedule_member (json.member v key) old
