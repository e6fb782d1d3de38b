-- ===== src/Conf/Bounds.antt =====
-- The ranges of the formats of the settings (src/hnzconf.cpp).
use Prim.Native.String.{len, slice}
use fledge_south_hnz.Prelude.{
  ℕ, ◌%◌, ◌<◌, ◌≡◌, refl, ◌==◌, ◌||◌, ltb, ltb→lt, false, not, ◌⊎◌, inl, inr, if-when, if-both,
  String, str_eq, Option, none, some, ℤ, pos, negsuc, arith, if◌then◌else◌,
}
use fledge_south_hnz.State.Conf.{HnzConf, BulleFormat, GiScheduleFormat}
use fledge_south_hnz.Conf.Json.{Json, Conversions, default_tst_msg, default_gi_schedule}
use fledge_south_hnz.Conf.Retrieve.{
  get, parse_bulle, parse_schedule, parse_hour, parse_min, no_schedule, schedule_of, bytes_of,
  number_below, bulle_text, bulle_member, schedule_text, schedule_member, below,
}

-- A time of the day, or no scheduled GI.
abbrev pub IsSchedule : GiScheduleFormat → Type 0
IsSchedule g = (g.activate ≡ false) ⊎ ((g.hour < 24) × (g.min < 60))

abbrev pub IsBytes : BulleFormat → Type 0
IsBytes b = (b.first < 256) × (b.second < 256)

-- What the formats of the settings promise.
abbrev pub InRange : HnzConf → Type 0
InRange c = IsSchedule c.gi_schedule × (IsBytes c.test_msg_send × IsBytes c.test_msg_receive)

-- Of a value, if there is one.
abbrev pub Sure {ℓ} : {A : Type ℓ} → (A → Type 0) → Option A → Type 0
Sure P none = Unit
Sure P (some a) = P a

get-Sure {ℓ} :
    {A : Type ℓ} (P : A → Type 0) (o : Option A) (old : A) → Sure P o → P old → P (get o old).0
get-Sure P none old h p = p
get-Sure P (some a) old h p = h

below-Sure : (bound : ℕ) (z : ℤ) → Sure (λ n. n < bound) (below bound z)
below-Sure bound (pos m) =
    if-when (Sure (λ n. n < bound)) (ltb m bound) (some m) none (λ t. ltb→lt m bound t) tt
below-Sure bound (negsuc m) = tt

byte_lt : (n : ℕ) → n % 256 < 256
byte_lt n = omega arith

bytes_of-Sure : (x y : Option ℕ) → Sure IsBytes (bytes_of x y)
bytes_of-Sure none y = tt
bytes_of-Sure (some x) none = tt
bytes_of-Sure (some x) (some y) = (byte_lt x, byte_lt y)

number_below-Sure : (bound : ℕ) (o : Option ℤ) → Sure (λ n. n < bound) (number_below bound o)
number_below-Sure bound none = tt
number_below-Sure bound (some z) = below-Sure bound z

parse_bulle-Sure : (conv : Conversions) (text : String) → Sure IsBytes (parse_bulle conv text)
unfolding parse_bulle
parse_bulle-Sure conv text =
    bytes_of-Sure (conv.stoul 16 (slice text 0 2)) (conv.stoul 16 (slice text 2 (len text)))

schedule_of-Sure :
    (h m : Option ℕ)
    → Sure (λ x. x < 24) h
    → Sure (λ x. x < 60) m
    → Sure IsSchedule (schedule_of h m)
schedule_of-Sure none m p q = tt
schedule_of-Sure (some h) none p q = tt
schedule_of-Sure (some h) (some m) p q = inr (p, q)

parse_schedule-Sure :
    (conv : Conversions) (text : String) → Sure IsSchedule (parse_schedule conv text)
unfolding parse_schedule parse_hour parse_min
parse_schedule-Sure conv text =
    let timed = schedule_of (parse_hour conv text) (parse_min conv text) in
    let malformed = not (len text == 5) || not (str_eq (slice text 2 3) ":") in
    if-both (Sure IsSchedule) (str_eq text default_gi_schedule) (some no_schedule)
      (if malformed then none else timed) (inl refl)
      (if-both (Sure IsSchedule) malformed none timed tt (
        schedule_of-Sure (parse_hour conv text) (parse_min conv text)
          (number_below-Sure 24 (conv.stoi (slice text 0 2)))
          (number_below-Sure 60 (conv.stoi (slice text 3 (len text))))))

module _ {V : Type 0} (json : Json V) (conv : Conversions) where
  bulle_text-IsBytes :
      (o : Option String) (old : BulleFormat) → IsBytes old → IsBytes (bulle_text json conv o old).0
  unfolding bulle_text
  bulle_text-IsBytes none old p = p
  bulle_text-IsBytes (some text) old p =
      if-both (λ r. IsBytes r.0) (len text == 4) (get (parse_bulle conv text) old) (old, false)
        (get-Sure IsBytes (parse_bulle conv text) old (parse_bulle-Sure conv text) p) p

  pub bulle_member-IsBytes :
      (o : Option V) (old : BulleFormat) → IsBytes old → IsBytes (bulle_member json conv o old).0
  unfolding bulle_member
  bulle_member-IsBytes none old p =
      get-Sure IsBytes (parse_bulle conv default_tst_msg) old
        (parse_bulle-Sure conv default_tst_msg) p
  bulle_member-IsBytes (some x) old p = bulle_text-IsBytes (json.as_string x) old p

  schedule_text-IsSchedule :
      (o : Option String) (old : GiScheduleFormat)
      → IsSchedule old
      → IsSchedule (schedule_text json conv o old).0
  unfolding schedule_text
  schedule_text-IsSchedule none old p = p
  schedule_text-IsSchedule (some text) old p =
      get-Sure IsSchedule (parse_schedule conv text) old (parse_schedule-Sure conv text) p

  pub schedule_member-IsSchedule :
      (o : Option V) (old : GiScheduleFormat)
      → IsSchedule old
      → IsSchedule (schedule_member json conv o old).0
  unfolding schedule_member
  schedule_member-IsSchedule none old p = inl refl
  schedule_member-IsSchedule (some x) old p = schedule_text-IsSchedule (json.as_string x) old p
