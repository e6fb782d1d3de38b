-- ===== src/Path/Commands.antt =====
-- Commands and init messages of a path (src/hnzpath.cpp), and the timer of the commands
-- (`HNZConnection::m_check_command_timer`, src/hnzconnection.cpp). An `int` is a ℤ, a byte a number.
use fledge_south_hnz.Prelude.{
  ℕ, suc, ◌+◌, ◌*◌, ◌/◌, ◌%◌, ◌^◌, ltb, ◌==◌, if◌then◌else◌, Bool, false, ◌&&◌, String, str_eq,
  List, [], ◌∷◌, u8, shr, low_bits, ℤ, pos, negsuc, abs,
}
use fledge_south_hnz.State.Conf.{Codes}
use fledge_south_hnz.State.Link.{HnzPath, CommandMessage}
use fledge_south_hnz.State.Clock.{Tm}
use fledge_south_hnz.Path.Send.{send_info}

unfoldable pub date_frame : Codes → Tm → List ℕ
date_frame c t = c.setdate_code ∷ u8 t.tm_mday ∷ u8 (t.tm_mon + 1) ∷ u8 (t.tm_year % 100) ∷ []

-- The number of ten minutes since midnight.
abbrev pub mod10m : Tm → ℕ
mod10m t = t.tm_hour * 6 + t.tm_min / 10

-- The time since then, in units of 10 ms.
abbrev pub frac : ℕ → ℕ
frac now = now % 600000 / 10

unfoldable pub time_frame : Codes → ℕ → Tm → List ℕ
time_frame c now t =
    c.settime_code ∷ low_bits (mod10m t) 8 ∷ u8 (shr (frac now) 8) ∷ low_bits (frac now) 8 ∷ 0 ∷ []

unfoldable pub gi_frame : List ℕ
gi_frame = 0x13 ∷ 0x01 ∷ []

unfoldable pub tvc_frame : Codes → ℕ → ℤ → List ℕ
tvc_frame c address value =
    c.tvc_code ∷ low_bits address 5 ∷ low_bits (abs value) 7 ∷ sign value ∷ []
  where
    sign : ℤ → ℕ
    sign (pos n) = 0
    sign (negsuc n) = 0x80

-- `stoi` of "0" and all digits of an address but the last: the minus sign ends the number.
unfoldable pub leading_digits : ℤ → ℕ
leading_digits (pos n) = n / 10
leading_digits (negsuc n) = 0

unfoldable pub last_digit : ℤ → ℕ
last_digit (pos n) = n % 10
last_digit (negsuc n) = suc n % 10

-- The two parts of the last byte share no bit, so that `|` is a sum.
unfoldable pub tc_frame : Codes → ℤ → ℕ → List ℕ
unfolding leading_digits last_digit
tc_frame c address value =
    c.tc_code
    ∷ u8 (leading_digits address)
    ∷ u8 (low_bits value 2 * 2 ^ 3 + last_digit address * 2 ^ 5)
    ∷ []

unfoldable pub register_command_if_sent : ℕ → HnzPath → String → Bool → ℤ → HnzPath
register_command_if_sent now p kind sent address =
    if sent
    then record p {
      command_sent =
          record { kind = kind; addr = address; timestamp_max = now + p.c_ack_time_max }
          ∷ p.command_sent;
    }
    else p

unfoldable pub send_tvc_command : ℕ → HnzPath → ℕ → ℤ → HnzPath × Bool
send_tvc_command now p address value =
    let (q, sent) = send_info now p (tvc_frame p.codes address value) in
    (register_command_if_sent now q "TVC" sent (pos address), sent)

unfoldable pub send_tc_command : ℕ → HnzPath → ℤ → ℕ → HnzPath × Bool
send_tc_command now p address value =
    let (q, sent) = send_info now p (tc_frame p.codes address value) in
    (register_command_if_sent now q "TC" sent address, sent)

unfoldable pub send_date_setting : ℕ → Tm → HnzPath → HnzPath
send_date_setting now t p = (send_info now p (date_frame p.codes t)).0

unfoldable pub send_time_setting : ℕ → Tm → HnzPath → HnzPath
send_time_setting now t p = (send_info now p (time_frame p.codes now t)).0

unfoldable pub addr_eq : ℤ → ℕ → Bool
addr_eq (pos n) a = n == a
addr_eq (negsuc n) a = false

-- Does a pending command have this type and address?
abbrev pub is_command : String → ℕ → CommandMessage → Bool
is_command kind addr c = str_eq c.kind kind && addr_eq c.addr addr

unfoldable pub erase_commands : String → ℕ → List CommandMessage → List CommandMessage
erase_commands kind addr [] = []
erase_commands kind addr (c ∷ cs) =
    let rest = erase_commands kind addr cs in if is_command kind addr c then rest else c ∷ rest

unfoldable pub received_command_ack : HnzPath → String → ℕ → HnzPath
received_command_ack p kind addr = record p {
  command_sent = erase_commands kind addr p.command_sent;
}

unfoldable pub erase_expired : ℕ → List CommandMessage → List CommandMessage
erase_expired current [] = []
erase_expired current (c ∷ cs) =
    let rest = erase_expired current cs in if ltb c.timestamp_max current then rest else c ∷ rest

unfoldable pub check_command_timer : ℕ → HnzPath → HnzPath
check_command_timer current p = record p { command_sent = erase_expired current p.command_sent }
