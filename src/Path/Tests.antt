-- ===== src/Path/Tests.antt =====
-- The theorems on one path at concrete inputs (src/hnzpath.cpp).
use fledge_south_hnz.Prelude.{
  ◌%◌, ◌≡◌, refl, leb, true, false, [], ◌∷◌, some, none, take, drop, arith,
}
use fledge_south_hnz.Path.Send.{may_send, send_info, repeat_first}
use fledge_south_hnz.Path.Ack.{is_nr_valid, nr_offset, nr_accepted, send_rr}
use fledge_south_hnz.Path.Extract.{starts_bulle, extract_messages}
use fledge_south_hnz.Path.Window.{
  is_nr_valid-eq-window, InWindow, send_info-InWindow, send_rr-InWindow, repeat_first_loses_window,
}
use fledge_south_hnz.Path.Fifo.{CanSend, outgoing, nr_accepted-outgoing}
use fledge_south_hnz.Path.Queueing.{repeat_first-CanSend, send_info-repeat_overtakes}
use fledge_south_hnz.Path.Extraction.{
  Distinct, tsce, tscg, bulle, concat, extract_messages-concat, extract_messages-truncated,
  extract_messages-split,
}
use fledge_south_hnz.Prelude.{pos}
use fledge_south_hnz.State.Link.{HnzPath}
use fledge_south_hnz.Path.Commands.{received_command_ack, check_command_timer}
use fledge_south_hnz.Path.Pending.{
  Without, IsFor, IsLate, received_command_ack-Without, check_command_timer-Without,
}
use fledge_south_hnz.Path.Samples.{codes, bulle_format, message, busy_path, idle_path}

is_nr_valid-eq-window_example : is_nr_valid 6 1 7 ≡ leb (nr_offset 6 7) (nr_offset 6 1)
is_nr_valid-eq-window_example =
    is_nr_valid-eq-window 6 1 7 (omega arith) (omega arith) (omega arith)

busy_path-InWindow : InWindow busy_path
busy_path-InWindow = record {
  nr_small = omega arith;
  nrr_small = omega arith;
  within = omega arith;
  numbered = (refl, (refl, (refl, tt)));
  closed = refl;
}

send_info-InWindow_example : InWindow (send_info 5000 busy_path (0x13 ∷ 0x01 ∷ [])).0
send_info-InWindow_example = send_info-InWindow 5000 busy_path (0x13 ∷ 0x01 ∷ []) busy_path-InWindow

send_rr-InWindow_example : InWindow (send_rr 5000 busy_path false 2 0).0
send_rr-InWindow_example =
    send_rr-InWindow 5000 busy_path false 2 0 (omega arith) (omega arith) busy_path-InWindow

repeat_first_loses_window_example :
    ((repeat_first 5000 busy_path).msg_sent ≡ message 6 0x19 ∷ [])
    × (((repeat_first 5000 busy_path).msg_waiting
          ≡ message 7 0x1A ∷ message 0 0x1B ∷ busy_path.msg_waiting)
        × (((repeat_first 5000 busy_path).ns ≡ 1)
            × ((¬ (1 ≡ 7 % 8)) × (¬ InWindow (repeat_first 5000 busy_path)))))
repeat_first_loses_window_example =
    repeat_first_loses_window 5000 busy_path (message 6 0x19) (message 7 0x1A) (message 0 0x1B ∷ [])
      refl (omega arith) busy_path-InWindow

busy_path-CanSend : CanSend busy_path
unfolding may_send
busy_path-CanSend = record { sent = (refl, (refl, (refl, tt))); waiting = (refl, (refl, tt)) }

nr_accepted-outgoing_example : outgoing (nr_accepted 5000 busy_path 0) ≡ drop 2 (outgoing busy_path)
nr_accepted-outgoing_example = nr_accepted-outgoing 5000 busy_path 0 busy_path-CanSend (omega arith)

repeat_first-CanSend_example : CanSend (repeat_first 5000 busy_path)
repeat_first-CanSend_example = repeat_first-CanSend 5000 busy_path busy_path-CanSend

send_info-repeat_overtakes_example :
    outgoing (send_info 6000 (repeat_first 5000 busy_path) (0x13 ∷ 0x01 ∷ [])).0
    ≡ (0x19 ∷ 1 ∷ [])
      ∷ (0x13 ∷ 0x01 ∷ [])
      ∷ (0x1A ∷ 1 ∷ [])
      ∷ (0x1B ∷ 1 ∷ [])
      ∷ (0x1C ∷ 1 ∷ [])
      ∷ (0x1D ∷ 1 ∷ [])
      ∷ []
unfolding may_send
send_info-repeat_overtakes_example =
    send_info-repeat_overtakes 5000 6000 busy_path (0x13 ∷ 0x01 ∷ []) (message 6 0x19)
      (message 7 0x1A) (message 0 0x1B ∷ []) refl (omega arith) refl

codes-Distinct : Distinct codes bulle_format
codes-Distinct = ground arith

-- A TSCE and a BULLE in one frame, before the two bytes of the CRC.
extract_messages-concat_example :
    extract_messages codes bulle_format
      (0x0B ∷ 0x33 ∷ 0x28 ∷ 0x36 ∷ 0xF2 ∷ 0x13 ∷ 0x04 ∷ 0xAA ∷ 0xBB ∷ [])
      7
    ≡ some (record {
      messages = (0x0B ∷ 0x33 ∷ 0x28 ∷ 0x36 ∷ 0xF2 ∷ []) ∷ (0x13 ∷ 0x04 ∷ []) ∷ [];
      bulle = true;
    })
unfolding starts_bulle
extract_messages-concat_example =
    extract_messages-concat codes-Distinct (0xAA ∷ 0xBB ∷ [])
      (0x0B ∷ 0x33 ∷ 0x28 ∷ 0x36 ∷ 0xF2 ∷ []) ((0x13 ∷ 0x04 ∷ []) ∷ [])
      (tsce 0x33 0x28 0x36 0xF2, (bulle, tt))

-- A TSCG of six bytes of which four are in the frame.
extract_messages-truncated_example :
    extract_messages codes bulle_format (0x16 ∷ 0x33 ∷ 0x10 ∷ 0x00 ∷ 0xAA ∷ 0xBB ∷ []) 4 ≡ none
extract_messages-truncated_example =
    extract_messages-truncated codes-Distinct (0xAA ∷ 0xBB ∷ []) (0x16 ∷ 0x33 ∷ 0x10 ∷ 0x00 ∷ [])
      (0x04 ∷ 0x00 ∷ []) (tscg 0x33 0x10 0x00 0x04 0x00) (omega arith) (omega arith)

extract_messages-split_example :
    concat ((0x0B ∷ 0x33 ∷ 0x28 ∷ 0x36 ∷ 0xF2 ∷ []) ∷ (0x13 ∷ 0x04 ∷ []) ∷ [])
    ≡ take 7 (0x0B ∷ 0x33 ∷ 0x28 ∷ 0x36 ∷ 0xF2 ∷ 0x13 ∷ 0x04 ∷ 0xAA ∷ 0xBB ∷ [])
extract_messages-split_example =
    extract_messages-split codes bulle_format
      (0x0B ∷ 0x33 ∷ 0x28 ∷ 0x36 ∷ 0xF2 ∷ 0x13 ∷ 0x04 ∷ 0xAA ∷ 0xBB ∷ []) 7
      (record {
        messages = (0x0B ∷ 0x33 ∷ 0x28 ∷ 0x36 ∷ 0xF2 ∷ []) ∷ (0x13 ∷ 0x04 ∷ []) ∷ [];
        bulle = true;
      })
      extract_messages-concat_example

-- Two commands wait, one of them for too long.
abbrev commanded_path : HnzPath
commanded_path = record idle_path {
  command_sent =
      record { kind = "TC"; addr = pos 511; timestamp_max = 11000 }
      ∷ record { kind = "TVC"; addr = pos 31; timestamp_max = 9000 }
      ∷ [];
}

received_command_ack-Without_example :
    Without
      (IsFor "TC" 511)
      commanded_path.command_sent
      (received_command_ack commanded_path "TC" 511).command_sent
received_command_ack-Without_example = received_command_ack-Without commanded_path "TC" 511

check_command_timer-Without_example :
    Without
      (IsLate 10000)
      commanded_path.command_sent
      (check_command_timer 10000 commanded_path).command_sent
check_command_timer-Without_example = check_command_timer-Without 10000 commanded_path
