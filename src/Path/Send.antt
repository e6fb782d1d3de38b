-- ===== src/Path/Send.antt =====
-- Sending on a path (src/hnzpath.cpp): frames, information messages, repeats, resets. `now` is the
-- clock, which an operation reads once.
use fledge_south_hnz.Prelude.{
  ℕ, ◌+◌, ◌*◌, ◌%◌, ltb, ◌==◌, if◌then◌else◌, Bool, true, false, ◌&&◌, List, [], ◌∷◌, ◌++◌, length,
  is_empty, u8, ◌≡◌, ap,
}
use fledge_south_hnz.State.Conf.{BulleFormat}
use fledge_south_hnz.State.Link.{
  HnzPath, Message, create_and_send, stop, ProtocolState, output_connected, connected,
}

unfoldable pub send_frame : ℕ → HnzPath → List ℕ → Bool → HnzPath
send_frame now p msg use_pa_addr = record p {
  client_calls =
      create_and_send (if use_pa_addr then p.address_pa else p.address_arp) msg ∷ p.client_calls;
  last_msg_sent_time = now;
}

unfoldable pub is_format : BulleFormat → List ℕ → Bool
is_format f (x ∷ y ∷ []) = x == f.first && y == f.second
is_format f _ = false

abbrev pub is_bulle : HnzPath → List ℕ → Bool
is_bulle p msg = is_format p.test_msg_send msg

-- The test `CONNECTED || (OUTPUT_CONNECTED && isBULLE)` on which a message may be sent.
unfoldable pub may_send : ProtocolState → Bool → Bool
may_send connected bulle = true
may_send output_connected bulle = bulle
may_send _ bulle = false

-- The control byte of an information frame.
abbrev pub info_byte : ℕ → ℕ → ℕ
info_byte nr ns = u8 (nr * 0x20 + ns * 0x2)

-- The state after the frame has gone out: the timer starts with the first unacknowledged message.
unfoldable pub push_sent : ℕ → HnzPath → Message → HnzPath
unfolding send_frame
push_sent now p message =
    let sent = send_frame now p (info_byte p.nr p.ns ∷ message.payload) false in
    record sent {
      last_sent_time = if is_empty p.msg_sent then now else p.last_sent_time;
      msg_sent = p.msg_sent ++ (record message { ns = p.ns } ∷ []);
      ns = (p.ns + 1) % 8;
    }

unfoldable pub send_info_immediately : ℕ → HnzPath → Message → HnzPath × Bool
unfolding may_send push_sent is_format
send_info_immediately now p message =
    if may_send p.protocol_state (is_bulle p message.payload)
    then (push_sent now p message, true)
    else (p, false)

unfoldable pub send_info : ℕ → HnzPath → List ℕ → HnzPath × Bool
unfolding send_info_immediately
send_info now p msg =
    if may_send p.protocol_state (is_bulle p msg)
    then (if ltb (length p.msg_sent) p.anticipation_ratio
        then send_info_immediately now p message
        else (record p { msg_waiting = p.msg_waiting ++ (message ∷ []) }, false))
    else (p, false)
  where
    message : Message
    message = record { ns = 0; payload = msg }

unfoldable pub send_sarm : ℕ → HnzPath → HnzPath
unfolding send_frame
send_sarm now p =
    let sent = send_frame now p (p.codes.sarm_code ∷ []) false in
    record sent { nbr_sarm_sent = p.nbr_sarm_sent + 1; last_sarm_sent_time = now }

unfoldable pub send_ua : ℕ → HnzPath → HnzPath
unfolding send_frame
send_ua now p = send_frame now p (p.codes.ua_code ∷ []) true

unfoldable pub send_bulle : ℕ → HnzPath → HnzPath
unfolding send_info
send_bulle now p = (send_info now p (p.test_msg_send.first ∷ p.test_msg_send.second ∷ [])).0

-- `m_receivedBULLE`.
unfoldable pub received_bulle : ℕ → HnzPath → HnzPath
received_bulle now p = record p { last_msg_time = now }

-- `sendBackInfo` of the first unacknowledged message, with the repetition bit.
unfoldable pub send_back_info : ℕ → HnzPath → Message → HnzPath
unfolding send_frame
send_back_info now p message =
    let again = record p { repeats = p.repeats + 1 } in
    let sent =
      send_frame now again (u8 (p.nr * 0x20 + 0x10 + message.ns * 0x2) ∷ message.payload) false in
    record sent { last_sent_time = now }

-- The path after the repeat of `m`, with the other unacknowledged messages in front of the queue.
abbrev pub repeated : ℕ → HnzPath → Message → List Message → HnzPath
repeated now p m ms = record (send_back_info now p m) {
  msg_sent = m ∷ [];
  msg_waiting = ms ++ p.msg_waiting;
}

repeat_sent : ℕ → HnzPath → List Message → HnzPath
repeat_sent now p [] = p
repeat_sent now p (m ∷ ms) = repeated now p m ms

-- The repeat branch of `HNZConnection::m_check_timer`: the first unacknowledged message is sent
-- back, and the loop from the back of `msg_sent` puts the others in front of the waiting queue.
unfoldable pub repeat_first : ℕ → HnzPath → HnzPath
unfolding repeat_sent send_back_info
repeat_first now p = repeat_sent now p p.msg_sent

pub repeat_first-cons :
    (now : ℕ) (p : HnzPath) (m : Message) (ms : List Message)
    → p.msg_sent ≡ m ∷ ms
    → repeat_first now p ≡ repeated now p m ms
unfolding repeat_first
repeat_first-cons now p m ms e = ap (repeat_sent now p) e

pub repeat_first-nil : (now : ℕ) (p : HnzPath) → p.msg_sent ≡ [] → repeat_first now p ≡ p
unfolding repeat_first
repeat_first-nil now p e = ap (repeat_sent now p) e

unfoldable pub stop_tcp : HnzPath → HnzPath
stop_tcp p = record p { client_calls = stop ∷ p.client_calls }

unfoldable pub reset_sarm_counters : ℕ → HnzPath → HnzPath
reset_sarm_counters now p = record p { nbr_sarm_sent = 0; last_msg_time = now }

unfoldable pub reset_output_variables : HnzPath → HnzPath
reset_output_variables p = record p { ns = 0; nrr = 0; repeats = 0 }

unfoldable pub reset_input_variables : ℕ → HnzPath → HnzPath
reset_input_variables now p = record p { nr = 0; last_msg_time = now }

unfoldable pub discard_messages : HnzPath → HnzPath
discard_messages p = record p { msg_sent = []; msg_waiting = [] }
