-- ===== src/Link/Steady.antt =====
-- The operations of one path (src/hnzpath.cpp), by what they change of its states and of what its
-- queues may send.
use fledge_south_hnz.Prelude.{
  ℕ, ◌==◌, String, ◌≡◌, refl, sym, ap, All, Bool, true, false, List, [], ◌∷◌, ℤ, pos, if-both,
}
use mathlib.Core.Path.{subst}
use fledge_south_hnz.State.Link.{HnzPath, PathConf, Message, ProtocolState, ConnectionState}
use fledge_south_hnz.State.Clock.{Tm}
use fledge_south_hnz.Path.Send.{
  may_send, is_format, send_info, send_sarm, send_ua, send_bulle, repeat_first,
}
use fledge_south_hnz.Path.Ack.{is_nr_valid, received_rr, reply_rr, send_rr}
use fledge_south_hnz.Path.Commands.{
  register_command_if_sent, send_tc_command, send_tvc_command, send_date_setting, send_time_setting,
  date_frame, time_frame, tc_frame, tvc_frame,
}
use fledge_south_hnz.Path.Fifo.{CanSend, nr_accepted-CanSend}
use fledge_south_hnz.Path.Queueing.{send_info-CanSend, repeat_first-CanSend}
use fledge_south_hnz.Link.Invariant.{IsLocal}
use fledge_south_hnz.Link.Local.{
  IsLocal-refl, IsLocal-trans, send_info-IsLocal, received_rr-IsLocal, repeat_first-IsLocal,
}

-- The states are kept, and every queued message may still be sent.
pub record Steady (p q : HnzPath) : Type 0 where
  pub local : IsLocal p q
  pub queues : CanSend p → CanSend q

pub Steady-refl : (p : HnzPath) → Steady p p
Steady-refl p = record { local = IsLocal-refl p; queues = λ c. c }

pub Steady-trans : {p q r : HnzPath} → Steady p q → Steady q r → Steady p r
Steady-trans f g = record {
  local = IsLocal-trans f.local g.local;
  queues = λ c. g.queues (f.queues c);
}

-- What the two relations read of a path.
pub record View : Type 0 where
  pub conf : PathConf
  pub protocol : ProtocolState
  pub activity : ConnectionState
  pub created : Bool
  pub sent : List Message
  pub waiting : List Message

abbrev pub view : HnzPath → View
view p = record {
  conf = p.conf;
  protocol = p.protocol_state;
  activity = p.connection_state;
  created = p.created;
  sent = p.msg_sent;
  waiting = p.msg_waiting;
}

abbrev ViewSent : View → Type 0
ViewSent v = All (λ m. may_send v.protocol (is_format v.conf.test_msg_send m.payload) ≡ true) v.sent

abbrev ViewWaiting : View → Type 0
ViewWaiting v =
    All (λ m. may_send v.protocol (is_format v.conf.test_msg_send m.payload) ≡ true) v.waiting

-- An update of other fields.
pub view-Steady : {p q : HnzPath} → view p ≡ view q → Steady p q
view-Steady {p} {q} e = record {
  local = record {
    protocol = sym (ap (λ (v : View). v.protocol) e);
    activity = sym (ap (λ (v : View). v.activity) e);
    made = sym (ap (λ (v : View). v.created) e);
  };
  queues = λ c. record { sent = subst ViewSent e c.sent; waiting = subst ViewWaiting e c.waiting };
}

pub send_info-Steady : (now : ℕ) (p : HnzPath) (msg : List ℕ) → Steady p (send_info now p msg).0
send_info-Steady now p msg = record {
  local = send_info-IsLocal now p msg;
  queues = send_info-CanSend now p msg;
}

pub repeat_first-Steady : (now : ℕ) (p : HnzPath) → Steady p (repeat_first now p)
repeat_first-Steady now p = record {
  local = repeat_first-IsLocal now p;
  queues = repeat_first-CanSend now p;
}

received_rr-CanSend :
    (now : ℕ) (p : HnzPath) (nr : ℕ) (repetition : Bool)
    → CanSend p
    → CanSend (received_rr now p nr repetition).0
unfolding received_rr
received_rr-CanSend now p nr repetition c =
    if-both (λ (r : HnzPath × Bool). CanSend r.0) _ (p, true) _ c
      (if-both (λ (r : HnzPath × Bool). CanSend r.0) (is_nr_valid p.nrr p.ns nr) _ (p, false)
        (if-both (λ (r : HnzPath × Bool). CanSend r.0) _ _ (p, false)
          (nr_accepted-CanSend now p nr c) c)
        c)

pub received_rr-Steady :
    (now : ℕ) (p : HnzPath) (nr : ℕ) (repetition : Bool)
    → Steady p (received_rr now p nr repetition).0
received_rr-Steady now p nr repetition = record {
  local = received_rr-IsLocal now p nr repetition;
  queues = received_rr-CanSend now p nr repetition;
}

reply_rr-Steady :
    (now : ℕ) (p : HnzPath) (repetition : Bool) (ns : ℕ) → Steady p (reply_rr now p repetition ns)
unfolding reply_rr
reply_rr-Steady now p repetition ns =
    if-both (λ (q : HnzPath). Steady p (record q { last_msg_time = now })) (ns == p.nr) _ _
      (view-Steady refl)
      (if-both (λ (q : HnzPath). Steady p (record q { last_msg_time = now })) repetition _ p
        (view-Steady refl) (view-Steady refl))

pub send_rr-Steady :
    (now : ℕ) (p : HnzPath) (repetition : Bool) (ns nr : ℕ)
    → Steady p (send_rr now p repetition ns nr).0
unfolding send_rr
send_rr-Steady now p repetition ns nr =
    let q : HnzPath = (received_rr now p nr false).0 in
    let s : Steady p q = received_rr-Steady now p nr false in
    if-both (λ (r : HnzPath × Bool). Steady p r.0) (received_rr now p nr false).1
      (reply_rr now q repetition ns, true) (q, false)
      (Steady-trans s (reply_rr-Steady now q repetition ns)) s

pub send_bulle-Steady : (now : ℕ) (p : HnzPath) → Steady p (send_bulle now p)
unfolding send_bulle
send_bulle-Steady now p =
    send_info-Steady now p (p.test_msg_send.first ∷ p.test_msg_send.second ∷ [])

pub send_sarm-Steady : (now : ℕ) (p : HnzPath) → Steady p (send_sarm now p)
unfolding send_sarm
send_sarm-Steady now p = view-Steady refl

pub send_ua-Steady : (now : ℕ) (p : HnzPath) → Steady p (send_ua now p)
unfolding send_ua
send_ua-Steady now p = view-Steady refl

pub send_date_setting-Steady :
    (now : ℕ) (t : Tm) (p : HnzPath) → Steady p (send_date_setting now t p)
unfolding send_date_setting
send_date_setting-Steady now t p = send_info-Steady now p (date_frame p.codes t)

pub send_time_setting-Steady :
    (now : ℕ) (t : Tm) (p : HnzPath) → Steady p (send_time_setting now t p)
unfolding send_time_setting
send_time_setting-Steady now t p = send_info-Steady now p (time_frame p.codes now t)

register_command_if_sent-Steady :
    (now : ℕ) (p : HnzPath) (kind : String) (sent : Bool) (address : ℤ)
    → Steady p (register_command_if_sent now p kind sent address)
unfolding register_command_if_sent
register_command_if_sent-Steady now p kind sent address =
    if-both (Steady p) sent _ p (view-Steady refl) (Steady-refl p)

pub send_tc_command-Steady :
    (now : ℕ) (p : HnzPath) (address : ℤ) (value : ℕ)
    → Steady p (send_tc_command now p address value).0
unfolding send_tc_command
send_tc_command-Steady now p address value =
    Steady-trans (send_info-Steady now p (tc_frame p.codes address value))
      (register_command_if_sent-Steady now _ "TC" _ address)

pub send_tvc_command-Steady :
    (now : ℕ) (p : HnzPath) (address : ℕ) (value : ℤ)
    → Steady p (send_tvc_command now p address value).0
unfolding send_tvc_command
send_tvc_command-Steady now p address value =
    Steady-trans (send_info-Steady now p (tvc_frame p.codes address value))
      (register_command_if_sent-Steady now _ "TVC" _ (pos address))
