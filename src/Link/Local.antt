-- ===== src/Link/Local.antt =====
-- The operations of one path (src/hnzpath.cpp), by what they change of its protocol state and its
-- connection state.
use fledge_south_hnz.Prelude.{
  ℕ, zero, suc, refl, ◌∙◌, Bool, false, Bool-cases, List-cases, inl, inr, List, [], ◌∷◌, ℤ, arith,
}
use fledge_south_hnz.State.Link.{HnzPath, Message}
use fledge_south_hnz.State.Clock.{Tm}
use fledge_south_hnz.Path.Send.{
  push_sent, send_info_immediately, send_info, send_sarm, send_ua, send_bulle, send_back_info,
  repeat_first, repeat_first-cons, repeat_first-nil,
}
use fledge_south_hnz.Path.Ack.{
  can_drain, drain_round, drain, nr_accepted, received_rr, reply_rr, send_rr,
}
use fledge_south_hnz.Path.Commands.{
  register_command_if_sent, send_tc_command, send_tvc_command, send_date_setting, send_time_setting,
  tc_frame, tvc_frame,
}
use fledge_south_hnz.Link.Invariant.{IsLocal}

pub IsLocal-refl : (p : HnzPath) → IsLocal p p
IsLocal-refl p = record { protocol = refl; activity = refl; made = refl }

pub IsLocal-trans : {p q r : HnzPath} → IsLocal p q → IsLocal q r → IsLocal p r
IsLocal-trans f g = record {
  protocol = g.protocol ∙ f.protocol;
  activity = g.activity ∙ f.activity;
  made = g.made ∙ f.made;
}

pub send_info_immediately-IsLocal :
    (now : ℕ) (p : HnzPath) (m : Message) → IsLocal p (send_info_immediately now p m).0
unfolding send_info_immediately push_sent
send_info_immediately-IsLocal now p m = ground arith

pub send_info-IsLocal : (now : ℕ) (p : HnzPath) (msg : List ℕ) → IsLocal p (send_info now p msg).0
unfolding send_info push_sent
send_info-IsLocal now p msg = ground arith

drain_round-IsLocal : (now : ℕ) (p : HnzPath) → IsLocal p (drain_round now p)
unfolding drain_round send_info_immediately push_sent
drain_round-IsLocal now p = ground arith

drain-IsLocal : (now fuel : ℕ) (p : HnzPath) → IsLocal p (drain now fuel p)
unfolding drain
drain-IsLocal now zero p = IsLocal-refl p
drain-IsLocal now (suc fuel) p = elim (Bool-cases (can_drain p)) [
  | inl go ↦
      rw go (IsLocal-trans (drain_round-IsLocal now p) (drain-IsLocal now fuel (drain_round now p)))
  | inr end ↦ rw end (IsLocal-refl p)
]

nr_accepted-IsLocal : (now : ℕ) (p : HnzPath) (nr : ℕ) → IsLocal p (nr_accepted now p nr)
unfolding nr_accepted
nr_accepted-IsLocal now p nr =
    IsLocal-trans (record { protocol = refl; activity = refl; made = refl }) (drain-IsLocal now _ _)

pub received_rr-IsLocal :
    (now : ℕ) (p : HnzPath) (nr : ℕ) (repetition : Bool)
    → IsLocal p (received_rr now p nr repetition).0
unfolding received_rr
received_rr-IsLocal now p nr repetition = ground (arith, nr_accepted-IsLocal now p nr)

pub send_rr-IsLocal :
    (now : ℕ) (p : HnzPath) (repetition : Bool) (ns nr : ℕ)
    → IsLocal p (send_rr now p repetition ns nr).0
unfolding send_rr reply_rr
send_rr-IsLocal now p repetition ns nr = ground (arith, received_rr-IsLocal now p nr false)

pub repeat_first-IsLocal : (now : ℕ) (p : HnzPath) → IsLocal p (repeat_first now p)
unfolding send_back_info
repeat_first-IsLocal now p = elim (List-cases p.msg_sent) [
  | inl e ↦ rw (repeat_first-nil now p e) (IsLocal-refl p)
  | inr (m, ms, e) ↦
      rw (repeat_first-cons now p m ms e) (record { protocol = refl; activity = refl; made = refl })
]

pub send_bulle-IsLocal : (now : ℕ) (p : HnzPath) → IsLocal p (send_bulle now p)
unfolding send_bulle
send_bulle-IsLocal now p =
    send_info-IsLocal now p (p.test_msg_send.first ∷ p.test_msg_send.second ∷ [])

pub send_sarm-IsLocal : (now : ℕ) (p : HnzPath) → IsLocal p (send_sarm now p)
unfolding send_sarm
send_sarm-IsLocal now p = record { protocol = refl; activity = refl; made = refl }

pub send_ua-IsLocal : (now : ℕ) (p : HnzPath) → IsLocal p (send_ua now p)
unfolding send_ua
send_ua-IsLocal now p = record { protocol = refl; activity = refl; made = refl }

pub send_date_setting-IsLocal :
    (now : ℕ) (t : Tm) (p : HnzPath) → IsLocal p (send_date_setting now t p)
unfolding send_date_setting
send_date_setting-IsLocal now t p = send_info-IsLocal now p _

pub send_time_setting-IsLocal :
    (now : ℕ) (t : Tm) (p : HnzPath) → IsLocal p (send_time_setting now t p)
unfolding send_time_setting
send_time_setting-IsLocal now t p = send_info-IsLocal now p _

pub send_tc_command-IsLocal :
    (now : ℕ) (p : HnzPath) (address : ℤ) (value : ℕ)
    → IsLocal p (send_tc_command now p address value).0
unfolding send_tc_command register_command_if_sent
send_tc_command-IsLocal now p address value =
    ground (arith, send_info-IsLocal now p (tc_frame p.codes address value))

pub send_tvc_command-IsLocal :
    (now : ℕ) (p : HnzPath) (address : ℕ) (value : ℤ)
    → IsLocal p (send_tvc_command now p address value).0
unfolding send_tvc_command register_command_if_sent
send_tvc_command-IsLocal now p address value =
    ground (arith, send_info-IsLocal now p (tvc_frame p.codes address value))
