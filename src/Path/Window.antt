-- ===== src/Path/Window.antt =====
-- The send window of a path: what `m_isNRValid` decides, and the numbering of the messages that wait
-- for an acknowledgement.
use fledge_south_hnz.Prelude.{
  ℕ, zero, suc, ◌+◌, ◌%◌, ◌≤◌, ◌<◌, ◌≡◌, ap, ltb, leb, ltb→lt, Bool, true, false, Bool-cases,
  List-cases, inl, inr, List, [], ◌∷◌, ◌++◌, length, drop, length-append, length-drop, arith,
}
use fledge_south_hnz.State.Link.{HnzPath, Message}
use fledge_south_hnz.Path.Send.{
  may_send, is_bulle, push_sent, send_info_immediately, send_info, send_back_info, repeat_first,
  repeated, repeat_first-cons,
}
use fledge_south_hnz.Path.Ack.{
  is_nr_valid, nr_offset, can_drain, drain_round, drain, nr_accepted, received_rr, reply_rr,
  send_rr,
}

-- For numbers below 8, `m_isNRValid` accepts exactly the numbers from m_NRR up to m_ns, going
-- round at 8.
pub is_nr_valid-eq-window :
    (nrr ns nr : ℕ)
    → nrr < 8
    → ns < 8
    → nr < 8
    → is_nr_valid nrr ns nr ≡ leb (nr_offset nrr nr) (nr_offset nrr ns)
unfolding is_nr_valid
is_nr_valid-eq-window nrr ns nr h k l = ground arith

-- The messages carry consecutive numbers, from `n` on, going round at 8.
abbrev pub Numbered : ℕ → List Message → Type 0
Numbered n [] = Unit
Numbered n (m ∷ ms) = (m.ns ≡ n % 8) × Numbered (suc n) ms

-- The messages sent and not acknowledged are those numbered from m_NRR up to m_ns.
pub record InWindow (p : HnzPath) : Type 0 where
  pub nr_small : p.nr < 8
  pub nrr_small : p.nrr < 8
  pub within : length p.msg_sent ≤ p.anticipation_ratio
  pub numbered : Numbered p.nrr p.msg_sent
  pub closed : p.ns ≡ (p.nrr + length p.msg_sent) % 8

Numbered-append :
    (n : ℕ) (ms : List Message) (m : Message)
    → Numbered n ms
    → m.ns ≡ (n + length ms) % 8
    → Numbered n (ms ++ (m ∷ []))
Numbered-append n [] m h e = (omega arith, tt)
Numbered-append n (x ∷ ms) m h e = (h.0, Numbered-append (suc n) ms m h.1 (omega arith))

Numbered-mod : (n k : ℕ) (ms : List Message) → n % 8 ≡ k % 8 → Numbered n ms → Numbered k ms
Numbered-mod n k [] e h = tt
Numbered-mod n k (m ∷ ms) e h = (omega arith, Numbered-mod (suc n) (suc k) ms (omega arith) h.1)

Numbered-drop : (n k : ℕ) (ms : List Message) → Numbered n ms → Numbered (n + k) (drop k ms)
Numbered-drop n zero ms h = Numbered-mod n (n + 0) ms (omega arith) h
Numbered-drop n (suc k) [] h = tt
Numbered-drop n (suc k) (m ∷ ms) h =
    Numbered-mod (suc n + k) (n + suc k) (drop k ms) (omega arith) (Numbered-drop (suc n) k ms h.1)

push_sent-InWindow :
    (now : ℕ) (p : HnzPath) (m : Message)
    → length p.msg_sent < p.anticipation_ratio
    → InWindow p
    → InWindow (push_sent now p m)
unfolding push_sent
push_sent-InWindow now p m room w = record {
  nr_small = w.nr_small;
  nrr_small = w.nrr_small;
  within = omega (arith, length-append p.msg_sent (record m { ns = p.ns } ∷ []));
  numbered = Numbered-append p.nrr p.msg_sent _ w.numbered w.closed;
  closed = omega (arith, w.closed, length-append p.msg_sent (record m { ns = p.ns } ∷ []));
}

-- A change of the waiting queue does not concern the window.
waiting-InWindow :
    (p : HnzPath) (ms : List Message) → InWindow p → InWindow (record p { msg_waiting = ms })
waiting-InWindow p ms w = record {
  nr_small = w.nr_small;
  nrr_small = w.nrr_small;
  within = w.within;
  numbered = w.numbered;
  closed = w.closed;
}

-- A round of the loop that finds room keeps the window.
drain_round-InWindow :
    (now : ℕ) (p : HnzPath) → can_drain p ≡ true → InWindow p → InWindow (drain_round now p)
unfolding drain_round can_drain send_info_immediately
drain_round-InWindow now p room w = elim (List-cases p.msg_waiting) [
  | inl e ↦ rw (e, drain_round) w
  | inr (m, ms, e) ↦ elim (Bool-cases (may_send p.protocol_state (is_bulle p m.payload))) [
    | inl can ↦
        rw (e, drain_round, can)
          (waiting-InWindow _ ms (push_sent-InWindow now p m (ground arith) w))
    | inr cannot ↦ rw (e, drain_round, cannot) w
  ]
]

drain-InWindow : (now fuel : ℕ) (p : HnzPath) → InWindow p → InWindow (drain now fuel p)
unfolding drain
drain-InWindow now zero p w = w
drain-InWindow now (suc fuel) p w = elim (Bool-cases (can_drain p)) [
  | inl go ↦ rw go (drain-InWindow now fuel (drain_round now p) (drain_round-InWindow now p go w))
  | inr stop ↦ rw stop w
]

-- What a valid number acknowledges is no more than what waits for it.
offset_within :
    (p : HnzPath) (nr : ℕ)
    → InWindow p
    → p.anticipation_ratio < 8
    → nr < 8
    → is_nr_valid p.nrr p.ns nr ≡ true
    → nr_offset p.nrr nr ≤ length p.msg_sent
offset_within p nr w small h v = ground (arith, is_nr_valid-eq-window p.nrr p.ns nr w.nrr_small)

nr_accepted-InWindow :
    (now : ℕ) (p : HnzPath) (nr : ℕ)
    → p.anticipation_ratio < 8
    → nr < 8
    → is_nr_valid p.nrr p.ns nr ≡ true
    → InWindow p
    → InWindow (nr_accepted now p nr)
unfolding nr_accepted
nr_accepted-InWindow now p nr small h v w = drain-InWindow now (length p.msg_waiting) _ (record {
  nr_small = w.nr_small;
  nrr_small = h;
  within = omega (arith, w.within, length-drop (nr_offset p.nrr nr) p.msg_sent);
  numbered =
      Numbered-mod (p.nrr + nr_offset p.nrr nr) nr _ (omega (arith, w.nrr_small))
        (Numbered-drop p.nrr (nr_offset p.nrr nr) p.msg_sent w.numbered);
  closed = omega (
    arith,
    w.closed,
    w.nrr_small,
    offset_within p nr w small h v,
    length-drop (nr_offset p.nrr nr) p.msg_sent,
  );
})

received_rr-InWindow :
    (now : ℕ) (p : HnzPath) (nr : ℕ) (repetition : Bool)
    → p.anticipation_ratio < 8
    → nr < 8
    → InWindow p
    → InWindow (received_rr now p nr repetition).0
unfolding received_rr
received_rr-InWindow now p nr repetition small h w =
    ground (arith, nr_accepted-InWindow now p nr small h)

-- If the send window of a path is intact (the messages sent and not acknowledged are numbered from
-- m_NRR up to m_ns without a gap and are no more than the anticipation ratio), it stays so,
-- whatever payload the path sends, queues or refuses.
pub send_info-InWindow :
    (now : ℕ) (p : HnzPath) (msg : List ℕ) → InWindow p → InWindow (send_info now p msg).0
unfolding send_info
send_info-InWindow now p msg w = elim (Bool-cases (may_send p.protocol_state (is_bulle p msg))) [
  | inr cannot ↦ rw cannot w
  | inl can ↦ elim (Bool-cases (ltb (length p.msg_sent) p.anticipation_ratio)) [
    | inl room ↦
        rw (can, room)
          (push_sent-InWindow now p (record { ns = 0; payload = msg }) (ltb→lt _ _ room) w)
    | inr full ↦
        rw (can, full)
          (waiting-InWindow p (p.msg_waiting ++ (record { ns = 0; payload = msg } ∷ [])) w)
  ]
]

reply_rr-InWindow :
    (now : ℕ) (p : HnzPath) (repetition : Bool) (ns : ℕ)
    → InWindow p
    → InWindow (reply_rr now p repetition ns)
unfolding reply_rr
reply_rr-InWindow now p repetition ns w = ground arith

-- With an anticipation ratio below 8, the receipt of an information frame, whose own number below
-- 8 acknowledges what was sent, keeps an intact send window: the messages sent and not
-- acknowledged are numbered from m_NRR up to m_ns without a gap and are no more than the
-- anticipation ratio.
pub send_rr-InWindow :
    (now : ℕ) (p : HnzPath) (repetition : Bool) (ns nr : ℕ)
    → p.anticipation_ratio < 8
    → nr < 8
    → InWindow p
    → InWindow (send_rr now p repetition ns nr).0
unfolding send_rr
send_rr-InWindow now p repetition ns nr small h w =
    elim (Bool-cases (received_rr now p nr false).1) [
      | inl kept ↦
          rw kept
            (reply_rr-InWindow now _ repetition ns (received_rr-InWindow now p nr false small h w))
      | inr ignored ↦ rw ignored (received_rr-InWindow now p nr false small h w)
    ]

-- If two to eight messages are sent and not acknowledged in a path whose send window is intact, a
-- repeat keeps the first of them as the only one sent, moves the others in front of the waiting
-- queue, and leaves m_ns where it was, which is not the number that follows the first message:
-- what is sent next skips numbers, and the send window is no longer intact.
pub repeat_first_loses_window :
    (now : ℕ) (p : HnzPath) (m m' : Message) (ms : List Message)
    → p.msg_sent ≡ m ∷ m' ∷ ms
    → length ms ≤ 6
    → InWindow p
    → ((repeat_first now p).msg_sent ≡ m ∷ [])
      × (((repeat_first now p).msg_waiting ≡ m' ∷ ms ++ p.msg_waiting)
          × (((repeat_first now p).ns ≡ p.ns)
              × ((¬ (p.ns ≡ (m.ns + 1) % 8)) × (¬ InWindow (repeat_first now p)))))
unfolding send_back_info
repeat_first_loses_window now p m m' ms e few w =
    let repeats : repeat_first now p ≡ repeated now p m (m' ∷ ms) =
      repeat_first-cons now p m (m' ∷ ms) e in
    let first : Numbered p.nrr (m ∷ m' ∷ ms) = rw e at w.numbered in
    (
      ap (λ q. q.msg_sent) repeats,
      (
        ap (λ q. q.msg_waiting) repeats,
        (
          ap (λ q. q.ns) repeats,
          (
            λ next. omega (arith, w.closed, ap length e, first.0, next),
            λ v. omega (arith, w.closed, ap length e, rw repeats at v.closed),
          ),
        ),
      ),
    )
