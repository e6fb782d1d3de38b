-- ===== src/Path/Ack.antt =====
-- Acknowledgements on a path (src/hnzpath.cpp): validity of a received number, what it acknowledges,
-- and the receipts that the plugin sends. Received numbers come from three bits, so they are below 8.
use fledge_south_hnz.Prelude.{
  ℕ, zero, suc, ◌+◌, ◌-◌, ◌*◌, ◌%◌, ltb, leb, ◌==◌, if◌then◌else◌, Bool, true, false, not, ◌&&◌,
  ◌||◌, [], ◌∷◌, length, drop, is_empty, u8,
}
use fledge_south_hnz.State.Link.{HnzPath}
use fledge_south_hnz.Path.Send.{send_info_immediately, send_frame}

-- `m_isNRValid`, with m_NRR, m_ns and nr as arguments.
unfoldable pub is_nr_valid : ℕ → ℕ → ℕ → Bool
is_nr_valid nrr ns nr =
    if nr == nrr
    then true
    else (if ltb ns nrr
        then (if ltb nrr nr then true else (if leb nr ns then true else ltb nrr nr && leb nr ns))
        else ltb nrr nr && leb nr ns)

-- How many messages a number acknowledges: `(((nr - m_NRR) % 8) + 8) % 8` for numbers below 8.
abbrev pub nr_offset : ℕ → ℕ → ℕ
nr_offset nrr nr = (nr + 8 - nrr) % 8

-- The test of the loop that sends the waiting messages.
unfoldable pub can_drain : HnzPath → Bool
can_drain p = not (is_empty p.msg_waiting) && ltb (length p.msg_sent) p.anticipation_ratio

-- One round: the first waiting message leaves the queue only if it could be sent.
unfoldable pub drain_round : ℕ → HnzPath → HnzPath
unfolding send_info_immediately
drain_round now p = elim p.msg_waiting [
  | [] ↦ p
  | m ∷ ms ↦
      let (q, sent) = send_info_immediately now p m in
      if sent then record q { msg_waiting = ms } else q
]

-- The loop, on fuel.
unfoldable pub drain : ℕ → ℕ → HnzPath → HnzPath
drain now zero p = p
drain now (suc fuel) p =
    let next = drain now fuel (drain_round now p) in if can_drain p then next else p

-- `m_NRAccepted`. Every round that sends takes one waiting message, so their number is the fuel.
unfoldable pub nr_accepted : ℕ → HnzPath → ℕ → HnzPath
nr_accepted now p nr =
    let sent = drop (nr_offset p.nrr nr) p.msg_sent in
    let acked = record p {
      msg_sent = sent;
      nrr = nr;
      repeats = 0;
      last_sent_time = if is_empty sent then p.last_sent_time else now;
    } in
    drain now (length p.msg_waiting) acked

-- `m_receivedRR`; the result is false for a number that is ignored.
unfoldable pub received_rr : ℕ → HnzPath → ℕ → Bool → HnzPath × Bool
received_rr now p nr repetition =
    if nr == p.nrr
    then (p, true)
    else (if is_nr_valid p.nrr p.ns nr
        then (if not repetition || ltb 0 p.repeats
            then (nr_accepted now p nr, true)
            else (p, false))
        else (p, false))

-- The control byte of a receipt.
abbrev pub rr_byte : ℕ → Bool → ℕ
rr_byte nr repetition = u8 (0x01 + nr * 0x20 + (if repetition then 0x10 else 0))

-- What `m_sendRR` does once the received NR is accepted.
unfoldable pub reply_rr : ℕ → HnzPath → Bool → ℕ → HnzPath
unfolding send_frame
reply_rr now p repetition ns =
    let next = (p.nr + 1) % 8 in
    let replied =
      (if ns == p.nr
        then send_frame now (record p { nr = next }) (rr_byte next repetition ∷ []) true
        else (if repetition then send_frame now p (rr_byte p.nr true ∷ []) true else p)) in
    record replied { last_msg_time = now }

unfoldable pub send_rr : ℕ → HnzPath → Bool → ℕ → ℕ → HnzPath × Bool
send_rr now p repetition ns nr =
    let (q, accepted) = received_rr now p nr false in
    if accepted then (reply_rr now q repetition ns, true) else (q, false)
