-- ===== src/Path/Fifo.antt =====
-- A path as a queue of payloads: those sent and not acknowledged, then those that wait. Also the end
-- of the loop that sends the waiting messages.
use fledge_south_hnz.Prelude.{
  ℕ, zero, suc, ◌≤◌, ◌≡◌, refl, sym, ap, ◌∙◌, if◌then◌else◌, true, false, Bool-cases, List-cases,
  inl, inr, List, [], ◌∷◌, ◌++◌, map, length, drop, All, All-append, All-drop, is_empty,
  append_assoc, arith,
}
use mathlib.Core.List.{map-append}
use mathlib.Core.Bool.{false≢true}
use fledge_south_hnz.State.Link.{HnzPath, Message}
use fledge_south_hnz.Path.Send.{may_send, is_bulle, push_sent, send_info_immediately}
use fledge_south_hnz.Path.Ack.{nr_offset, can_drain, drain_round, drain, nr_accepted}

abbrev pub Sendable : HnzPath → List Message → Type 0
Sendable p = All λ m. may_send p.protocol_state (is_bulle p m.payload) ≡ true

-- Every message that is queued may be sent in the state the path is in.
pub record CanSend (p : HnzPath) : Type 0 where
  pub sent : Sendable p p.msg_sent
  pub waiting : Sendable p p.msg_waiting

abbrev pub payloads : List Message → List (List ℕ)
payloads = map λ m. m.payload

-- The queue that the path implements.
abbrev pub outgoing : HnzPath → List (List ℕ)
outgoing p = payloads p.msg_sent ++ payloads p.msg_waiting

-- One round in a state that lets the first waiting message out.
drain_round-eq :
    (now : ℕ) (p : HnzPath) (m : Message) (ms : List Message)
    → p.msg_waiting ≡ m ∷ ms
    → may_send p.protocol_state (is_bulle p m.payload) ≡ true
    → drain_round now p ≡ record (push_sent now p m) { msg_waiting = ms }
unfolding drain_round send_info_immediately
drain_round-eq now p m ms e can = rw (e, drain_round, can)

waits :
    (p : HnzPath)
    → can_drain p ≡ true
    → (m : Message) × (ms : List Message) × (p.msg_waiting ≡ m ∷ ms)
unfolding can_drain
waits p go = elim (List-cases p.msg_waiting) [
  | inl e ↦ absurd (false≢true (rw e at go))
  | inr found ↦ found
]

push_sent-CanSend :
    (now : ℕ) (p : HnzPath) (m : Message) (ms : List Message)
    → p.msg_waiting ≡ m ∷ ms
    → CanSend p
    → CanSend (record (push_sent now p m) { msg_waiting = ms })
unfolding push_sent
push_sent-CanSend now p m ms e c =
    let w : Sendable p (m ∷ ms) = rw e at c.waiting in
    record { sent = All-append _ p.msg_sent _ c.sent (w.0, tt); waiting = w.1 }

push_sent-outgoing :
    (now : ℕ) (p : HnzPath) (m : Message) (ms : List Message)
    → p.msg_waiting ≡ m ∷ ms
    → outgoing (record (push_sent now p m) { msg_waiting = ms }) ≡ outgoing p
unfolding push_sent
push_sent-outgoing now p m ms e = simp (e, map-append, append_assoc)

-- A round keeps the queue, and what it leaves waiting may be sent as before.
drain_round-CanSend :
    (now : ℕ) (p : HnzPath) → can_drain p ≡ true → CanSend p → CanSend (drain_round now p)
drain_round-CanSend now p go c =
    let (m, ms, e) = waits p go in
    rw (drain_round-eq now p m ms e (rw e at c.waiting).0) (push_sent-CanSend now p m ms e c)

drain_round-outgoing :
    (now : ℕ) (p : HnzPath)
    → can_drain p ≡ true
    → CanSend p
    → outgoing (drain_round now p) ≡ outgoing p
drain_round-outgoing now p go c =
    let (m, ms, e) = waits p go in
    rw (drain_round-eq now p m ms e (rw e at c.waiting).0) (push_sent-outgoing now p m ms e)

drain-CanSend : (now fuel : ℕ) (p : HnzPath) → CanSend p → CanSend (drain now fuel p)
unfolding drain
drain-CanSend now zero p c = c
drain-CanSend now (suc fuel) p c = elim (Bool-cases (can_drain p)) [
  | inl go ↦ rw go (drain-CanSend now fuel (drain_round now p) (drain_round-CanSend now p go c))
  | inr end ↦ rw end c
]

drain-outgoing : (now fuel : ℕ) (p : HnzPath) → CanSend p → outgoing (drain now fuel p) ≡ outgoing p
unfolding drain
drain-outgoing now zero p c = refl
drain-outgoing now (suc fuel) p c = elim (Bool-cases (can_drain p)) [
  | inl go ↦ rw go (
      drain-outgoing now fuel (drain_round now p) (drain_round-CanSend now p go c)
      ∙ drain_round-outgoing now p go c)
  | inr end ↦ rw end
]

shorter :
    (now fuel : ℕ) (p : HnzPath)
    → length p.msg_waiting ≤ suc fuel
    → can_drain p ≡ true
    → CanSend p
    → length (drain_round now p).msg_waiting ≤ fuel
shorter now fuel p few go c =
    let (m, ms, e) = waits p go in
    rw (drain_round-eq now p m ms e (rw e at c.waiting).0) (omega (arith, few, ap length e))

nothing_waits : (p : HnzPath) → length p.msg_waiting ≤ 0 → can_drain p ≡ false
unfolding can_drain
nothing_waits p few = elim (List-cases p.msg_waiting) [
  | inl e ↦ rw e
  | inr (m, ms, e) ↦ absurd (omega (arith, few, ap length e))
]

-- Every round takes a message from the waiting queue, so that many rounds end the loop by its test.
drain_ends :
    (now fuel : ℕ) (p : HnzPath)
    → length p.msg_waiting ≤ fuel
    → CanSend p
    → can_drain (drain now fuel p) ≡ false
unfolding drain
drain_ends now zero p few c = nothing_waits p few
drain_ends now (suc fuel) p few c = elim (Bool-cases (can_drain p)) [
  | inl go ↦ rw go (
      drain_ends now fuel (drain_round now p) (shorter now fuel p few go c)
        (drain_round-CanSend now p go c))
  | inr end ↦ rw end end
]

-- The path between the two halves of `m_NRAccepted`.
abbrev acked : ℕ → HnzPath → ℕ → HnzPath
acked now p nr =
    let sent = drop (nr_offset p.nrr nr) p.msg_sent in
    record p {
      msg_sent = sent;
      nrr = nr;
      repeats = 0;
      last_sent_time = if is_empty sent then p.last_sent_time else now;
    }

acked-CanSend : (now : ℕ) (p : HnzPath) (nr : ℕ) → CanSend p → CanSend (acked now p nr)
acked-CanSend now p nr c = record {
  sent = All-drop _ (nr_offset p.nrr nr) p.msg_sent c.sent;
  waiting = c.waiting;
}

-- If every queued message of a path may be sent in the state of the path, so may those that an
-- acknowledgement leaves.
pub nr_accepted-CanSend :
    (now : ℕ) (p : HnzPath) (nr : ℕ) → CanSend p → CanSend (nr_accepted now p nr)
unfolding nr_accepted
nr_accepted-CanSend now p nr c =
    drain-CanSend now (length p.msg_waiting) (acked now p nr) (acked-CanSend now p nr c)

-- If every queued message may be sent in the state of the path, the loop at the end of
-- `m_NRAccepted` ends by its own test: when it is left, no message waits or the anticipation ratio
-- is reached.
pub nr_accepted_ends :
    (now : ℕ) (p : HnzPath) (nr : ℕ) → CanSend p → can_drain (nr_accepted now p nr) ≡ false
unfolding nr_accepted
nr_accepted_ends now p nr c =
    drain_ends now (length p.msg_waiting) (acked now p nr) (omega arith) (acked-CanSend now p nr c)

drop-append_le {ℓ} :
    {A : Type ℓ} (n : ℕ) (xs ys : List A) → n ≤ length xs → drop n (xs ++ ys) ≡ drop n xs ++ ys
drop-append_le zero xs ys h = refl
drop-append_le (suc n) [] ys h = absurd (omega arith)
drop-append_le (suc n) (x ∷ xs) ys h = drop-append_le n xs ys (omega arith)

payloads-drop : (n : ℕ) (ms : List Message) → payloads (drop n ms) ≡ drop n (payloads ms)
payloads-drop zero ms = refl
payloads-drop (suc n) [] = refl
payloads-drop (suc n) (m ∷ ms) = payloads-drop n ms

length-payloads : (ms : List Message) → length (payloads ms) ≡ length ms
length-payloads [] = refl
length-payloads (m ∷ ms) = ap suc (length-payloads ms)

-- If every queued message may be sent in the state of the path and the number acknowledges no more
-- messages than were sent, an acknowledgement takes the messages that it counts from the front of
-- the queue of sent and waiting messages, and leaves the rest of that queue as it was.
pub nr_accepted-outgoing :
    (now : ℕ) (p : HnzPath) (nr : ℕ)
    → CanSend p
    → nr_offset p.nrr nr ≤ length p.msg_sent
    → outgoing (nr_accepted now p nr) ≡ drop (nr_offset p.nrr nr) (outgoing p)
unfolding nr_accepted
nr_accepted-outgoing now p nr c few =
    drain-outgoing now (length p.msg_waiting) (acked now p nr) (acked-CanSend now p nr c)
    ∙ ap (λ xs. xs ++ payloads p.msg_waiting) (payloads-drop (nr_offset p.nrr nr) p.msg_sent)
    ∙ sym (
        drop-append_le (nr_offset p.nrr nr) (payloads p.msg_sent) (payloads p.msg_waiting)
          (rw length-payloads few))
