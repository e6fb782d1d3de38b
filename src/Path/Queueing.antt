-- ===== src/Path/Queueing.antt =====
-- What a new payload and a repeat make of the queue of payloads (`m_sendInfo` of src/hnzpath.cpp and
-- the repeats of src/hnzconnection.cpp).
use fledge_south_hnz.Prelude.{
  ℕ, ◌≤◌, ◌<◌, ◌≡◌, sym, ap, ◌∙◌, ltb, true, false, Bool-cases, List-cases, inl, inr, List, [], ◌∷◌,
  ◌++◌, length, All-append, ltb→lt, lt→ltb, ltb-false→le, le→ltb-false, append_assoc, append-nil,
}
use mathlib.Core.List.{map-append}
use mathlib.Core.Bool.{false≢true}
use fledge_south_hnz.State.Link.{HnzPath, Message}
use fledge_south_hnz.Path.Send.{
  may_send, is_bulle, push_sent, send_info, send_back_info, repeat_first, repeated,
  repeat_first-cons, repeat_first-nil,
}
use fledge_south_hnz.Path.Ack.{can_drain}
use fledge_south_hnz.Path.Fifo.{Sendable, CanSend, payloads, outgoing}

module _ (now : ℕ) (p : HnzPath) (msg : List ℕ) where
  -- The three branches of `m_sendInfo`.
  pub send_info-refused :
      may_send p.protocol_state (is_bulle p msg) ≡ false → send_info now p msg ≡ (p, false)
  unfolding send_info
  send_info-refused cannot = rw cannot

  pub send_info-sent :
      may_send p.protocol_state (is_bulle p msg) ≡ true
      → length p.msg_sent < p.anticipation_ratio
      → send_info now p msg ≡ (push_sent now p (record { ns = 0; payload = msg }), true)
  unfolding send_info
  send_info-sent can room = rw (can, lt→ltb _ _ room)

  pub send_info-queued :
      may_send p.protocol_state (is_bulle p msg) ≡ true
      → p.anticipation_ratio ≤ length p.msg_sent
      → send_info now p msg ≡ (
        record p { msg_waiting = p.msg_waiting ++ (record { ns = 0; payload = msg } ∷ []) },
        false,
      )
  unfolding send_info
  send_info-queued can full = rw (can, le→ltb-false _ _ full)

idle_queue :
    (p : HnzPath)
    → can_drain p ≡ false
    → length p.msg_sent < p.anticipation_ratio
    → p.msg_waiting ≡ []
unfolding can_drain
idle_queue p full room = elim (List-cases p.msg_waiting) [
  | inl e ↦ e
  | inr (m, ms, e) ↦ absurd (false≢true (sym full ∙ rw (e, lt→ltb _ _ room)))
]

-- Where nothing can leave the waiting queue, a message that the state lets out joins the end of
-- the queue of sent and waiting messages.
pub send_info-outgoing :
    (now : ℕ) (p : HnzPath) (msg : List ℕ)
    → can_drain p ≡ false
    → may_send p.protocol_state (is_bulle p msg) ≡ true
    → outgoing (send_info now p msg).0 ≡ outgoing p ++ (msg ∷ [])
unfolding push_sent
send_info-outgoing now p msg full can =
    elim (Bool-cases (ltb (length p.msg_sent) p.anticipation_ratio)) [
      | inl room ↦
          rw (send_info-sent now p msg can (ltb→lt _ _ room))
            (simp (idle_queue p full (ltb→lt _ _ room), map-append, append-nil))
      | inr none' ↦
          rw (send_info-queued now p msg can (ltb-false→le _ _ none'))
            (simp (map-append, append_assoc))
    ]

-- A repeat leaves the queue of sent and waiting messages as it is.
pub repeat_first-outgoing : (now : ℕ) (p : HnzPath) → outgoing (repeat_first now p) ≡ outgoing p
unfolding send_back_info
repeat_first-outgoing now p = elim (List-cases p.msg_sent) [
  | inl e ↦ ap outgoing (repeat_first-nil now p e)
  | inr (m, ms, e) ↦
      ap outgoing (repeat_first-cons now p m ms e)
      ∙ ap (◌∷◌ m.payload) (map-append _ ms p.msg_waiting)
      ∙ sym (ap (λ xs. payloads xs ++ payloads p.msg_waiting) e)
]

-- With an anticipation ratio above 1, after a repeat of two messages or more the next message that
-- the state lets out overtakes all messages but the first.
pub send_info-repeat_overtakes :
    (now later : ℕ) (p : HnzPath) (msg : List ℕ) (m m' : Message) (ms : List Message)
    → p.msg_sent ≡ m ∷ m' ∷ ms
    → 1 < p.anticipation_ratio
    → may_send p.protocol_state (is_bulle p msg) ≡ true
    → outgoing (send_info later (repeat_first now p) msg).0
      ≡ m.payload ∷ msg ∷ payloads (m' ∷ ms ++ p.msg_waiting)
unfolding send_back_info push_sent
send_info-repeat_overtakes now later p msg m m' ms e room can =
    let q : HnzPath = repeated now p m (m' ∷ ms) in
    rw (repeat_first-cons now p m (m' ∷ ms) e) (rw (send_info-sent later q msg can room))

-- If every queued message of a path may be sent in the state of the path, so may every queued
-- message after another payload is sent, queued or refused.
pub send_info-CanSend :
    (now : ℕ) (p : HnzPath) (msg : List ℕ) → CanSend p → CanSend (send_info now p msg).0
unfolding push_sent
send_info-CanSend now p msg c = elim (Bool-cases (may_send p.protocol_state (is_bulle p msg))) [
  | inr cannot ↦ rw (send_info-refused now p msg cannot) c
  | inl can ↦ elim (Bool-cases (ltb (length p.msg_sent) p.anticipation_ratio)) [
    | inl room ↦
        rw (send_info-sent now p msg can (ltb→lt _ _ room))
          (record { sent = All-append _ p.msg_sent _ c.sent (can, tt); waiting = c.waiting })
    | inr full ↦
        rw (send_info-queued now p msg can (ltb-false→le _ _ full))
          (record { sent = c.sent; waiting = All-append _ p.msg_waiting _ c.waiting (can, tt) })
  ]
]

-- So it stays under a repeat.
pub repeat_first-CanSend : (now : ℕ) (p : HnzPath) → CanSend p → CanSend (repeat_first now p)
unfolding send_back_info
repeat_first-CanSend now p c = elim (List-cases p.msg_sent) [
  | inl e ↦ rw (repeat_first-nil now p e) c
  | inr (m, ms, e) ↦
      let s : Sendable p (m ∷ ms) = rw e at c.sent in
      rw (repeat_first-cons now p m ms e)
        (record { sent = (s.0, tt); waiting = All-append _ ms p.msg_waiting s.1 c.waiting })
]
