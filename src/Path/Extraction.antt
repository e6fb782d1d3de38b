-- ===== src/Path/Extraction.antt =====
-- The messages of a payload by `m_extract_messages` (src/hnzpath.cpp): payloads that the station
-- joined from messages, payloads of any bytes, and messages that are cut short.
use fledge_south_hnz.Prelude.{
  ℕ, zero, suc, ◌+◌, ◌-◌, ◌≤◌, ◌<◌, ◌≡◌, ◌≢◌, refl, sym, ap, ◌∙◌, ltb, ◌==◌, if◌then◌else◌, Bool,
  true, false, Bool-cases, ==→eq, ltb-false→le, some_inj, inl, inr, Option, none, some, List, [],
  ◌∷◌, ◌++◌, length, take, drop, All, take-append, drop-append, append-nil, append_assoc,
  length-append, arith,
}
use native.Mathlib.Nat.{suc-add}
use fledge_south_hnz.State.Conf.{Codes, BulleFormat}
use fledge_south_hnz.Path.Extract.{
  message_length, starts_bulle, Extracted, add_message, extract_step, extract_from,
  extract_messages,
}

abbrev pub AllDiffer : List ℕ → Type 0
AllDiffer [] = Unit
AllDiffer (x ∷ xs) = All (λ y. x ≢ y) xs × AllDiffer xs

-- The message types that the code tells apart, which a `switch` wants to differ, and the received
-- BULLE, which the configuration must keep apart from them.
abbrev pub Distinct : Codes → BulleFormat → Type 0
Distinct c f = AllDiffer (
    c.tm4_code ∷ c.tsce_code ∷ c.tscg_code ∷ c.tmn_code ∷ c.modulo_code ∷ c.tcack_code
    ∷ c.tvcack_code ∷ f.first ∷ [])

-- The messages of a station, by type and length.
pub data IsMessage (c : Codes) (f : BulleFormat) : List ℕ → Type 0 where
  tm4 : (v w x y z : ℕ) → IsMessage c f (c.tm4_code ∷ v ∷ w ∷ x ∷ y ∷ z ∷ [])
  tsce : (v w x y : ℕ) → IsMessage c f (c.tsce_code ∷ v ∷ w ∷ x ∷ y ∷ [])
  tscg : (v w x y z : ℕ) → IsMessage c f (c.tscg_code ∷ v ∷ w ∷ x ∷ y ∷ z ∷ [])
  tmn : (u v w x y z : ℕ) → IsMessage c f (c.tmn_code ∷ u ∷ v ∷ w ∷ x ∷ y ∷ z ∷ [])
  modulo : (v : ℕ) → IsMessage c f (c.modulo_code ∷ v ∷ [])
  tcack : (v w : ℕ) → IsMessage c f (c.tcack_code ∷ v ∷ w ∷ [])
  tvcack : (v w x : ℕ) → IsMessage c f (c.tvcack_code ∷ v ∷ w ∷ x ∷ [])
  bulle : IsMessage c f (f.first ∷ f.second ∷ [])

module _ {c : Codes} {f : BulleFormat} (d : Distinct c f) where
  message_length-append :
      {m : List ℕ} (rest : List ℕ) (size : ℕ)
      → IsMessage c f m
      → message_length c f (m ++ rest) size ≡ length m
  unfolding message_length
  message_length-append rest size (tm4 _ _ _ _ _) = ground arith
  message_length-append rest size (tsce _ _ _ _) = ground arith
  message_length-append rest size (tscg _ _ _ _ _) = ground arith
  message_length-append rest size (tmn _ _ _ _ _ _) = ground arith
  message_length-append rest size (modulo _) = ground arith
  message_length-append rest size (tcack _ _) = ground arith
  message_length-append rest size (tvcack _ _ _) = ground arith
  message_length-append rest size bulle = ground arith

IsMessage-pos : {c : Codes} {f : BulleFormat} {m : List ℕ} → IsMessage c f m → 0 < length m
IsMessage-pos (tm4 _ _ _ _ _) = omega arith
IsMessage-pos (tsce _ _ _ _) = omega arith
IsMessage-pos (tscg _ _ _ _ _) = omega arith
IsMessage-pos (tmn _ _ _ _ _ _) = omega arith
IsMessage-pos (modulo _) = omega arith
IsMessage-pos (tcack _ _) = omega arith
IsMessage-pos (tvcack _ _ _) = omega arith
IsMessage-pos bulle = omega arith

starts_bulle-append :
    {c : Codes} {f : BulleFormat} {m : List ℕ} (rest : List ℕ)
    → IsMessage c f m
    → starts_bulle c f (m ++ rest) ≡ starts_bulle c f m
unfolding starts_bulle
starts_bulle-append rest (tm4 _ _ _ _ _) = refl
starts_bulle-append rest (tsce _ _ _ _) = refl
starts_bulle-append rest (tscg _ _ _ _ _) = refl
starts_bulle-append rest (tmn _ _ _ _ _ _) = refl
starts_bulle-append rest (modulo _) = refl
starts_bulle-append rest (tcack _ _) = refl
starts_bulle-append rest (tvcack _ _ _) = refl
starts_bulle-append rest bulle = refl

abbrev pub concat : List (List ℕ) → List ℕ
concat [] = []
concat (m ∷ ms) = m ++ concat ms

-- Is one of the messages a BULLE?
abbrev pub has_bulle : Codes → BulleFormat → List (List ℕ) → Bool
has_bulle c f [] = false
has_bulle c f (m ∷ ms) = if starts_bulle c f m then true else has_bulle c f ms

step-last :
    (b : Bool) (bytes : List ℕ) (size : ℕ) (rest : Option Extracted)
    → 0 < size
    → extract_step size b bytes size rest
      ≡ some (record { messages = take size bytes ∷ []; bulle = b })
unfolding extract_step
step-last b bytes size rest h = ground arith

step-more :
    (len : ℕ) (b : Bool) (bytes : List ℕ) (size : ℕ) (rest : Option Extracted)
    → 0 < len
    → len < size
    → extract_step len b bytes size rest ≡ add_message (take len bytes) b rest
unfolding extract_step
step-more len b bytes size rest h l = ground arith

step-over :
    (len : ℕ) (b : Bool) (bytes : List ℕ) (size : ℕ) (rest : Option Extracted)
    → size < len
    → extract_step len b bytes size rest ≡ none
unfolding extract_step
step-over len b bytes size rest h = ground arith

module _ {c : Codes} {f : BulleFormat} (d : Distinct c f) where
  -- A call on a payload that begins with a message.
  extract_from-front :
      (fuel size : ℕ) {m : List ℕ} (rest : List ℕ)
      → IsMessage c f m
      → extract_from (suc fuel) c f (m ++ rest) size
        ≡ extract_step
            (length m)
            (starts_bulle c f m)
            (m ++ rest)
            size
            (extract_from fuel c f rest (size - length m))
  unfolding extract_from
  extract_from-front fuel size {m} rest h =
      rw (message_length-append d rest size h, starts_bulle-append rest h, drop-append m rest)

  extract_from-concat :
      (crc : List ℕ) (fuel : ℕ) (m : List ℕ) (ms : List (List ℕ))
      → length (concat (m ∷ ms)) < fuel
      → IsMessage c f m
      → All (IsMessage c f) ms
      → extract_from fuel c f (concat (m ∷ ms) ++ crc) (length (concat (m ∷ ms)))
        ≡ some (record { messages = m ∷ ms; bulle = has_bulle c f (m ∷ ms) })
  extract_from-concat crc zero m ms few h hs = absurd (omega arith)
  extract_from-concat crc (suc fuel) m [] few h hs = rw append-nil (
      extract_from-front fuel (length m) crc h
      ∙ step-last (starts_bulle c f m) (m ++ crc) (length m) _ (IsMessage-pos h)
      ∙ rw take-append (ground arith))
  extract_from-concat crc (suc fuel) m (m' ∷ ms) few h hs =
      let r : List ℕ = concat (m' ∷ ms) in
      let longer : length (m ++ r) ≡ length m + length r = length-append m r in
      let some_left : 0 < length r =
        omega (arith, IsMessage-pos hs.0, length-append m' (concat ms)) in
      let left : length (m ++ r) - length m ≡ length r = omega arith in
      rw (append_assoc m r crc) (
        extract_from-front fuel (length (m ++ r)) (r ++ crc) h
        ∙ step-more (length m) (starts_bulle c f m) (m ++ (r ++ crc)) (length (m ++ r)) _
            (IsMessage-pos h) (omega arith)
        ∙ rw (
          take-append,
          left,
          extract_from-concat crc fuel m' ms (omega (arith, IsMessage-pos h)) hs.0 hs.1,
        ))

  -- If the message types and the received BULLE have distinct codes, the messages that a station
  -- joins in one payload come out one by one, in order and complete, whatever bytes follow the
  -- payload, and the flag tells whether a BULLE is among them.
  pub extract_messages-concat :
      (crc : List ℕ) (m : List ℕ) (ms : List (List ℕ))
      → All (IsMessage c f) (m ∷ ms)
      → extract_messages c f (concat (m ∷ ms) ++ crc) (length (concat (m ∷ ms)))
        ≡ some (record { messages = m ∷ ms; bulle = has_bulle c f (m ∷ ms) })
  unfolding extract_messages
  extract_messages-concat crc m ms hs =
      extract_from-concat crc (suc (length (concat (m ∷ ms)))) m ms (omega arith) hs.0 hs.1

  prefix_length :
      (crc : List ℕ) (x y : ℕ) (m n : List ℕ) (size : ℕ)
      → IsMessage c f (x ∷ y ∷ (m ++ n))
      → message_length c f (x ∷ y ∷ (m ++ crc)) size ≡ suc (suc (length (m ++ n)))
  unfolding message_length
  prefix_length crc x y m n size h = message_length-append d [] size h

  -- If the codes are distinct, a payload of at least two bytes that is a message cut short by the
  -- end of the frame makes the code read behind the payload that it was given.
  pub extract_messages-truncated :
      (crc m n : List ℕ)
      → IsMessage c f (m ++ n)
      → 2 ≤ length m
      → 0 < length n
      → extract_messages c f (m ++ crc) (length m) ≡ none
  unfolding extract_messages extract_from
  extract_messages-truncated crc [] n h two more = absurd (omega arith)
  extract_messages-truncated crc (x ∷ []) n h two more = absurd (omega arith)
  extract_messages-truncated crc (x ∷ y ∷ m) n h two more =
      step-over (message_length c f (x ∷ y ∷ (m ++ crc)) (length (x ∷ y ∷ m))) _ _ _ _
        (omega (arith, prefix_length crc x y m n (length (x ∷ y ∷ m)) h, length-append m n))

take-nil {ℓ} : {A : Type ℓ} (n : ℕ) → take {A = A} n [] ≡ []
take-nil zero = refl
take-nil (suc n) = refl

take-split {ℓ} :
    {A : Type ℓ} (n k : ℕ) (xs : List A) → take n xs ++ take k (drop n xs) ≡ take (n + k) xs
take-split zero k xs = ap (λ i. take i xs) (omega arith)
take-split {A} (suc n) k [] = rw suc-add (take-nil {A = A} k)
take-split (suc n) k (x ∷ xs) = rw suc-add (ap (◌∷◌ x) (take-split n k xs))

message_length-zero :
    (c : Codes) (f : BulleFormat) (bytes : List ℕ) (size : ℕ)
    → message_length c f bytes size ≡ 0
    → size ≡ 0
unfolding message_length
message_length-zero c f bytes size e = ground arith

abbrev messages_of : Extracted → List ℕ
messages_of r = concat r.messages

add_message-some :
    (m : List ℕ) (b : Bool) (rest : Option Extracted) (r : Extracted)
    → add_message m b rest ≡ some r
    → (q : Extracted) × (rest ≡ some q)
      × (record { messages = m ∷ q.messages; bulle = if b then true else q.bulle } ≡ r)
add_message-some m b none r e = cc
add_message-some m b (some q) r e = (q, refl, some_inj e)

-- What the result for the bytes behind the first message gives for all of them.
extract_step-split :
    (len : ℕ) (b : Bool) (bytes : List ℕ) (size : ℕ) (rest : Option Extracted) (r : Extracted)
    → (len ≡ 0 → size ≡ 0)
    → ((q : Extracted) → rest ≡ some q → concat q.messages ≡ take (size - len) (drop len bytes))
    → extract_step len b bytes size rest ≡ some r
    → concat r.messages ≡ take size bytes
unfolding extract_step
extract_step-split len b bytes size rest r z ih e = elim (Bool-cases (len == 0)) [
  | inl e0 ↦
      let s0 : size ≡ 0 = z (==→eq len 0 e0) in
      let er : some (record { messages = []; bulle = b }) ≡ some r = rw e0 at e in
      sym (ap messages_of (some_inj er)) ∙ sym (ap (λ n. take n bytes) s0)
  | inr n0 ↦ elim (Bool-cases (len == size)) [
    | inl es ↦
        let er : some (record { messages = take len bytes ∷ []; bulle = b }) ≡ some r =
          rw (n0, es) at e in
        sym (ap messages_of (some_inj er))
        ∙ append-nil (take len bytes)
        ∙ ap (λ n. take n bytes) (==→eq len size es)
    | inr ns ↦ elim (Bool-cases (ltb size len)) [
      | inl over ↦ let er : none ≡ some r = rw (n0, ns, over) at e in cc
      | inr fits ↦
          let (q, eq, er) = add_message-some (take len bytes) b rest r (rw (n0, ns, fits) at e) in
          sym (ap messages_of er)
          ∙ ap (◌++◌ (take len bytes)) (ih q eq)
          ∙ take-split len (size - len) bytes
          ∙ ap (λ n. take n bytes) (omega (arith, ltb-false→le size len fits))
    ]
  ]
]

extract_from-split :
    (fuel : ℕ) (c : Codes) (f : BulleFormat) (bytes : List ℕ) (size : ℕ) (r : Extracted)
    → extract_from fuel c f bytes size ≡ some r
    → concat r.messages ≡ take size bytes
unfolding extract_from
extract_from-split zero c f bytes size r e = cc
extract_from-split (suc fuel) c f bytes size r e =
    extract_step-split (message_length c f bytes size) _ bytes size _ r
      (message_length-zero c f bytes size) (extract_from-split fuel c f _ _) e

-- Whatever the bytes are, if messages come out, then joined they are the first `size` bytes: no
-- byte is lost, repeated or made up.
pub extract_messages-split :
    (c : Codes) (f : BulleFormat) (bytes : List ℕ) (size : ℕ) (r : Extracted)
    → extract_messages c f bytes size ≡ some r
    → concat r.messages ≡ take size bytes
unfolding extract_messages
extract_messages-split c f bytes size r e = extract_from-split (suc size) c f bytes size r e
