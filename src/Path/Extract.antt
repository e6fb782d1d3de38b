-- ===== src/Path/Extract.antt =====
-- The messages inside an information frame (`m_extract_messages`, src/hnzpath.cpp).
use fledge_south_hnz.Prelude.{
  ℕ, zero, suc, ◌-◌, ltb, ◌==◌, if◌then◌else◌, Bool, true, false, ◌&&◌, Option, none, some, List,
  [], ◌∷◌, get_or, take, drop,
}
use fledge_south_hnz.State.Conf.{Codes, BulleFormat}

-- Is the byte pair a received BULLE?
abbrev pub is_received_bulle : BulleFormat → List ℕ → Bool
is_received_bulle f bytes = get_or bytes 0 0 == f.first && get_or bytes 1 0 == f.second

-- The length of the first message, by its type. The cases of a `switch` are distinct.
unfoldable pub message_length : Codes → BulleFormat → List ℕ → ℕ → ℕ
message_length c f bytes payload_size =
    let t = get_or bytes 0 0 in
    if t == c.tm4_code
    then 6
    else (if t == c.tsce_code
        then 5
        else (if t == c.tscg_code
            then 6
            else (if t == c.tmn_code
                then 7
                else (if t == c.modulo_code
                    then 2
                    else (if t == c.tcack_code
                        then 3
                        else (if t == c.tvcack_code
                            then 4
                            else (if is_received_bulle f bytes then 2 else payload_size)))))))

-- Is the first message a BULLE, which restarts the inactivity timer?
unfoldable pub starts_bulle : Codes → BulleFormat → List ℕ → Bool
starts_bulle c f bytes =
    let t = get_or bytes 0 0 in
    if t == c.tm4_code
    then false
    else (if t == c.tsce_code
        then false
        else (if t == c.tscg_code
            then false
            else (if t == c.tmn_code
                then false
                else (if t == c.modulo_code
                    then false
                    else (if t == c.tcack_code
                        then false
                        else (if t == c.tvcack_code then false else is_received_bulle f bytes))))))

-- What an extraction gives: the messages, and whether a BULLE was among them.
pub record Extracted : Type 0 where
  pub messages : List (List ℕ)
  pub bulle : Bool

abbrev pub add_message : List ℕ → Bool → Option Extracted → Option Extracted
add_message msg bulle none = none
add_message msg bulle (some r) =
    some (record { messages = msg ∷ r.messages; bulle = if bulle then true else r.bulle })

-- One call, for a first message of `len` bytes, with the result for the bytes behind it.
unfoldable pub extract_step : ℕ → Bool → List ℕ → ℕ → Option Extracted → Option Extracted
extract_step len bulle bytes payload_size rest =
    if len == 0
    then some (record { messages = []; bulle = bulle })
    else (if len == payload_size
        then some (record { messages = take len bytes ∷ []; bulle = bulle })
        else (if ltb payload_size len then none else add_message (take len bytes) bulle rest))

-- `bytes` goes on to the end of the frame, the two bytes of the CRC included. `none` is a message
-- longer than what is left of the payload: the code goes on with a negative size and reads out of
-- the frame's buffer. Each call takes at least a byte, so that the payload's size bounds the calls.
unfoldable pub extract_from : ℕ → Codes → BulleFormat → List ℕ → ℕ → Option Extracted
extract_from zero c f bytes payload_size = none
extract_from (suc fuel) c f bytes payload_size =
    let len = message_length c f bytes payload_size in
    extract_step len (starts_bulle c f bytes) bytes payload_size
      (extract_from fuel c f (drop len bytes) (payload_size - len))

unfoldable pub extract_messages : Codes → BulleFormat → List ℕ → ℕ → Option Extracted
unfolding extract_from
extract_messages c f bytes payload_size = extract_from (suc payload_size) c f bytes payload_size
