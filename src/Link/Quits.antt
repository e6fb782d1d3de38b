-- ===== src/Link/Quits.antt =====
-- The results that are no exception of `map::at` (src/hnzpath.cpp, src/hnz.cpp): the frames that a
-- path receives and the queued interrogation.
use fledge_south_hnz.Prelude.{
  ℕ, ◌-◌, ◌≡◌, ltb, ◌==◌, Bool, none, some, List, [], length, drop, get_or, shr, low_bits, Result,
  ok, fault, Fault, null_pointer, out_of_range, buffer_overrun, ◌>>=◌, Ensures, if◌then◌else◌,
  if-both, option-both,
}
use fledge_south_hnz.State.Link.{PathId}
use fledge_south_hnz.State.Station.{World, path}
use fledge_south_hnz.Path.Extract.{extract_messages}
use fledge_south_hnz.Link.Gi.{send_general_interrogation, interrogate_active, send_queued_gi}
use fledge_south_hnz.Link.Frames.{
  Received, extract_on, receive_info, receive_ua, receive_sarm, receive_rr, is_connection,
  expected_direction, dispatch_frame, analyze_frame,
}
use fledge_south_hnz.Link.Interrogation.{Succeeds}

-- A result that is no exception of `map::at`.
pub Quits {ℓ} : {S : Type ℓ} → Result S → Type 0
Quits (fault out_of_range) = ⊥
Quits (fault null_pointer) = Unit
Quits (fault buffer_overrun) = Unit
Quits (ok s) = Unit

pub Quits-ok {ℓ} : {S : Type ℓ} (s : S) → Quits (ok s)
unfolding Quits
Quits-ok s = tt

Quits-null {ℓ} : (S : Type ℓ) → Quits {S = S} (fault null_pointer)
unfolding Quits
Quits-null S = tt

Quits-overrun {ℓ} : (S : Type ℓ) → Quits {S = S} (fault buffer_overrun)
unfolding Quits
Quits-overrun S = tt

pub Quits-if {ℓ} :
    {S : Type ℓ} (b : Bool) (r q : Result S) → Quits r → Quits q → Quits (if b then r else q)
Quits-if b r q h k = if-both Quits b r q h k

pub Quits->>= {ℓ μ} :
    {S : Type ℓ} {T : Type μ} (P : S → Type 0) (r : Result S) (next : S → Result T)
    → Quits r
    → Ensures P r
    → ((s : S) → P s → Quits (next s))
    → Quits (r >>= next)
unfolding Quits
Quits->>= P (fault out_of_range) next q p h = q
Quits->>= P (fault null_pointer) next q p h = tt
Quits->>= P (fault buffer_overrun) next q p h = tt
Quits->>= P (ok s) next q p h = h s p

pub Succeeds-Quits {ℓ} : {S : Type ℓ} (r : Result S) → Succeeds r → Quits r
unfolding Quits
Succeeds-Quits (fault e) (s, h) = cc
Succeeds-Quits (ok s) h = tt

pub Quits-fault {ℓ} : {S : Type ℓ} (r : Result S) → Quits r → r ≡ fault out_of_range → ⊥
unfolding Quits
Quits-fault (fault out_of_range) q e = q
Quits-fault (fault null_pointer) q e = cc
Quits-fault (fault buffer_overrun) q e = cc
Quits-fault (ok s) q e = cc

fault_Quits {ℓ μ} :
    (S : Type ℓ) (T : Type μ) (e : Fault) → Quits {S = S} (fault e) → Quits {S = T} (fault e)
unfolding Quits
fault_Quits S T out_of_range q = q
fault_Quits S T null_pointer q = tt
fault_Quits S T buffer_overrun q = tt

extract_on-Quits :
    (now : ℕ) (i : PathId) (bytes : List ℕ) (w : World) → Quits (extract_on now i bytes w)
unfolding extract_on
extract_on-Quits now i bytes w = Quits-if _ (ok ([], w)) _ (Quits-ok _) (
    Quits-if (ltb (length bytes) 4) (fault buffer_overrun) _ (Quits-overrun _) (
      option-both Quits
        (extract_messages (path i w).codes (path i w).test_msg_receive (drop 2 bytes)
          (length bytes - 4))
        (fault buffer_overrun) _ (Quits-overrun _) (λ r. Quits-ok _)))

receive_info-Quits :
    (now : ℕ) (i : PathId) (bytes : List ℕ) (w : World) → Quits (receive_info now i bytes w)
unfolding receive_info
receive_info-Quits now i bytes w =
    Quits-if _ (ok ([], w)) _ (Quits-ok _)
      (passed (extract_on now i bytes w) _ (extract_on-Quits now i bytes w))
  where
    passed :
        (r : Result Received) (f : Received → Received)
        → Quits r
        → Quits {S = Received} (elim r [ fault e ↦ fault e | ok s ↦ ok (f s) ])
    passed (fault e) f q = fault_Quits _ _ e q
    passed (ok s) f q = Quits-ok (f s)

dispatch_frame-Quits :
    (now : ℕ) (i : PathId) (bytes : List ℕ) (t : ℕ) (w : World)
    → Quits (dispatch_frame now i bytes t w)
unfolding dispatch_frame
dispatch_frame-Quits now i bytes t w =
    Quits-if (t == (path i w).codes.ua_code) (ok ([], receive_ua now i w)) _ (Quits-ok _) (
      Quits-if (t == (path i w).codes.sarm_code) (ok ([], receive_sarm now i w)) _ (Quits-ok _) (
        Quits-if (is_connection (path i w).protocol_state) (ok ([], w)) _ (Quits-ok _) (
          Quits-if (low_bits t 1 == 0) (receive_info now i bytes w) (ok ([], receive_rr now i t w))
            (receive_info-Quits now i bytes w) (Quits-ok _))))

pub analyze_frame-Quits :
    (now : ℕ) (i : PathId) (bytes : List ℕ) (w : World) → Quits (analyze_frame now i bytes w)
unfolding analyze_frame
analyze_frame-Quits now i bytes w =
    let t = get_or bytes 1 0 in
    Quits-if ((path i w).remote_address == shr (get_or bytes 0 0) 2) _ (ok ([], w))
      (Quits-if (low_bits (shr (get_or bytes 0 0) 1) 1 == expected_direction (path i w) t)
        (dispatch_frame now i bytes t w) (ok ([], w)) (dispatch_frame-Quits now i bytes t w)
        (Quits-ok _))
      (Quits-ok _)

pub Quits-bind {ℓ μ} :
    {S : Type ℓ} {T : Type μ} (r : Result S) (next : S → Result T)
    → Quits r
    → ((s : S) → Quits (next s))
    → Quits (r >>= next)
unfolding Quits
Quits-bind (fault out_of_range) next q h = q
Quits-bind (fault null_pointer) next q h = tt
Quits-bind (fault buffer_overrun) next q h = tt
Quits-bind (ok s) next q h = h s

pub send_queued_gi-Quits : (now : ℕ) (w : World) → Quits (send_queued_gi now w)
unfolding send_queued_gi interrogate_active
send_queued_gi-Quits now w =
    Quits-if w.hnz.gi_in_queue _ (ok w)
      (Quits-bind
        (elim w.conn.active_path [
          | none ↦ fault null_pointer
          | some i ↦ ok (send_general_interrogation now i w)
        ])
        _
        (option-both Quits w.conn.active_path (fault null_pointer) _ (Quits-null _)
          (λ i. Quits-ok _))
        (λ u. Quits-ok _))
      (Quits-ok w)
