-- ===== src/Link/Steps.antt =====
-- Received frames and the management of a path (src/hnzpath.cpp) under the invariant of the two
-- paths.
use fledge_south_hnz.Prelude.{
  ℕ, ◌+◌, ◌-◌, ◌*◌, ltb, leb, ◌==◌, ◌≡◌, refl, Bool, true, not, List, [], length, drop, get_or,
  low_bits, shr, none, some, Result, ok, fault, buffer_overrun, Ensures, Ensures-if, if-both,
  if◌then◌else◌,
}
use fledge_south_hnz.State.Link.{
  HnzPath, PathId, ConnectionEvent, ProtocolState, connection, input_connected, output_connected,
  connected, received_sarm, received_ua, to_recv, max_sarm_sent,
}
use fledge_south_hnz.State.Station.{World, path}
use fledge_south_hnz.Path.Send.{send_ua, send_bulle, received_bulle}
use fledge_south_hnz.Path.Extract.{extract_messages}
use fledge_south_hnz.Link.Activity.{can_path_extract_message}
use fledge_south_hnz.Link.Protocol.{on_path, protocol_state_transition}
use fledge_south_hnz.Link.Steady.{
  view-Steady, send_ua-Steady, send_sarm-Steady, send_bulle-Steady, send_rr-Steady,
  received_rr-Steady,
}
use fledge_south_hnz.Link.Quiet.{Quiet, Quiet-refl, IsInvariant, Quiet-created, put_path-Quiet}
use fledge_south_hnz.Link.Frames.{
  Received, receive_sarm, receive_ua, ns_of, pf_of, nr_of, extract_on, acknowledge_on, is_output,
  receive_info, receive_rr, is_connection, expected_direction, dispatch_frame, analyze_frame,
  manage_sarm, bulle_time_ms, manage_bulle, manage_state, manage_hnz_protocol_state,
}

module _ {Holds : World → Type 0} (inv : IsInvariant Holds) where
  -- A frame leaves the invariant, beside the messages.
  abbrev Kept : Received → Type 0
  Kept r = Holds r.1

  -- A transition after an operation that is quiet.
  transition_after :
      (now : ℕ) (i : PathId) (e : ConnectionEvent) {w u : World}
      → Quiet w u
      → (path i w).created ≡ true
      → Holds w
      → Holds (protocol_state_transition now i e u)
  transition_after now i e {w} {u} q m v =
      inv.transition now i e u (Quiet-created i q m) (inv.quiet q v)

  receive_sarm-Holds :
      (now : ℕ) (i : PathId) (w : World)
      → (path i w).created ≡ true
      → Holds w
      → Holds (receive_sarm now i w)
  unfolding receive_sarm
  receive_sarm-Holds now i w m v =
      let u : World = on_path (send_ua now) i w in
      let q : Quiet w u = put_path-Quiet i _ w (send_ua-Steady now (path i w)) in
      if-both Holds (ltb ((path i u).last_connected + (path i u).repeat_timeout) now) _ _
        (transition_after now i received_sarm q m v) (inv.quiet q v)

  receive_rr-Holds :
      (now : ℕ) (i : PathId) (t : ℕ) (w : World) → Holds w → Holds (receive_rr now i t w)
  unfolding receive_rr
  receive_rr-Holds now i t w v =
      inv.quiet (put_path-Quiet i _ w (received_rr-Steady now (path i w) (nr_of t) (pf_of t == 1)))
        v

  extract_on-Holds :
      (now : ℕ) (i : PathId) (frame : List ℕ) (w : World)
      → Holds w
      → Ensures Kept (extract_on now i frame w)
  unfolding extract_on received_bulle
  extract_on-Holds now i frame w v = Ensures-if Kept (not (can_path_extract_message i w)) _ _ v (
      Ensures-if Kept (ltb (length frame) 4) _ _ tt
        (elim (extract_messages (path i w).codes (path i w).test_msg_receive (drop 2 frame)
            (length frame - 4))
          as (λ o. Ensures Kept (elim o [
            | none ↦ fault buffer_overrun
            | some r ↦ ok (r.messages, if r.bulle then on_path (received_bulle now) i w else w)
          ])) [
            | none ↦ tt
            | some r ↦
                if-both Holds r.bulle _ w
                  (inv.quiet (put_path-Quiet i (received_bulle now (path i w)) w (view-Steady refl))
                    v)
                  v
          ]))

  receive_info-Holds :
      (now : ℕ) (i : PathId) (frame : List ℕ) (w : World)
      → Holds w
      → Ensures Kept (receive_info now i frame w)
  unfolding receive_info acknowledge_on
  receive_info-Holds now i frame w v =
      Ensures-if Kept (is_output (path i w).protocol_state) _ _ v
        (acknowledged (extract_on now i frame w) (extract_on-Holds now i frame w v))
    where
      acknowledged :
          (x : Result Received)
          → Ensures Kept x
          → Ensures Kept
              (elim x [ fault e ↦ fault e | ok r ↦ ok (acknowledge_on now i (get_or frame 1 0) r) ])
      acknowledged (fault e) h = tt
      acknowledged (ok (messages, u)) h =
          let t : ℕ = get_or frame 1 0 in
          inv.quiet
            (put_path-Quiet i _ u
              (send_rr-Steady now (path i u) (pf_of t == 1) (ns_of t) (nr_of t)))
            h

  dispatch_frame-Holds :
      (now : ℕ) (i : PathId) (frame : List ℕ) (t : ℕ) (w : World)
      → (path i w).created ≡ true
      → Holds w
      → Ensures Kept (dispatch_frame now i frame t w)
  unfolding dispatch_frame receive_ua
  dispatch_frame-Holds now i frame t w m v =
      Ensures-if Kept (t == (path i w).codes.ua_code) _ _ (inv.transition now i received_ua w m v) (
        Ensures-if Kept (t == (path i w).codes.sarm_code) _ _ (receive_sarm-Holds now i w m v) (
          Ensures-if Kept (is_connection (path i w).protocol_state) _ _ v (
            Ensures-if Kept (low_bits t 1 == 0) _ _ (receive_info-Holds now i frame w v)
              (receive_rr-Holds now i t w v))))

  -- A received frame, whatever its bytes are.
  pub analyze_frame-Holds :
      (now : ℕ) (i : PathId) (frame : List ℕ) (w : World)
      → (path i w).created ≡ true
      → Holds w
      → Ensures Kept (analyze_frame now i frame w)
  unfolding analyze_frame
  analyze_frame-Holds now i frame w m v =
      Ensures-if Kept ((path i w).remote_address == shr (get_or frame 0 0) 2) _ (ok ([], w))
        (Ensures-if Kept
          (low_bits (shr (get_or frame 0 0) 1) 1
            == expected_direction (path i w) (get_or frame 1 0))
          _ (ok ([], w)) (dispatch_frame-Holds now i frame (get_or frame 1 0) w m v) v)
        v

  -- The invariant, beside the time to sleep.
  abbrev Managed : ℕ × World → Type 0
  Managed r = Holds r.1

  manage_sarm-Holds :
      (now : ℕ) (i : PathId) (w : World)
      → (path i w).created ≡ true
      → Holds w
      → Holds (manage_sarm now i w).1
  unfolding manage_sarm
  manage_sarm-Holds now i w m v =
      let p : HnzPath = path i w in
      let u : World =
        if p.nbr_sarm_sent == p.max_sarm
        then protocol_state_transition now i max_sarm_sent w
        else w in
      let c : Holds u =
        if-both Holds (p.nbr_sarm_sent == p.max_sarm) _ _ (inv.transition now i max_sarm_sent w m v)
          v in
      if-both Managed (leb now (p.last_msg_time + p.inacc_timeout * 1000)) _ _
        (if-both Managed (ltb now (p.last_sarm_sent_time + p.repeat_timeout)) _ (_, _) v
          (inv.quiet (put_path-Quiet i _ u (send_sarm-Steady now (path i u))) c))
        (inv.transition now i to_recv w m v)

  manage_bulle-Holds :
      (now : ℕ) (i : PathId) (w : World)
      → (path i w).created ≡ true
      → Holds w
      → Holds (manage_bulle now i w).1
  unfolding manage_bulle
  manage_bulle-Holds now i w m v =
      let p : HnzPath = path i w in
      let due : Bool = leb (p.last_msg_sent_time + bulle_time_ms p) now in
      let u : World = if due then on_path (send_bulle now) i w else w in
      let q : Quiet w u =
        if-both (Quiet w) due (on_path (send_bulle now) i w) w
          (put_path-Quiet i (send_bulle now p) w (send_bulle-Steady now p)) (Quiet-refl w) in
      if-both Managed _ _ _ (transition_after now i to_recv q m v) (inv.quiet q v)

  pub manage_hnz_protocol_state-Holds :
      (now : ℕ) (i : PathId) (w : World)
      → (path i w).created ≡ true
      → Holds w
      → Holds (manage_hnz_protocol_state now i w).1
  unfolding manage_hnz_protocol_state manage_state
  manage_hnz_protocol_state-Holds now i w m v = managed (path i w).protocol_state
    where
      managed : (s : ProtocolState) → Holds (manage_state now i s w).1
      managed connection = manage_sarm-Holds now i w m v
      managed input_connected = manage_sarm-Holds now i w m v
      managed connected = manage_bulle-Holds now i w m v
      managed output_connected = manage_bulle-Holds now i w m v
