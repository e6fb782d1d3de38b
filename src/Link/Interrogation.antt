-- ===== src/Link/Interrogation.antt =====
-- General interrogations in a round of the connection's thread (`m_check_GI` and `checkGICompleted` of
-- src/hnzconnection.cpp, `GICompleted` of src/hnz.cpp).
use fledge_south_hnz.Prelude.{
  ℕ, ◌+◌, ltb, ◌==◌, ◌≡◌, refl, Bool, true, false, not, ◌&&◌, Option, none, some, List,
  if◌then◌else◌, Result, ok, fault, null_pointer, out_of_range, ◌>>=◌,
}
use fledge_south_hnz.State.Conf.{Labels, labels_of}
use fledge_south_hnz.State.Link.{PathId}
use fledge_south_hnz.State.Station.{World, Hnz}
use fledge_south_hnz.Station.Reading.{send_all_quality_readings, send_all_ts_quality_readings}
use fledge_south_hnz.Link.Gi.{
  send_general_interrogation, interrogate_active, on_gi_completed, reset_gi_queue, send_queued_gi,
  gi_completed, check_gi_completed, check_gi_timeout, check_gi,
}

abbrev pub Succeeds {ℓ} : {S : Type ℓ} → Result S → Type ℓ
Succeeds {S} r = (s : S) × (r ≡ ok s)

pub Succeeds-if {ℓ} :
    {S : Type ℓ} (b : Bool) (r q : Result S)
    → Succeeds r
    → Succeeds q
    → Succeeds (if b then r else q)
Succeeds-if true r q h k = h
Succeeds-if false r q h k = k

pub Succeeds->>= {ℓ μ} :
    {S : Type ℓ} {T : Type μ} (r : Result S) (next : S → Result T)
    → Succeeds r
    → ((s : S) → Succeeds (next s))
    → Succeeds (r >>= next)
Succeeds->>= (fault e) next (s, h) k = cc
Succeeds->>= (ok x) next h k = k x

send_queued_gi-Succeeds :
    (now : ℕ) (i : PathId) (w : World)
    → w.conn.active_path ≡ some i
    → Succeeds (send_queued_gi now w)
unfolding send_queued_gi interrogate_active
send_queued_gi-Succeeds now i w active =
    Succeeds-if w.hnz.gi_in_queue _ (ok w)
      (Succeeds->>= (interrogate_active now w) _ (asked w.conn.active_path active) (λ u. (_, refl)))
      (w, refl)
  where
    asked :
        (o : Option PathId)
        → o ≡ some i
        → Succeeds (elim o [
          | none ↦ fault null_pointer
          | some j ↦ ok (send_general_interrogation now j w)
        ])
    asked none e = cc
    asked (some j) e = (_, refl)

pub send_all_ts_quality_readings-Succeeds :
    (now : ℕ) (invalid outdated : Bool) (reject : List ℕ) (h : Hnz) (ls : Labels)
    → labels_of "TS" h.conf.remote_station_addr h.conf.msg_list ≡ some ls
    → Succeeds (send_all_ts_quality_readings now invalid outdated reject h)
unfolding send_all_ts_quality_readings send_all_quality_readings
send_all_ts_quality_readings-Succeeds now invalid outdated reject h ls configured =
    found _ (labels_of "TS" h.conf.remote_station_addr h.conf.msg_list) configured
  where
    found :
        (send : Labels → Hnz) (o : Option Labels)
        → o ≡ some ls
        → Succeeds (elim o [ none ↦ fault out_of_range | some l ↦ ok (send l) ])
    found send none e = cc
    found send (some l) e = (_, refl)

gi_completed-Succeeds :
    (now : ℕ) (success : Bool) (i : PathId) (w : World) (ls : Labels)
    → w.conn.active_path ≡ some i
    → labels_of "TS" w.hnz.conf.remote_station_addr w.hnz.conf.msg_list ≡ some ls
    → Succeeds (gi_completed now success w)
unfolding gi_completed on_gi_completed reset_gi_queue
gi_completed-Succeeds now success i w ls active configured =
    Succeeds->>= (send_all_ts_quality_readings now true false w.hnz.gi_addresses_received w.hnz) _
      (send_all_ts_quality_readings-Succeeds now true false w.hnz.gi_addresses_received w.hnz ls
        configured)
      (λ h. send_queued_gi-Succeeds now i _ active)

-- If a path is active and TS are configured for the station, the check of the general
-- interrogations in a round ends without a fault.
pub check_gi-Succeeds :
    (now : ℕ) (i : PathId) (w : World) (ls : Labels)
    → w.conn.active_path ≡ some i
    → labels_of "TS" w.hnz.conf.remote_station_addr w.hnz.conf.msg_list ≡ some ls
    → (u : World) × (check_gi now w ≡ ok u)
unfolding check_gi check_gi_timeout check_gi_completed
check_gi-Succeeds now i w ls active configured =
    Succeeds->>= (check_gi_timeout now w) _
      (Succeeds-if
        (not (w.conn.gi_repeat == 0)
          && ltb (w.conn.gi_start_time + w.conn.gi_time_max) w.conn.current)
        _ (ok w)
        (Succeeds-if (ltb w.conn.gi_repeat_count_max w.conn.gi_repeat) _ _
          (gi_completed-Succeeds now false i w ls active configured) (_, refl))
        (w, refl))
      (λ u. (_, refl))
