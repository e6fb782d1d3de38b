-- ===== src/Link/Schedule.antt =====
-- The daily general interrogation (`m_check_GI` of src/hnzconnection.cpp).
use fledge_south_hnz.Prelude.{
  ℕ, ◌+◌, ◌*◌, ◌/◌, ◌%◌, ltb, leb, ◌==◌, ◌≡◌, refl, sym, ◌∙◌, ap, true, false, not, ◌&&◌, Option,
  none, some, ◌>>=◌, if◌then◌else◌, ok, Bool-cases, inl, inr, if-both, arith,
}
use fledge_south_hnz.State.Link.{PathId, path_a, path_b, Connection}
use fledge_south_hnz.State.Station.{World, path, put_path}
use fledge_south_hnz.Path.Send.{send_info}
use fledge_south_hnz.Path.Commands.{gi_frame}
use fledge_south_hnz.Link.Gi.{
  notify_gi_sent, send_general_interrogation, detect_new_day, check_gi_completed, check_gi_timeout,
  gi_due, send_scheduled_gi, check_gi, scheduled_time,
}

-- The time of the day at which the interrogation is scheduled, in ms.
abbrev pub time_of_day : Connection → ℕ
time_of_day c = (c.gi_schedule.hour * 60 + c.gi_schedule.min) * 60000

-- The connection at another time.
abbrev pub at_time : ℕ → Connection → Connection
at_time later c = record c { current = later }

path-send_general_interrogation :
    (now : ℕ) (i : PathId) (w : World)
    → path i (send_general_interrogation now i w) ≡ (send_info now (path i w) gi_frame).0
unfolding send_general_interrogation notify_gi_sent
path-send_general_interrogation now path_a w =
    if-both (λ (u : World). path path_a u ≡ (send_info now w.a gi_frame).0) _ _ _ refl refl
path-send_general_interrogation now path_b w =
    if-both (λ (u : World). path path_b u ≡ (send_info now w.b gi_frame).0) _ _ _ refl refl

days-send_general_interrogation :
    (now : ℕ) (i : PathId) (w : World)
    → (send_general_interrogation now i w).conn.days_since_epoch ≡ w.conn.days_since_epoch
unfolding send_general_interrogation notify_gi_sent
days-send_general_interrogation now path_a w =
    let (p, sent) = send_info now w.a gi_frame in
    if-both (λ (u : World). u.conn.days_since_epoch ≡ w.conn.days_since_epoch) sent
      (notify_gi_sent now (put_path path_a p w)) (put_path path_a p w) refl refl
days-send_general_interrogation now path_b w =
    let (p, sent) = send_info now w.b gi_frame in
    if-both (λ (u : World). u.conn.days_since_epoch ≡ w.conn.days_since_epoch) sent
      (notify_gi_sent now (put_path path_b p w)) (put_path path_b p w) refl refl

-- The connection on its new day.
abbrev on_new_day : World → World
on_new_day w = record w { conn = detect_new_day w.conn }

check_gi_timeout-idle : (now : ℕ) (w : World) → w.conn.gi_repeat ≡ 0 → check_gi_timeout now w ≡ ok w
unfolding check_gi_timeout
check_gi_timeout-idle now w e =
    let none_runs : not (w.conn.gi_repeat == 0) ≡ false = ground arith in
    ap
      (λ b.
        if b && ltb (w.conn.gi_start_time + w.conn.gi_time_max) w.conn.current
        then check_gi_completed now false w
        else ok w)
      none_runs

check_gi-idle :
    (now : ℕ) (w : World)
    → w.conn.gi_repeat ≡ 0
    → check_gi now w ≡ ok (send_scheduled_gi now (on_new_day w))
unfolding check_gi
check_gi-idle now w e =
    ap (λ r. r >>= λ (u : World). ok (send_scheduled_gi now (on_new_day u)))
      (check_gi_timeout-idle now w e)

-- A day that has begun stays.
detect_new_day-same :
    (c : Connection) → c.days_since_epoch ≡ c.current / 86400000 → detect_new_day c ≡ c
unfolding detect_new_day
detect_new_day-same c e =
    let same : (c.days_since_epoch == c.current / 86400000) ≡ true = ground arith in rw same

-- A connection on the first check of a new day, and later on that day.
module _ (c : Connection) (on : c.gi_schedule.activate ≡ true)
    (new : ¬ (c.days_since_epoch ≡ c.current / 86400000)) where
  renewed : detect_new_day c ≡ record c {
    gi_schedule_already_sent = false;
    gi_scheduled_time = scheduled_time c;
    days_since_epoch = c.current / 86400000;
  }
  unfolding detect_new_day
  renewed = elim (Bool-cases (c.days_since_epoch == c.current / 86400000)) [
    | inl e ↦ absurd (new (ground arith))
    | inr e ↦ rw e
  ]

  gi_due-renewed : gi_due (detect_new_day c) ≡ leb (time_of_day c) (c.current % 86400000)
  unfolding gi_due
  gi_due-renewed = rw renewed (ground arith)

  gi_due-waiting :
      (later : ℕ)
      → later / 86400000 ≡ c.current / 86400000
      → gi_due (detect_new_day (at_time later (detect_new_day c)))
        ≡ leb (time_of_day c) (later % 86400000)
  unfolding gi_due
  gi_due-waiting later same = rw renewed (
      ap gi_due (
        detect_new_day-same
          (record c {
            current = later;
            gi_schedule_already_sent = false;
            gi_scheduled_time = scheduled_time c;
            days_since_epoch = c.current / 86400000;
          })
          (sym same))
      ∙ ground arith)

-- An interrogation that was asked for is not due again on the same day.
gi_due-sent :
    (later : ℕ) (c : Connection)
    → later / 86400000 ≡ c.days_since_epoch
    → gi_due (detect_new_day (at_time later (record c { gi_schedule_already_sent = true }))) ≡ false
unfolding gi_due
gi_due-sent later c same =
    ap gi_due (
      detect_new_day-same (at_time later (record c { gi_schedule_already_sent = true })) (sym same))
    ∙ ground arith

path-on_new_day : (i : PathId) (w : World) → path i (on_new_day w) ≡ path i w
path-on_new_day path_a w = refl
path-on_new_day path_b w = refl

marked : World → World
marked u = record u { conn = record (u.conn) { gi_schedule_already_sent = true } }

path-marked : (i : PathId) (u : World) → path i (marked u) ≡ path i u
unfolding marked
path-marked path_a u = refl
path-marked path_b u = refl

abbrev asked : ℕ → World → Option PathId → World
asked now w o = elim o [ none ↦ w | some i ↦ send_general_interrogation now i w ]

send_scheduled_gi-asked :
    (now : ℕ) (w : World)
    → send_scheduled_gi now w
      ≡ (if gi_due w.conn then marked (asked now w w.conn.active_path) else w)
unfolding send_scheduled_gi marked
send_scheduled_gi-asked now w = refl

send_scheduled_gi-due :
    (now : ℕ) (i : PathId) (w : World)
    → gi_due w.conn ≡ true
    → w.conn.active_path ≡ some i
    → send_scheduled_gi now w ≡ marked (send_general_interrogation now i w)
send_scheduled_gi-due now i w due active =
    send_scheduled_gi-asked now w
    ∙ ap (λ b. if b then marked (asked now w w.conn.active_path) else w) due
    ∙ ap (λ o. marked (asked now w o)) active

send_scheduled_gi-early :
    (now : ℕ) (w : World) → gi_due w.conn ≡ false → send_scheduled_gi now w ≡ w
send_scheduled_gi-early now w early =
    send_scheduled_gi-asked now w
    ∙ ap (λ b. if b then marked (asked now w w.conn.active_path) else w) early

-- If no interrogation is under way, the daily one is activated and a path is active, the first
-- check on a new day asks for an interrogation on that path exactly if the time of the day has
-- come, and at any later time of that day one is due exactly if it was not asked for and its time
-- has come.
pub check_gi-new_day :
    (now later : ℕ) (i : PathId) (w : World)
    → w.conn.gi_repeat ≡ 0
    → w.conn.gi_schedule.activate ≡ true
    → w.conn.active_path ≡ some i
    → ¬ (w.conn.days_since_epoch ≡ w.conn.current / 86400000)
    → later / 86400000 ≡ w.conn.current / 86400000
    → (u : World) × ((check_gi now w ≡ ok u)
        × ((path i u ≡ (
              if leb (time_of_day w.conn) (w.conn.current % 86400000)
              then (send_info now (path i w) gi_frame).0
              else path i w))
            × (gi_due (detect_new_day (at_time later u.conn)) ≡ (
                not (leb (time_of_day w.conn) (w.conn.current % 86400000))
                && leb (time_of_day w.conn) (later % 86400000)))))
unfolding marked
check_gi-new_day now later i w idle on active new same =
    let v : World = on_new_day w in
    let due : gi_due v.conn ≡ leb (time_of_day w.conn) (w.conn.current % 86400000) =
      gi_due-renewed w.conn on new in
    elim (Bool-cases (leb (time_of_day w.conn) (w.conn.current % 86400000))) [
      | inl come ↦
          let sent : World = send_general_interrogation now i v in
          (
            marked sent,
            (
              check_gi-idle now w idle
                  ∙ ap ok (
                      send_scheduled_gi-due now i v (due ∙ come)
                        (ap (λ (c : Connection). c.active_path) (renewed w.conn on new) ∙ active)),
              (
                rw come (
                    path-marked i sent
                    ∙ path-send_general_interrogation now i v
                    ∙ ap (λ p. (send_info now p gi_frame).0) (path-on_new_day i w)),
                rw come (
                    gi_due-sent later sent.conn (
                      same
                      ∙ sym (
                          days-send_general_interrogation now i v
                          ∙ ap (λ (c : Connection). c.days_since_epoch) (renewed w.conn on new)))),
              ),
            ),
          )
      | inr early ↦ (
        v,
        (
          check_gi-idle now w idle ∙ ap ok (send_scheduled_gi-early now v (due ∙ early)),
          (rw early (path-on_new_day i w), rw early (gi_due-waiting w.conn on new later same)),
        ),
      )
    ]
