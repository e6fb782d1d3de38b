-- ===== src/Plugin/Rounds.antt =====
-- The rounds of the connection's thread (src/hnzconnection.cpp) in a plugin that runs.
use fledge_south_hnz.Prelude.{
  ℕ, ◌^◌, ◌+◌, ◌≡◌, refl, sym, ap, ◌∙◌, ltb, leb, ◌==◌, Bool, true, false, not, ◌&&◌, some,
  Option-cases, inl, inr, List, [], String, Result, ok, fault, ◌>>=◌, Ensures, if-cases, arith,
}
use mathlib.Core.Path.{subst}
use fledge_south_hnz.State.Clock.{Clock}
use fledge_south_hnz.State.Conf.{HnzConf, Labels, Codes, labels_of}
use fledge_south_hnz.State.Link.{path_a, path_b}
use fledge_south_hnz.State.Station.{World, Hnz}
use fledge_south_hnz.Conf.Json.{Json, Conversions}
use fledge_south_hnz.Station.Reading.{send_all_tm_quality_readings, update_quality_update_timer}
use fledge_south_hnz.Link.Report.{
  Report, has_labels, is_configured, SameReport, send_all_tm_quality_readings-SameReport,
}
use fledge_south_hnz.Link.Quiet.{Quiet, conn-Quiet, IsInvariant}
use fledge_south_hnz.Link.Asking.{Asking, CoherentAsking, CoherentAsking-IsInvariant}
use fledge_south_hnz.Link.Audits.{Told}
use fledge_south_hnz.Link.Audited.{Told-IsInvariant}
use fledge_south_hnz.Link.Calm.{check_gi-Calm}
use fledge_south_hnz.Link.Gi.{check_gi, check_gi_timeout}
use fledge_south_hnz.Link.Interrogation.{
  Succeeds, Succeeds-if, Succeeds->>=, check_gi-Succeeds, send_all_ts_quality_readings-Succeeds,
}
use fledge_south_hnz.Link.Rounds.{check_path-Holds}
use fledge_south_hnz.Link.Timers.{manage_messages, update_current_time, check_path, update_timer}
use fledge_south_hnz.Plugin.{Plugin, Category}
use fledge_south_hnz.Plugin.Entry.{Call, live}
use fledge_south_hnz.Plugin.Faults.{send_all_tm_quality_readings-ok}
use fledge_south_hnz.Plugin.Reporting.{running-Told}
use fledge_south_hnz.Plugin.Promises.{live-Reports}

Succeeds-then {ℓ μ} :
    {S : Type ℓ} {T : Type μ} (P : S → Type 0) (r : Result S) (next : S → Result T)
    → Succeeds r
    → Ensures P r
    → ((s : S) → P s → Succeeds (next s))
    → Succeeds (r >>= next)
Succeeds-then P (fault e) next (s, h) p k = cc
Succeeds-then P (ok x) next h p k = k x p

-- A message of both types is configured.
abbrev Labelled : HnzConf → Type 0
Labelled c = (is_configured "TM" c ≡ true) × (is_configured "TS" c ≡ true)

pub labels_for :
    (code : String) (c : HnzConf)
    → is_configured code c ≡ true
    → (ls : Labels) × (labels_of code c.remote_station_addr c.msg_list ≡ some ls)
labels_for code c e = elim (Option-cases (labels_of code c.remote_station_addr c.msg_list)) [
  | inl n ↦ let f = ap has_labels n in cc
  | inr (ls, f) ↦ (ls, f)
]

check_gi_rests : (now : ℕ) (w : World) → w.conn.gi_repeat ≡ 0 → Succeeds (check_gi now w)
unfolding check_gi check_gi_timeout
check_gi_rests now w e =
    Succeeds->>= (check_gi_timeout now w) _
      (if-cases Succeeds
        (not (w.conn.gi_repeat == 0)
          && ltb (w.conn.gi_start_time + w.conn.gi_time_max) w.conn.current)
        _ (ok w) (λ f. ground arith) (λ f. (w, refl)))
      (λ u. (_, refl))

check_gi-ends : (now : ℕ) (w : World) → Asking w → Labelled w.hnz.conf → Succeeds (check_gi now w)
check_gi-ends now w h l = elim (Option-cases w.conn.active_path) [
  | inl e ↦ check_gi_rests now w (h e)
  | inr (i, e) ↦ let (ls, f) = labels_for "TS" w.hnz.conf l.1 in check_gi-Succeeds now i w ls e f
]

update_timer-ends : (now : ℕ) (w : World) → Labelled w.hnz.conf → Succeeds (update_timer now w)
unfolding update_timer update_quality_update_timer
update_timer-ends now w l =
    let elapsed = w.conn.elapsed_time_ms in
    let h = w.hnz in
    let k : Hnz = record h { quality_update_timer = 0 } in
    let (tms, e) = labels_for "TM" h.conf l.0 in
    let (tss, f) = labels_for "TS" h.conf l.1 in
    let (sent, (g, kept)) = send_all_tm_quality_readings-ok false true [] k tms e in
    Succeeds->>= (update_quality_update_timer now elapsed h) _
      (Succeeds-if (h.quality_update_timer == 0) (ok h) _ (h, refl)
        (Succeeds-if (leb (2 ^ 63) elapsed) _ _ (_, refl)
          (Succeeds-if (ltb elapsed h.quality_update_timer) _ _ (_, refl)
            (Succeeds-then (SameReport k) (send_all_tm_quality_readings false true [] k) _ (sent, g)
              (send_all_tm_quality_readings-SameReport false true [] k)
              (λ m same. send_all_ts_quality_readings-Succeeds now false true [] m tss (
                ap (λ (r : Report). labels_of "TS" r.conf.remote_station_addr r.conf.msg_list) same
                ∙ f))))))
      (λ m. (_, refl))

-- The checks of the paths and of the interrogations keep what the timer needs.
manage_messages-ends :
    (clock : Clock) (tcp_a tcp_b : Bool) (w : World)
    → CoherentAsking w
    → Told w.hnz.conf w
    → Labelled w.hnz.conf
    → Succeeds (manage_messages clock tcp_a tcp_b w)
unfolding manage_messages update_current_time
manage_messages-ends clock tcp_a tcp_b w v t l =
    let c = w.hnz.conf in
    let u : World = record w { conn = update_current_time clock.now w.conn } in
    let q : Quiet w u =
      conn-Quiet w (update_current_time clock.now w.conn) refl refl refl (λ e. e) in
    let x = check_path clock tcp_a path_a u in
    let y = check_path clock tcp_b path_b x in
    let told : Told c y = checked (Told-IsInvariant c) q t in
    let asks : CoherentAsking y = checked CoherentAsking-IsInvariant q v in
    Succeeds-then (Quiet y) (check_gi clock.now y) (update_timer clock.now)
      (check_gi-ends clock.now y asks.1 (subst Labelled (sym told.conf) l))
      (check_gi-Calm clock.now y)
      (λ z still.
        update_timer-ends clock.now z
          (subst Labelled (sym (ap (λ (r : Report). r.conf) still.reported ∙ told.conf)) l))
  where
    checked :
        {Holds : World → Type 0}
        → IsInvariant Holds
        → {u : World} → Quiet w u
        → Holds w
        → Holds (check_path clock tcp_b path_b (check_path clock tcp_a path_a u))
    checked inv {u} q h =
        check_path-Holds inv clock tcp_b path_b (check_path clock tcp_a path_a u)
          (check_path-Holds inv clock tcp_a path_a u (inv.quiet q h))

-- After `plugin_init` with any configuration and any sequence of further calls and events without
-- a fault, if the plugin runs, a further round of the connection's thread ends without a fault, at
-- any time and for any state of the TCP connections: no exception of `map::at` and no call through
-- a null active path.
pub live-manage_messages :
    {V : Type 0} (json : Json V) (conv : Conversions) (now : ℕ) (config : Category) (codes : Codes)
    (w : World) (xs : List Call) {p : Plugin} (clock : Clock) (tcp_a tcp_b : Bool)
    → live json conv now config codes w xs ≡ ok p
    → p.is_running ≡ true
    → (u : World) × (manage_messages clock tcp_a tcp_b p.world ≡ ok u)
live-manage_messages json conv now config codes w xs {p} clock tcp_a tcp_b e r =
    let (v, t) = live-Reports json conv now config codes w xs e in
    manage_messages-ends clock tcp_a tcp_b p.world (v.coherent, v.asking) (running-Told p v t r)
      (t.fits r).1
