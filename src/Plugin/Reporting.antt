-- ===== src/Plugin/Reporting.antt =====
-- What the plugin (src/hnz.cpp) tells in its audits, and the configuration that it runs with.
use fledge_south_hnz.Prelude.{
  ℕ, ◌≡◌, refl, sym, ap, ◌∙◌, Bool, true, false, ◌||◌, [], ok, fault, null_pointer, Ensures,
  Ensures->>=, Ensures-if, Ensures-and, if-both, if-when,
}
use mathlib.Core.Path.{subst}
use fledge_south_hnz.State.Conf.{HnzConf, is_complete}
use fledge_south_hnz.Conf.Limits.{Limits}
use fledge_south_hnz.State.Station.{World, Hnz}
use fledge_south_hnz.Link.Report.{
  Report, SameReport, send_all_tm_quality_readings-SameReport,
  send_all_ts_quality_readings-SameReport, is_configured, send_all_tm_quality_readings-configured,
  send_all_ts_quality_readings-configured,
}
use fledge_south_hnz.Link.Quiet.{Quiet, hnz-Quiet}
use fledge_south_hnz.Link.Rounds.{stop_connection-Holds}
use fledge_south_hnz.Link.Timers.{stop_connection}
use fledge_south_hnz.Link.Audits.{Told}
use fledge_south_hnz.Link.Audited.{Told-IsInvariant}
use fledge_south_hnz.Station.Reading.{send_all_tm_quality_readings, send_all_ts_quality_readings}
use fledge_south_hnz.Plugin.{Plugin, launch, start, stop}
use fledge_south_hnz.Plugin.Invariant.{IsValid}

-- What a plugin that runs relies on.
abbrev pub Fits : HnzConf → Type 0
Fits c = (is_complete c ≡ true) × ((is_configured "TM" c ≡ true) × (is_configured "TS" c ≡ true))

-- The configuration is within its limits, a plugin that runs has a configuration that fits, and one
-- with a complete configuration and a connection has told of it.
pub record Reports (p : Plugin) : Type 0 where
  pub limits : Limits p.world.hnz.conf
  pub fits : p.is_running ≡ true → Fits p.world.hnz.conf
  pub told :
      is_complete p.world.hnz.conf ≡ true → p.has_connection ≡ true → Told p.world.hnz.conf p.world

pub Told-own : {c : HnzConf} {w : World} → Told c w → Told w.hnz.conf w
Told-own t = record { conf = refl; on_a = t.on_a; on_b = t.on_b; service = t.service }

pub Quiet-move :
    (p : Plugin) {w : World} → Quiet p.world w → Reports p → Reports (record p { world = w })
Quiet-move p {w} q v =
    let e = ap (λ (r : Report). r.conf) q.reported in
    record {
      limits = subst Limits (sym e) v.limits;
      fits = λ r. subst Fits (sym e) (v.fits r);
      told = λ c h.
          Told-own
            ((Told-IsInvariant p.world.hnz.conf).quiet q (v.told (ap is_complete (sym e) ∙ c) h));
    }

-- A step of the plugin that runs.
pub Told-move :
    (p : Plugin) {w : World}
    → Told p.world.hnz.conf w
    → Reports p
    → Reports (record p { world = w })
Told-move p t v = record {
  limits = subst Limits (sym t.conf) v.limits;
  fits = λ r. subst Fits (sym t.conf) (v.fits r);
  told = λ c h. Told-own t;
}

launched :
    (p : Plugin) (k : Hnz)
    → SameReport p.world.hnz k
    → Fits p.world.hnz.conf
    → Reports p
    → Reports (record p { world = record (p.world) { hnz = k }; is_running = true })
launched p k same c v =
    let u = Quiet-move p (hnz-Quiet p.world k same) v in
    record {
      limits = u.limits;
      fits = λ r. subst Fits (ap (λ (r : Report). r.conf) (sym same)) c;
      told = u.told;
    }

launch-Reports :
    (now : ℕ) (p : Plugin)
    → is_complete p.world.hnz.conf ≡ true
    → Reports p
    → Ensures Reports (launch now p)
unfolding launch
launch-Reports now p c v =
    let h = p.world.hnz in
    Ensures->>= (λ k. SameReport h k × (is_configured "TM" h.conf ≡ true)) Reports
      (send_all_tm_quality_readings true false [] h) _
      (Ensures-and (SameReport h) (λ k. is_configured "TM" h.conf ≡ true) _
        (send_all_tm_quality_readings-SameReport true false [] h)
        (send_all_tm_quality_readings-configured true false [] h))
      (λ k before.
        Ensures->>= (λ l. SameReport k l × (is_configured "TS" k.conf ≡ true)) Reports
          (send_all_ts_quality_readings now true false [] k) _
          (Ensures-and (SameReport k) (λ l. is_configured "TS" k.conf ≡ true) _
            (send_all_ts_quality_readings-SameReport now true false [] k)
            (send_all_ts_quality_readings-configured now true false [] k))
          (λ l after.
            Ensures-if Reports p.has_connection _ (fault null_pointer)
              (launched p l (after.0 ∙ before.0)
                (
                  c,
                  (
                    before.1,
                    ap (λ (r : Report). is_configured "TS" r.conf) (sym before.0) ∙ after.1,
                  ),
                )
                v)
              tt))

pub start-Reports :
    (now : ℕ) (requested : Bool) (p : Plugin) → Reports p → Ensures Reports (start now requested p)
unfolding start
start-Reports now requested p v =
    let q : Plugin = record p { should_run = requested || p.should_run } in
    let u : Reports q = record { limits = v.limits; fits = v.fits; told = v.told } in
    Ensures-if Reports q.is_running (ok q) _ u (
      if-when (Ensures Reports) (is_complete q.world.hnz.conf) (launch now q) (ok q)
        (λ c. launch-Reports now q c u) u)

-- A plugin that runs has told of its configuration and its connection.
pub running-Told :
    (p : Plugin) → IsValid p → Reports p → p.is_running ≡ true → Told p.world.hnz.conf p.world
running-Told p v t r = t.told (t.fits r).0 (v.linked r)

-- A plugin that is stopped has no connection to tell of.
pub stop-Reports :
    (now : ℕ) (requested : Bool) (p : Plugin)
    → IsValid p
    → p.is_running ≡ true
    → Reports p
    → Reports (stop now requested p)
unfolding stop
stop-Reports now requested p v r t =
    let c = p.world.hnz.conf in
    let u = stop_connection-Holds (Told-IsInvariant c) now p.world (running-Told p v t r) in
    record {
      limits =
          if-both (λ (w : World). Limits w.hnz.conf) p.has_connection (stop_connection now p.world)
            p.world (subst Limits (sym u.conf) t.limits) t.limits;
      fits = λ e. cc;
      told = λ d e. cc;
    }
