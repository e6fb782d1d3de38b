-- ===== src/Plugin/Invariant.antt =====
-- The operations on the object HNZ (src/hnz.cpp) under the invariants of its connection.
use fledge_south_hnz.Prelude.{
  ℕ, ◌≡◌, refl, ◌∙◌, Bool, true, false, not, ◌&&◌, ◌||◌, ap, arith, Bool-cases, inl, inr, String,
  str_eq, [], ok, fault, null_pointer, Ensures, Ensures->>=, Ensures-eq-ok, Ensures-if, if-both,
  if-when, if-cases,
}
use fledge_south_hnz.State.Conf.{HnzConf, is_complete}
use fledge_south_hnz.State.Station.{World, Hnz, not_connected}
use fledge_south_hnz.Conf.Json.{Json, Conversions}
use fledge_south_hnz.Link.Coherence.{Coherent}
use fledge_south_hnz.Link.Queues.{Queues, Queues-IsInvariant}
use fledge_south_hnz.Link.Quiet.{Quiet, hnz-Quiet, Coherent-IsInvariant}
use fledge_south_hnz.Link.Timers.{stop_connection}
use fledge_south_hnz.Link.Asking.{Asking, CoherentAsking-IsInvariant}
use fledge_south_hnz.Link.Report.{
  Report, SameReport, send_all_tm_quality_readings-SameReport,
  send_all_ts_quality_readings-SameReport,
}
use fledge_south_hnz.Link.Rounds.{stop_connection-Holds}
use fledge_south_hnz.Link.Closing.{conn_status-stop_connection}
use fledge_south_hnz.Link.Create.{create_connection, add_audit}
use fledge_south_hnz.Link.Fresh.{create_connection-Fresh, Fresh, Fresh-Coherent, Fresh-Queues}
use fledge_south_hnz.Station.Reading.{send_all_tm_quality_readings, send_all_ts_quality_readings}
use fledge_south_hnz.Plugin.{
  Plugin, Category, launch, start, stop, set_conf, read_conf, connect_plugin, stop_running,
  take_conf, set_json_config, item, refuse, reconfigure,
}

-- The invariants of the connection, that no GI waits for an answer without an active path, that no path is active while the plugin does not run, and that
-- a running plugin has a connection.
pub record IsValid (p : Plugin) : Type 0 where
  pub coherent : Coherent p.world
  pub queues : Queues p.world
  pub asking : Asking p.world
  pub idle : p.is_running ≡ false → p.world.hnz.conn_status ≡ not_connected
  pub linked : p.is_running ≡ true → p.has_connection ≡ true

-- A change of the world that the invariants of the connection allow.
pub moved :
    (p : Plugin) {w : World} → Quiet p.world w → IsValid p → IsValid (record p { world = w })
moved p q v = record {
  coherent = Coherent-IsInvariant.quiet q v.coherent;
  queues = Queues-IsInvariant.quiet q v.queues;
  asking = (CoherentAsking-IsInvariant.quiet q (v.coherent, v.asking)).1;
  idle = λ e. ap (λ (r : Report). r.status) q.reported ∙ v.idle e;
  linked = v.linked;
}

-- The invariants read the status of the station and nothing else of it.
same_status :
    (p : Plugin) (h : Hnz) (service : String)
    → h.conn_status ≡ p.world.hnz.conn_status
    → IsValid p
    → IsValid (record p { world = record (p.world) { hnz = h }; service_name = service })
same_status p h service e v = record {
  coherent = let c = v.coherent in ground arith;
  queues = let q = v.queues in record { on_a = q.on_a; on_b = q.on_b };
  asking = v.asking;
  idle = λ f. e ∙ v.idle f;
  linked = v.linked;
}

launched :
    (p : Plugin) (k : Hnz)
    → SameReport p.world.hnz k
    → p.has_connection ≡ true
    → IsValid p
    → IsValid (record p { world = record (p.world) { hnz = k }; is_running = true })
launched p k same e v = record {
  coherent = Coherent-IsInvariant.quiet (hnz-Quiet p.world k same) v.coherent;
  queues = Queues-IsInvariant.quiet (hnz-Quiet p.world k same) v.queues;
  asking = v.asking;
  idle = λ f. cc;
  linked = λ f. e;
}

launch-IsValid : (now : ℕ) (p : Plugin) → IsValid p → Ensures IsValid (launch now p)
unfolding launch
launch-IsValid now p v =
    Ensures->>= (SameReport p.world.hnz) IsValid
      (send_all_tm_quality_readings true false [] p.world.hnz) _
      (send_all_tm_quality_readings-SameReport true false [] p.world.hnz)
      (λ h same.
        Ensures->>= (SameReport h) IsValid (send_all_ts_quality_readings now true false [] h) _
          (send_all_ts_quality_readings-SameReport now true false [] h)
          (λ k again.
            if-when (Ensures IsValid) p.has_connection _ (fault null_pointer)
              (λ e. launched p k (again ∙ same) e v) tt))

pub start-IsValid :
    (now : ℕ) (requested : Bool) (p : Plugin) → IsValid p → Ensures IsValid (start now requested p)
unfolding start
start-IsValid now requested p v =
    let q : Plugin = record p { should_run = requested || p.should_run } in
    let u : IsValid q = record {
      coherent = v.coherent;
      queues = v.queues;
      asking = v.asking;
      idle = v.idle;
      linked = v.linked;
    } in
    Ensures-if IsValid q.is_running (ok q) _ u (
      Ensures-if IsValid (is_complete q.world.hnz.conf) (launch now q) (ok q)
        (launch-IsValid now q u) u)

-- After a stop the plugin is idle.
pub stop-IsValid :
    (now : ℕ) (requested : Bool) (p : Plugin) → IsValid p → IsValid (stop now requested p)
unfolding stop
stop-IsValid now requested p v = record {
  coherent =
      if-both Coherent p.has_connection _ p.world
        (stop_connection-Holds Coherent-IsInvariant now p.world v.coherent) v.coherent;
  queues =
      if-both Queues p.has_connection _ p.world
        (stop_connection-Holds Queues-IsInvariant now p.world v.queues) v.queues;
  asking =
      if-both Asking p.has_connection (stop_connection now p.world) p.world
        (stop_connection-Holds CoherentAsking-IsInvariant now p.world (v.coherent, v.asking)).1
        v.asking;
  idle = λ e.
      if-cases (λ (w : World). w.hnz.conn_status ≡ not_connected) p.has_connection _ p.world
        (λ f. conn_status-stop_connection now p.world v.coherent)
        (λ f. elim (Bool-cases p.is_running) [
          | inl r ↦ let g = v.linked r in cc
          | inr r ↦ v.idle r
        ]);
  linked = λ e. cc;
}

-- The object after a configuration: a refused one is not running.
abbrev Settled : Plugin × Bool → Type 0
Settled (p, success) = IsValid p × (success ≡ false → p.is_running ≡ false)

pub fresh :
    (p : Plugin) (w : World) (service : String) (linked : Bool)
    → Fresh w
    → p.is_running ≡ false
    → IsValid (record p { world = w; has_connection = linked; service_name = service })
fresh p w service linked f off = record {
  coherent = Fresh-Coherent w f;
  queues = Fresh-Queues w f;
  asking = λ e. f.asked;
  idle = λ e. f.status;
  linked = λ e. cc;
}

connect_plugin-Settled :
    (now : ℕ) (p : Plugin)
    → p.is_running ≡ false
    → IsValid p
    → Ensures Settled (connect_plugin now p)
unfolding connect_plugin
connect_plugin-Settled now p off v =
    let w = create_connection now p.world.hnz.conf p.world in
    let q : Plugin = record p { world = w; has_connection = true } in
    let u : IsValid q =
      fresh p w p.service_name true
        (create_connection-Fresh now p.world.hnz.conf p.world (v.idle off)) off in
    Ensures-if Settled (not w.conn.is_running) (ok (q, false)) _ (u, λ e. off)
      (Ensures-if Settled q.should_run _ (ok (q, true))
        (Ensures->>= IsValid Settled (start now false q) _ (start-IsValid now false q u)
          (λ r h. (h, λ e. cc)))
        (u, λ e. cc))

pub stop_running-IsValid : (now : ℕ) (p : Plugin) → IsValid p → IsValid (stop_running now p)
unfolding stop_running
stop_running-IsValid now p v =
    if-both IsValid p.is_running (stop now false p) p (stop-IsValid now false p v) v

pub is_running-stop_running : (now : ℕ) (p : Plugin) → (stop_running now p).is_running ≡ false
unfolding stop_running stop
is_running-stop_running now p =
    if-cases (λ (q : Plugin). q.is_running ≡ false) p.is_running (stop now false p) p (λ e. refl)
      (λ e. e)

pub take_conf-IsValid :
    (conf : HnzConf) (service : String) (p : Plugin)
    → IsValid p
    → IsValid (take_conf conf service p)
unfolding take_conf set_conf
take_conf-IsValid conf service p v = same_status p (record (p.world.hnz) { conf = conf }) _ refl v

refuse-IsValid : (p : Plugin) → IsValid p → IsValid (refuse p)
unfolding refuse add_audit
refuse-IsValid p v = same_status p _ p.service_name refl v

module _ {V : Type 0} (json : Json V) (conv : Conversions) where
  set_json_config-Settled :
      (now : ℕ) (protocol msgs service : String) (p : Plugin)
      → IsValid p
      → Ensures Settled (set_json_config json conv now protocol msgs service p)
  unfolding set_json_config take_conf
  set_json_config-Settled now protocol msgs service p v =
      let q = stop_running now p in
      let conf = read_conf json conv q.world.hnz.conf.codes protocol msgs in
      let r = take_conf conf service q in
      let x : IsValid r = take_conf-IsValid conf service q (stop_running-IsValid now p v) in
      let off : r.is_running ≡ false = is_running-stop_running now p in
      Ensures-if Settled (str_eq protocol "" && (str_eq msgs "" && str_eq service ""))
        (ok (p, true)) _ (v, λ e. cc)
        (Ensures-if Settled (is_complete conf) (connect_plugin now r) (ok (r, false))
          (connect_plugin-Settled now r off x) (x, λ e. off))

  pub reconfigure-IsValid :
      (now : ℕ) (config : Category) (p : Plugin)
      → IsValid p
      → Ensures IsValid (reconfigure json conv now config p)
  unfolding reconfigure
  reconfigure-IsValid now config p v =
      let protocol = item config.protocol_stack in
      let msgs = item config.exchanged_data in
      Ensures->>= Settled IsValid (set_json_config json conv now protocol msgs config.name p) _
        (set_json_config-Settled now protocol msgs config.name p v)
        (λ r h. if-both IsValid r.1 r.0 (refuse r.0) h.0 (refuse-IsValid r.0 h.0))

  -- If a plugin in which `IsValid` holds refuses a configuration, it does not run afterwards, and
  -- its status is not connected.
  pub set_json_config-refused :
      (now : ℕ) (protocol msgs service : String) (p : Plugin) {q : Plugin}
      → IsValid p
      → set_json_config json conv now protocol msgs service p ≡ ok (q, false)
      → (q.is_running ≡ false) × (q.world.hnz.conn_status ≡ not_connected)
  set_json_config-refused now protocol msgs service p v e =
      let h = Ensures-eq-ok Settled e (set_json_config-Settled now protocol msgs service p v) in
      (h.1 refl, h.0.idle (h.1 refl))
