-- ===== src/Plugin/Promises.antt =====
-- What a plugin that runs has told Fledge, and what its configuration is, over its whole life
-- (src/plugin.cpp, src/hnz.cpp).
use fledge_south_hnz.Prelude.{
  ℕ, ◌≡◌, ◌≤◌, refl, Bool, true, not, ◌&&◌, List, [], ◌∷◌, some, ok, fault, null_pointer, Ensures,
  Ensures->>=, Ensures-eq-ok, Ensures-if, Ensures-and, if-when, and-true,
}
use fledge_south_hnz.State.Conf.{Codes, is_complete}
use fledge_south_hnz.State.Station.{World}
use fledge_south_hnz.State.Link.{path_a, path_b}
use fledge_south_hnz.Conf.Json.{Json, Conversions}
use fledge_south_hnz.Conf.Bounds.{InRange}
use fledge_south_hnz.Conf.Limits.{new_conf-Limits}
use fledge_south_hnz.Link.Report.{is_configured}
use fledge_south_hnz.Link.Quiet.{hnz-Quiet}
use fledge_south_hnz.Link.Audits.{Told, latest, is_of, is_of_service, path_audit, service_audit}
use fledge_south_hnz.Link.Audited.{Told-IsInvariant}
use fledge_south_hnz.Station.Monitor.{register_ingest}
use fledge_south_hnz.Station.Calm.{operation-Quiet}
use fledge_south_hnz.System.{step}
use fledge_south_hnz.System.Invariant.{step-Holds}
use fledge_south_hnz.Link.Create.{declared_link}
use fledge_south_hnz.Plugin.{
  Plugin, Category, new_hnz, new_plugin, stop, shutdown, needs_connection, operate,
}
use fledge_south_hnz.Plugin.Entry.{
  Call, starts_plugin, registers, reconfigures, operates_plugin, shuts_down, works, call, calls,
  live, plugin_init, plugin_start, plugin_register_ingest, plugin_reconfigure, plugin_operation,
  plugin_shutdown,
}
use fledge_south_hnz.Plugin.Invariant.{IsValid, reconfigure-IsValid}
use fledge_south_hnz.Plugin.Reporting.{
  Reports, Quiet-move, start-Reports, stop-Reports, running-Told, Told-move,
}
use fledge_south_hnz.Plugin.Renewal.{reconfigure-Reports}
use fledge_south_hnz.Plugin.Life.{call-IsValid, new_plugin-IsValid}

module _ {V : Type 0} (json : Json V) (conv : Conversions) where
  call-Reports :
      (x : Call) (p : Plugin) → IsValid p → Reports p → Ensures Reports (call json conv x p)
  unfolding call plugin_start plugin_register_ingest plugin_reconfigure plugin_operation
      plugin_shutdown register_ingest shutdown operate
  call-Reports (starts_plugin now) p v t = start-Reports now true p t
  call-Reports registers p v t = Quiet-move p (hnz-Quiet p.world _ refl) t
  call-Reports (reconfigures now config) p v t = reconfigure-Reports json conv now config p v t
  call-Reports (operates_plugin stoi now name params) p v t =
      Ensures->>= (λ (r : Plugin × Bool). Reports r.0) Reports (operate stoi now name params p) _
        (Ensures-if (λ (r : Plugin × Bool). Reports r.0)
          (not p.has_connection && needs_connection stoi name params) (fault null_pointer) _ tt
          (Quiet-move p (operation-Quiet stoi now name params p.world) t))
        (λ r h. h)
  call-Reports (shuts_down now) p v t =
      if-when Reports p.is_running (stop now true p) p (λ r. stop-Reports now true p v r t) t
  call-Reports (works e) p v t =
      if-when (Ensures Reports) p.is_running _ (ok p)
        (λ r.
          let c = p.world.hnz.conf in
          Ensures->>= (Told c) Reports (step e p.world) _
            (step-Holds (Told-IsInvariant c) e p.world (running-Told p v t r))
            (λ w u. Told-move p u t))
        t

  calls-Reports :
      (xs : List Call) (p : Plugin)
      → IsValid p × Reports p
      → Ensures (λ q. IsValid q × Reports q) (calls json conv xs p)
  unfolding calls
  calls-Reports [] p v = v
  calls-Reports (x ∷ xs) p v =
      let Both : Plugin → Type 0 = λ q. IsValid q × Reports q in
      Ensures->>= Both Both (call json conv x p) (calls json conv xs)
        (Ensures-and IsValid Reports (call json conv x p) (call-IsValid json conv x p v.0)
          (call-Reports x p v.0 v.1))
        (calls-Reports xs)

new_plugin-Reports : (codes : Codes) (w : World) → Reports (new_plugin codes w)
unfolding new_plugin new_hnz declared_link
new_plugin-Reports codes w = record {
  limits = new_conf-Limits codes;
  fits = λ e. cc;
  told = λ e f. cc;
}

module _ {V : Type 0} (json : Json V) (conv : Conversions) (now : ℕ) (config : Category)
    (codes : Codes) (w : World) where
  live-Both :
      (xs : List Call) → Ensures (λ q. IsValid q × Reports q) (live json conv now config codes w xs)
  unfolding live plugin_init
  live-Both xs =
      let p = new_plugin codes w in
      let v = new_plugin-IsValid codes w in
      let Both : Plugin → Type 0 = λ q. IsValid q × Reports q in
      Ensures->>= Both Both (plugin_init json conv now config codes w) (calls json conv xs)
        (Ensures-and IsValid Reports (plugin_init json conv now config codes w)
          (reconfigure-IsValid json conv now config p v)
          (reconfigure-Reports json conv now config p v (new_plugin-Reports codes w)))
        (calls-Reports json conv xs)

  pub live-Reports :
      (xs : List Call) {p : Plugin}
      → live json conv now config codes w xs ≡ ok p
      → IsValid p × Reports p
  live-Reports xs e = Ensures-eq-ok (λ q. IsValid q × Reports q) e (live-Both xs)

  -- After `plugin_init` with any configuration and any sequence of further calls and events
  -- without a fault, if the plugin runs, the latest audit of each path tells its state (unused,
  -- active, passive, or failed), and the latest audit of the service tells the reported status.
  pub live-Told :
      (xs : List Call) {p : Plugin}
      → live json conv now config codes w xs ≡ ok p
      → p.is_running ≡ true
      → (latest (is_of path_a) p.world.hnz.audits ≡ some (path_audit path_a p.world.a))
        × ((latest (is_of path_b) p.world.hnz.audits ≡ some (path_audit path_b p.world.b))
            × (latest is_of_service p.world.hnz.audits
                ≡ some (service_audit p.world.hnz.conn_status)))
  live-Told xs {p} e r =
      let (v, t) = live-Reports xs e in
      let u = running-Told p v t r in (u.on_a, (u.on_b, u.service))

  -- After `plugin_init` with any configuration and any sequence of further calls and events
  -- without a fault, if the plugin runs, the address of its station is at most 64, its scheduled
  -- GI is off or a time of the day, its two BULLE are pairs of bytes, and a TM and a TS are
  -- configured for the station.
  pub live-InRange :
      (xs : List Call) {p : Plugin}
      → live json conv now config codes w xs ≡ ok p
      → p.is_running ≡ true
      → (p.world.hnz.conf.remote_station_addr ≤ 64)
        × (InRange p.world.hnz.conf
            × ((is_configured "TM" p.world.hnz.conf ≡ true)
                × (is_configured "TS" p.world.hnz.conf ≡ true)))
  unfolding is_complete
  live-InRange xs {p} e r =
      let t = (live-Reports xs e).1 in
      let (c, f) = t.fits r in
      (t.limits.0 (and-true p.world.hnz.conf.config_is_complete _ c).0, (t.limits.1, f))
