-- ===== src/Plugin/Renewal.antt =====
-- What the plugin (src/hnz.cpp) tells in its audits after a new configuration.
use fledge_south_hnz.Prelude.{
  ℕ, ◌≡◌, sym, if◌then◌else◌, Bool, true, false, not, ◌&&◌, String, str_eq, ok, Ensures,
  Ensures->>=, Ensures-if, if-both, if-cases, arith,
}
use mathlib.Core.Path.{subst}
use fledge_south_hnz.State.Conf.{Codes, new_conf, is_complete}
use fledge_south_hnz.Conf.Limits.{
  Limits, new_conf-Limits, import_config_json-Limits, import_exchanged_data_json-Limits,
}
use fledge_south_hnz.Conf.Protocol.{import_config_json}
use fledge_south_hnz.Conf.Exchange.{import_exchanged_data_json}
use fledge_south_hnz.State.Station.{World, not_connected}
use fledge_south_hnz.Conf.Json.{Json, Conversions}
use fledge_south_hnz.Link.Audits.{Told}
use fledge_south_hnz.Link.Create.{create_connection, add_audit}
use fledge_south_hnz.Plugin.{
  Plugin, Category, start, set_conf, read_conf, connect_plugin, stop_running, take_conf,
  set_json_config, item, refuse, reconfigure,
}
use fledge_south_hnz.Plugin.Audits.{create_connection-Told, refused-Told}
use fledge_south_hnz.Plugin.Invariant.{IsValid, is_running-stop_running, stop_running-IsValid}
use fledge_south_hnz.Plugin.Reporting.{Reports, Told-own, start-Reports}

-- After a configuration that succeeds the plugin reports; the one that fails leaves it stopped,
-- with a configuration that is not complete or without a path.
abbrev Outcome : Plugin × Bool → Type 0
Outcome (p, true) = Reports p
Outcome (p, false) = Reports (refuse p)

refused-Outcome :
    (p : Plugin)
    → p.is_running ≡ false
    → is_complete p.world.hnz.conf ≡ false
    → Limits p.world.hnz.conf
    → Outcome (p, false)
unfolding refuse add_audit
refused-Outcome p off c l = record { limits = l; fits = λ e. cc; told = λ e h. cc }

-- A new connection, and the audits of a refusal without a path.
connected-Reports :
    (p : Plugin) (w : World)
    → p.is_running ≡ false
    → Told p.world.hnz.conf w
    → Limits p.world.hnz.conf
    → Reports (record p { world = w; has_connection = true })
connected-Reports p w off t l = record {
  limits = subst Limits (sym t.conf) l;
  fits = λ e. cc;
  told = λ c h. Told-own t;
}

unconnected-Outcome :
    (now : ℕ) (p : Plugin)
    → p.is_running ≡ false
    → p.world.hnz.conn_status ≡ not_connected
    → Limits p.world.hnz.conf
    → (create_connection now p.world.hnz.conf p.world).conn.is_running ≡ false
    → Outcome (
      record p { world = create_connection now p.world.hnz.conf p.world; has_connection = true },
      false,
    )
unfolding refuse add_audit
unconnected-Outcome now p off s l e =
    let t = refused-Told now p.world.hnz.conf p s e in
    record { limits = subst Limits (sym t.conf) l; fits = λ f. cc; told = λ c h. Told-own t }

connect_plugin-Outcome :
    (now : ℕ) (p : Plugin)
    → p.is_running ≡ false
    → p.world.hnz.conn_status ≡ not_connected
    → Limits p.world.hnz.conf
    → Ensures Outcome (connect_plugin now p)
unfolding connect_plugin
connect_plugin-Outcome now p off s l =
    let w = create_connection now p.world.hnz.conf p.world in
    let q : Plugin = record p { world = w; has_connection = true } in
    if-cases (Ensures Outcome) (not w.conn.is_running) (ok (q, false)) _
      (λ e. unconnected-Outcome now p off s l (ground arith))
      (λ e.
        let u : Reports q =
          connected-Reports p w off
            (create_connection-Told now p.world.hnz.conf p.world s (ground arith)) l in
        Ensures-if Outcome q.should_run _ (ok (q, true))
          (Ensures->>= Reports Outcome (start now false q) _ (start-Reports now false q u)
            (λ r h. h))
          u)

module _ {V : Type 0} (json : Json V) (conv : Conversions) where
  read_conf-Limits :
      (codes : Codes) (protocol msgs : String) → Limits (read_conf json conv codes protocol msgs)
  unfolding read_conf
  read_conf-Limits codes protocol msgs =
      let c = new_conf codes in
      let l : Limits c = new_conf-Limits codes in
      let d = if str_eq protocol "" then c else import_config_json json conv protocol c in
      let m : Limits d =
        if-both Limits (str_eq protocol "") c (import_config_json json conv protocol c) l
          (import_config_json-Limits json conv protocol c l) in
      if-both Limits (str_eq msgs "") d (import_exchanged_data_json json conv msgs d) m
        (import_exchanged_data_json-Limits json conv msgs d m)

  set_json_config-Outcome :
      (now : ℕ) (protocol msgs service : String) (p : Plugin)
      → IsValid p
      → Reports p
      → Ensures Outcome (set_json_config json conv now protocol msgs service p)
  unfolding set_json_config take_conf set_conf
  set_json_config-Outcome now protocol msgs service p v t =
      let q = stop_running now p in
      let conf = read_conf json conv q.world.hnz.conf.codes protocol msgs in
      let r = take_conf conf service q in
      let l : Limits conf = read_conf-Limits q.world.hnz.conf.codes protocol msgs in
      let off : r.is_running ≡ false = is_running-stop_running now p in
      Ensures-if Outcome (str_eq protocol "" && (str_eq msgs "" && str_eq service ""))
        (ok (p, true)) _ t
        (if-cases (Ensures Outcome) (is_complete conf) (connect_plugin now r) (ok (r, false))
          (λ c. connect_plugin-Outcome now r off ((stop_running-IsValid now p v).idle off) l)
          (λ c. refused-Outcome r off c l))

  pub reconfigure-Reports :
      (now : ℕ) (config : Category) (p : Plugin)
      → IsValid p
      → Reports p
      → Ensures Reports (reconfigure json conv now config p)
  unfolding reconfigure
  reconfigure-Reports now config p v t =
      Ensures->>= Outcome Reports
        (set_json_config json conv now (item config.protocol_stack) (item config.exchanged_data)
          config.name p)
        _
        (set_json_config-Outcome now (item config.protocol_stack) (item config.exchanged_data)
          config.name p v t)
        settled
    where
      settled : (r : Plugin × Bool) → Outcome r → Reports (if r.1 then r.0 else refuse r.0)
      settled (q, true) h = h
      settled (q, false) h = h
