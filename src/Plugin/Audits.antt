-- ===== src/Plugin/Audits.antt =====
-- The audits of the object HNZ and of the constructors (src/hnz.cpp, src/hnzconnection.cpp,
-- src/hnzpath.cpp).
use fledge_south_hnz.Prelude.{
  ℕ, ◌≡◌, refl, sym, ap, ◌∙◌, true, false, ◌&&◌, str_eq, some, arith, if-cases, if-both,
}
use fledge_south_hnz.State.Conf.{HnzConf}
use fledge_south_hnz.State.Link.{HnzPath, PathId, path_a, path_b}
use fledge_south_hnz.State.Station.{
  World, path, put_path, other, not_connected, path_fail, service_fail,
}
use fledge_south_hnz.Path.Send.{reset_input_variables, reset_output_variables, reset_sarm_counters}
use fledge_south_hnz.Link.Activity.{
  is_active_state, input_open, first_input, request_other, request_connection_state,
  set_connection_state, same_state,
}
use fledge_south_hnz.Link.Protocol.{resolve_connection, run_action, reset_connection}
use fledge_south_hnz.Link.Create.{
  ip_of, create_path, declared_path, path_conf_of, add_audit, declared_link, declared_connection,
  set_settings, create_connection,
}
use fledge_south_hnz.Plugin.{Plugin, refuse}
use fledge_south_hnz.Link.Fresh.{Fresh, declared_link-Fresh, create_path-Fresh}
use fledge_south_hnz.Link.Audits.{Told, latest, is_of, path_audit, service_audit}

-- What the construction of path i changes of what the audits tell.
record Announced (i : PathId) (w u : World) : Type 0 where
  mine : latest (is_of i) u.hnz.audits ≡ some (path_audit i (path i u))
  others : latest (is_of (other i)) u.hnz.audits ≡ latest (is_of (other i)) w.hnz.audits
  other_path : path (other i) u ≡ path (other i) w
  conf : u.hnz.conf ≡ w.hnz.conf

created-Announced :
    (now : ℕ) (i : PathId) (c : HnzConf) (w : World)
    → Fresh w
    → Announced i w (
        run_action now i resolve_connection
          (add_audit (path_fail i) (put_path i (declared_path (path_conf_of i c) true) w)))
unfolding run_action add_audit declared_path path_conf_of request_connection_state request_other
    first_input set_connection_state same_state is_active_state reset_connection
    reset_input_variables reset_output_variables reset_sarm_counters input_open
created-Announced now path_a c w f = ground arith
created-Announced now path_b c w f = ground arith

create_path-Announced :
    (now : ℕ) (i : PathId) (c : HnzConf) (w : World)
    → (path i w).created ≡ false
    → Fresh w
    → Announced i w (create_path now i c w)
unfolding create_path add_audit
create_path-Announced now path_a c w m f =
    if-both (Announced path_a w) (str_eq (ip_of path_a c) "") _ _ (ground arith)
      (created-Announced now path_a c w f)
create_path-Announced now path_b c w m f =
    if-both (Announced path_b w) (str_eq (ip_of path_b c) "") _ _ (ground arith)
      (created-Announced now path_b c w f)

-- After the constructions of both paths, and the audit of the connection.
Announced-Told :
    (u x y : World)
    → Announced path_a u x
    → Announced path_b x y
    → y.hnz.conn_status ≡ not_connected
    → Told u.hnz.conf (add_audit service_fail y)
unfolding add_audit
Announced-Told u x y f g s = ground arith

paths_announced :
    (now : ℕ) (c : HnzConf) (u : World)
    → u.a.created ≡ false
    → u.b.created ≡ false
    → Fresh u
    → Told u.hnz.conf
        (add_audit service_fail (create_path now path_b c (create_path now path_a c u)))
paths_announced now c u m n f =
    let x = create_path now path_a c u in
    let g : Fresh x = create_path-Fresh now path_a c u f in
    let a = create_path-Announced now path_a c u m f in
    Announced-Told u x (create_path now path_b c x) a
      (create_path-Announced now path_b c x (ap (λ (p : HnzPath). p.created) a.other_path ∙ n) g)
      (create_path-Fresh now path_b c x g).status

-- A connection that runs has announced its paths and itself.
pub create_connection-Told :
    (now : ℕ) (c : HnzConf) (w : World)
    → w.hnz.conn_status ≡ not_connected
    → (create_connection now c w).conn.is_running ≡ true
    → Told w.hnz.conf (create_connection now c w)
unfolding create_connection set_settings declared_link declared_path declared_connection
create_connection-Told now c w s =
    if-cases (λ (v : World). v.conn.is_running ≡ true → Told w.hnz.conf v)
      (str_eq c.ip_a "" && str_eq c.ip_b "") (declared_link c w) _ (λ e r. cc)
      (λ e r.
        let t = paths_announced now c (declared_link c w) refl refl (declared_link-Fresh c w s) in
        record { conf = t.conf; on_a = t.on_a; on_b = t.on_b; service = t.service })

-- One that does not run has no path, as the audits of a refused configuration say.
pub refused-Told :
    (now : ℕ) (c : HnzConf) (p : Plugin)
    → p.world.hnz.conn_status ≡ not_connected
    → (create_connection now c p.world).conn.is_running ≡ false
    → Told p.world.hnz.conf (refuse (record p { world = create_connection now c p.world })).world
unfolding create_connection set_settings declared_link declared_path declared_connection refuse
    add_audit
refused-Told now c p s =
    if-cases
      (λ (v : World).
        v.conn.is_running ≡ false → Told p.world.hnz.conf (refuse (record p { world = v })).world)
      (str_eq c.ip_a "" && str_eq c.ip_b "") (declared_link c p.world) _
      (λ e r. record {
        conf = refl;
        on_a = refl;
        on_b = refl;
        service = ap (λ x. some (service_audit x)) (sym s);
      })
      (λ e r. cc)
