-- ===== src/Link/Fresh.antt =====
-- What the constructors of the connection and of its paths leave behind (src/hnzconnection.cpp,
-- src/hnzpath.cpp).
use fledge_south_hnz.Prelude.{ℕ, ◌≡◌, refl, true, ◌&&◌, str_eq, none, [], arith, if-both}
use fledge_south_hnz.State.Conf.{HnzConf}
use fledge_south_hnz.State.Link.{HnzPath, PathId, path_a, path_b, connection, disconnected}
use fledge_south_hnz.State.Station.{World, put_path, not_connected, path_fail}
use fledge_south_hnz.Link.Activity.{
  is_active_state, is_passive, input_open, first_input, request_other, request_connection_state,
  set_connection_state, same_state,
}
use fledge_south_hnz.Link.Coherence.{Coherent}
use fledge_south_hnz.Link.Queues.{Queues}
use fledge_south_hnz.Link.Protocol.{resolve_connection, run_action, reset_connection}
use fledge_south_hnz.Path.Send.{reset_input_variables, reset_output_variables, reset_sarm_counters}
use fledge_south_hnz.Link.Shrinks.{Empty-CanSend}
use fledge_south_hnz.Link.Create.{
  ip_of, create_path, declared_path, path_conf_of, add_audit, declared_link, declared_connection,
  set_settings, create_connection,
}

-- A path before its first event.
pub record Unopened (p : HnzPath) : Type 0 where
  pub protocol : p.protocol_state ≡ connection
  pub activity : p.connection_state ≡ disconnected
  pub sent : p.msg_sent ≡ []
  pub waiting : p.msg_waiting ≡ []

pub record Fresh (w : World) : Type 0 where
  pub on_a : Unopened w.a
  pub on_b : Unopened w.b
  pub active : w.conn.active_path ≡ none
  pub first : w.conn.first_input_connected ≡ none
  pub asked : w.conn.gi_repeat ≡ 0
  pub status : w.hnz.conn_status ≡ not_connected

pub Fresh-Coherent : (w : World) → Fresh w → Coherent w
unfolding is_active_state is_passive input_open
Fresh-Coherent w f = ground arith

created_path-Fresh :
    (now : ℕ) (i : PathId) (c : HnzConf) (w : World)
    → Fresh w
    → Fresh (
        run_action now i resolve_connection
          (add_audit (path_fail i) (put_path i (declared_path (path_conf_of i c) true) w)))
unfolding run_action add_audit declared_path path_conf_of request_connection_state request_other
    first_input set_connection_state same_state is_active_state reset_connection
    reset_input_variables reset_output_variables reset_sarm_counters input_open
created_path-Fresh now path_a c w f = ground arith
created_path-Fresh now path_b c w f = ground arith

pub create_path-Fresh :
    (now : ℕ) (i : PathId) (c : HnzConf) (w : World) → Fresh w → Fresh (create_path now i c w)
unfolding create_path add_audit
create_path-Fresh now i c w f =
    if-both Fresh (str_eq (ip_of i c) "") _ _
      (record {
        on_a = f.on_a;
        on_b = f.on_b;
        active = f.active;
        first = f.first;
        asked = f.asked;
        status = f.status;
      })
      (created_path-Fresh now i c w f)

pub declared_link-Fresh :
    (c : HnzConf) (w : World) → w.hnz.conn_status ≡ not_connected → Fresh (declared_link c w)
unfolding declared_link declared_connection declared_path path_conf_of
declared_link-Fresh c w s = record {
  on_a = record { protocol = refl; activity = refl; sent = refl; waiting = refl };
  on_b = record { protocol = refl; activity = refl; sent = refl; waiting = refl };
  active = refl;
  first = refl;
  asked = refl;
  status = s;
}

pub create_connection-Fresh :
    (now : ℕ) (c : HnzConf) (w : World)
    → w.hnz.conn_status ≡ not_connected
    → Fresh (create_connection now c w)
unfolding create_connection add_audit set_settings
create_connection-Fresh now c w s =
    let u = declared_link c w in
    let v = create_path now path_b c (create_path now path_a c u) in
    let f : Fresh v =
      create_path-Fresh now path_b c (create_path now path_a c u)
        (create_path-Fresh now path_a c u (declared_link-Fresh c w s)) in
    if-both Fresh (str_eq c.ip_a "" && str_eq c.ip_b "") u _ (declared_link-Fresh c w s) (record {
      on_a = f.on_a;
      on_b = f.on_b;
      active = f.active;
      first = f.first;
      asked = f.asked;
      status = f.status;
    })

pub Fresh-Queues : (w : World) → Fresh w → Queues w
Fresh-Queues w f = record {
  on_a = Empty-CanSend w.a (f.on_a.sent, f.on_a.waiting);
  on_b = Empty-CanSend w.b (f.on_b.sent, f.on_b.waiting);
}
