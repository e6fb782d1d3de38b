-- ===== src/Plugin/Life.antt =====
-- The plugin over its whole life (src/plugin.cpp, src/hnz.cpp).
use fledge_south_hnz.Prelude.{
  ℕ, ◌≡◌, refl, Bool, true, false, not, ◌&&◌, ◌||◌, Bool-cases, inl, inr, List, [], ◌∷◌, ok, fault,
  null_pointer, Ensures, Ensures->>=, Ensures-eq-ok, Ensures-if, Ensures-and, if-both, if-when,
  arith,
}
use fledge_south_hnz.State.Conf.{Codes}
use fledge_south_hnz.State.Station.{World}
use fledge_south_hnz.Conf.Json.{Json, Conversions}
use fledge_south_hnz.Link.Activity.{is_active_state}
use fledge_south_hnz.Link.Coherence.{is_started}
use fledge_south_hnz.Link.Queues.{Queues, Queues-IsInvariant}
use fledge_south_hnz.Link.Quiet.{hnz-Quiet}
use fledge_south_hnz.Link.Asking.{CoherentAsking, CoherentAsking-IsInvariant}
use fledge_south_hnz.Link.Fresh.{declared_link-Fresh}
use fledge_south_hnz.Station.Monitor.{register_ingest}
use fledge_south_hnz.Station.Calm.{operation-Quiet}
use fledge_south_hnz.System.{step}
use fledge_south_hnz.System.Invariant.{step-Holds}
use fledge_south_hnz.Plugin.{
  Plugin, Category, new_hnz, new_plugin, stop, shutdown, needs_connection, operate,
}
use fledge_south_hnz.Plugin.Entry.{
  Call, starts_plugin, registers, reconfigures, operates_plugin, shuts_down, works, call, calls,
  live, plugin_init, plugin_start, plugin_register_ingest, plugin_reconfigure, plugin_operation,
  plugin_shutdown,
}
use fledge_south_hnz.Plugin.Invariant.{
  IsValid, moved, fresh, start-IsValid, stop-IsValid, reconfigure-IsValid,
}

module _ {V : Type 0} (json : Json V) (conv : Conversions) where
  pub call-IsValid : (x : Call) (p : Plugin) → IsValid p → Ensures IsValid (call json conv x p)
  unfolding call plugin_start plugin_register_ingest plugin_reconfigure plugin_operation
      plugin_shutdown register_ingest shutdown operate
  call-IsValid (starts_plugin now) p v = start-IsValid now true p v
  call-IsValid registers p v = moved p (hnz-Quiet p.world _ refl) v
  call-IsValid (reconfigures now config) p v = reconfigure-IsValid json conv now config p v
  call-IsValid (operates_plugin stoi now name params) p v =
      Ensures->>= (λ (r : Plugin × Bool). IsValid r.0) IsValid (operate stoi now name params p) _
        (Ensures-if (λ (r : Plugin × Bool). IsValid r.0)
          (not p.has_connection && needs_connection stoi name params) (fault null_pointer) _ tt
          (moved p (operation-Quiet stoi now name params p.world) v))
        (λ r h. h)
  call-IsValid (shuts_down now) p v =
      if-both IsValid p.is_running (stop now true p) p (stop-IsValid now true p v) v
  call-IsValid (works e) p v =
      if-when (Ensures IsValid) p.is_running _ (ok p)
        (λ r.
          Ensures->>= (λ w. CoherentAsking w × Queues w) IsValid (step e p.world) _
            (Ensures-and CoherentAsking Queues (step e p.world)
              (step-Holds CoherentAsking-IsInvariant e p.world (v.coherent, v.asking))
              (step-Holds Queues-IsInvariant e p.world v.queues))
            (λ w h. record {
              coherent = h.0.0;
              queues = h.1;
              asking = h.0.1;
              idle = λ e. cc;
              linked = v.linked;
            }))
        v

  calls-Ensures : (xs : List Call) (p : Plugin) → IsValid p → Ensures IsValid (calls json conv xs p)
  unfolding calls
  calls-Ensures [] p v = v
  calls-Ensures (x ∷ xs) p v =
      Ensures->>= IsValid IsValid (call json conv x p) (calls json conv xs) (call-IsValid x p v)
        (calls-Ensures xs)

pub new_plugin-IsValid : (codes : Codes) (w : World) → IsValid (new_plugin codes w)
unfolding new_plugin new_hnz
new_plugin-IsValid codes w =
    let u = record w { hnz = new_hnz codes } in
    fresh (new_plugin codes w) (new_plugin codes w).world "" false
      (declared_link-Fresh (new_hnz codes).conf u refl) refl

module _ {V : Type 0} (json : Json V) (conv : Conversions) (now : ℕ) (config : Category)
    (codes : Codes) (w : World) where
  live-Ensures : (xs : List Call) → Ensures IsValid (live json conv now config codes w xs)
  unfolding live plugin_init
  live-Ensures xs =
      Ensures->>= IsValid IsValid (plugin_init json conv now config codes w) (calls json conv xs)
        (reconfigure-IsValid json conv now config (new_plugin codes w) (new_plugin-IsValid codes w))
        (calls-Ensures json conv xs)

  pub live-IsValid :
      (xs : List Call) {p : Plugin} → live json conv now config codes w xs ≡ ok p → IsValid p
  live-IsValid xs e = Ensures-eq-ok IsValid e (live-Ensures xs)

  -- After `plugin_init` with any configuration and any sequence of further calls of the plugin and
  -- events of its threads without a fault (configurations, starts, frames, operations and
  -- shutdowns in any order), at most one path is ACTIVE, the reported status is STARTED exactly if
  -- one is, and it is not STARTED if the plugin does not run.
  pub live-one_active :
      (xs : List Call) {p : Plugin}
      → live json conv now config codes w xs ≡ ok p
      → ((is_active_state p.world.a.connection_state && is_active_state p.world.b.connection_state)
          ≡ false)
        × ((is_started p.world.hnz.conn_status ≡ (
              is_active_state p.world.a.connection_state
              || is_active_state p.world.b.connection_state))
            × ((not p.is_running && is_started p.world.hnz.conn_status) ≡ false))
  live-one_active xs {p} e =
      let v = live-IsValid xs e in
      let c = v.coherent in
      elim (Bool-cases p.is_running) [
        | inl r ↦ ground arith
        | inr r ↦ let s = v.idle r in ground arith
      ]
