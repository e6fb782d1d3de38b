-- ===== src/Plugin/Entry.antt =====
-- The entry points of the plugin (src/plugin.cpp), for a handle that is not null, and what may happen
-- to a plugin in any order.
use fledge_south_hnz.Prelude.{
  ℕ, if◌then◌else◌, Bool, true, String, Option, List, [], ◌∷◌, ℤ, Result, ok, ◌>>=◌,
}
use fledge_south_hnz.State.Conf.{Codes}
use fledge_south_hnz.State.Station.{World}
use fledge_south_hnz.Conf.Json.{Json, Conversions}
use fledge_south_hnz.Station.Monitor.{register_ingest}
use fledge_south_hnz.Station.Operation.{Parameters}
use fledge_south_hnz.System.{Event, step}
use fledge_south_hnz.Plugin.{Plugin, Category, new_plugin, start, shutdown, reconfigure, operate}

-- The entry points of src/plugin.cpp, for a handle that is not null.
unfoldable pub plugin_start : ℕ → Plugin → Result Plugin
unfolding start
plugin_start now p = start now true p

unfoldable pub plugin_register_ingest : Plugin → Plugin
unfolding register_ingest
plugin_register_ingest p = record p {
  world = record (p.world) { hnz = register_ingest p.world.hnz };
}

unfoldable pub plugin_operation :
    (String → Option ℤ) → ℕ → String → Parameters → Plugin → Result (Plugin × Bool)
unfolding operate
plugin_operation stoi now name params p = operate stoi now name params p

unfoldable pub plugin_shutdown : ℕ → Plugin → Plugin
unfolding shutdown
plugin_shutdown now p = shutdown now p

-- What happens to the plugin: the entry points, and the events of the threads of a running plugin.
pub data Call : Type 0 where
  starts_plugin : ℕ → Call
  registers : Call
  reconfigures : ℕ → Category → Call
  operates_plugin : (String → Option ℤ) → ℕ → String → Parameters → Call
  shuts_down : ℕ → Call
  works : Event → Call

module _ {V : Type 0} (json : Json V) (conv : Conversions) where
  unfoldable pub plugin_init : ℕ → Category → Codes → World → Result Plugin
  unfolding new_plugin reconfigure
  plugin_init now config codes w = reconfigure json conv now config (new_plugin codes w)

  unfoldable pub plugin_reconfigure : ℕ → Category → Plugin → Result Plugin
  unfolding reconfigure
  plugin_reconfigure now config p = reconfigure json conv now config p

  unfoldable pub call : Call → Plugin → Result Plugin
  unfolding plugin_start plugin_register_ingest plugin_reconfigure plugin_operation plugin_shutdown
      step
  call (starts_plugin now) p = plugin_start now p
  call registers p = ok (plugin_register_ingest p)
  call (reconfigures now config) p = plugin_reconfigure now config p
  call (operates_plugin stoi now name params) p =
      plugin_operation stoi now name params p >>= λ r. ok r.0
  call (shuts_down now) p = ok (plugin_shutdown now p)
  call (works e) p =
      if p.is_running then (step e p.world >>= λ w. ok (record p { world = w })) else ok p

  unfoldable pub calls : List Call → Plugin → Result Plugin
  unfolding call
  calls [] p = ok p
  calls (x ∷ xs) p = call x p >>= calls xs

  -- A life from `plugin_init` on.
  unfoldable pub live : ℕ → Category → Codes → World → List Call → Result Plugin
  unfolding plugin_init calls
  live now config codes w xs = plugin_init now config codes w >>= calls xs
