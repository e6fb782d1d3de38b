-- ===== src/Link/Quiet.antt =====
-- Operations around the transitions (src/hnzconnection.cpp, src/hnz.cpp), by what they change of the
-- parts of the state that the invariant of the two paths reads.
use fledge_south_hnz.Prelude.{ap, sym, ℕ, ◌≡◌, refl, ◌∙◌, true, false, none, arith}
use fledge_south_hnz.State.Link.{HnzPath, PathId, path_a, path_b, Connection}
use fledge_south_hnz.State.Station.{World, Hnz, path, put_path}
use fledge_south_hnz.Link.Activity.{is_active_state}
use fledge_south_hnz.Link.Coherence.{Coherent}
use fledge_south_hnz.Link.Protocol.{protocol_state_transition}
use fledge_south_hnz.Link.Invariant.{protocol_state_transition-Coherent}
use fledge_south_hnz.State.Link.{ConnectionEvent}
use fledge_south_hnz.Link.Steady.{Steady, Steady-refl, Steady-trans}
use fledge_south_hnz.Link.Report.{Report, report}

-- No path is active.
abbrev pub Rests : World → Type 0
Rests w =
    (w.conn.active_path ≡ none)
    × ((is_active_state w.a.connection_state ≡ false)
        × (is_active_state w.b.connection_state ≡ false))

pub record Quiet (w u : World) : Type 0 where
  pub on_a : Steady w.a u.a
  pub on_b : Steady w.b u.b
  pub active : u.conn.active_path ≡ w.conn.active_path
  pub first : u.conn.first_input_connected ≡ w.conn.first_input_connected
  pub running : u.conn.is_running ≡ w.conn.is_running
  pub reported : report u.hnz ≡ report w.hnz
  pub asks : Rests w → w.conn.gi_repeat ≡ 0 → u.conn.gi_repeat ≡ 0

pub Quiet-Coherent : {w u : World} → Quiet w u → Coherent w → Coherent u
Quiet-Coherent q v = let s = ap (λ (r : Report). r.status) q.reported in ground arith

pub Quiet-refl : (w : World) → Quiet w w
Quiet-refl w = record {
  on_a = Steady-refl w.a;
  on_b = Steady-refl w.b;
  active = refl;
  first = refl;
  running = refl;
  reported = refl;
  asks = λ r e. e;
}

pub Quiet-trans : {w u v : World} → Quiet w u → Quiet u v → Quiet w v
Quiet-trans f g = record {
  on_a = Steady-trans f.on_a g.on_a;
  on_b = Steady-trans f.on_b g.on_b;
  active = g.active ∙ f.active;
  first = g.first ∙ f.first;
  running = g.running ∙ f.running;
  reported = g.reported ∙ f.reported;
  asks = λ r e.
      g.asks
        (
          f.active ∙ r.0,
          (
            ap is_active_state f.on_a.local.activity ∙ r.1.0,
            ap is_active_state f.on_b.local.activity ∙ r.1.1,
          ),
        )
        (f.asks r e);
}

pub Rests-back : {w u : World} → Quiet w u → Rests u → Rests w
Rests-back q r = (
  sym q.active ∙ r.0,
  (
    ap is_active_state (sym q.on_a.local.activity) ∙ r.1.0,
    ap is_active_state (sym q.on_b.local.activity) ∙ r.1.1,
  ),
)

-- A path that is set stays set.
pub Quiet-created :
    (i : PathId) {w u : World} → Quiet w u → (path i w).created ≡ true → (path i u).created ≡ true
Quiet-created path_a q m = q.on_a.local.made ∙ m
Quiet-created path_b q m = q.on_b.local.made ∙ m

pub put_path-Quiet :
    (i : PathId) (q : HnzPath) (w : World) → Steady (path i w) q → Quiet w (put_path i q w)
put_path-Quiet path_a q w l = record {
  on_a = l;
  on_b = Steady-refl w.b;
  active = refl;
  first = refl;
  running = refl;
  reported = refl;
  asks = λ r e. e;
}
put_path-Quiet path_b q w l = record {
  on_a = Steady-refl w.a;
  on_b = l;
  active = refl;
  first = refl;
  running = refl;
  reported = refl;
  asks = λ r e. e;
}

-- A change of the station that leaves what is read of it.
pub hnz-Quiet : (w : World) (h : Hnz) → report h ≡ report w.hnz → Quiet w (record w { hnz = h })
hnz-Quiet w h e = record {
  on_a = Steady-refl w.a;
  on_b = Steady-refl w.b;
  active = refl;
  first = refl;
  running = refl;
  reported = e;
  asks = λ r e. e;
}

-- A change of the connection that leaves its paths and its running.
pub conn-Quiet :
    (w : World) (c : Connection)
    → c.active_path ≡ w.conn.active_path
    → c.first_input_connected ≡ w.conn.first_input_connected
    → c.is_running ≡ w.conn.is_running
    → (w.conn.gi_repeat ≡ 0 → c.gi_repeat ≡ 0)
    → Quiet w (record w { conn = c })
conn-Quiet w c e f g k = record {
  on_a = Steady-refl w.a;
  on_b = Steady-refl w.b;
  active = e;
  first = f;
  running = g;
  reported = refl;
  asks = λ r. k;
}

-- What an invariant of the plugin has to keep through: transitions, the stop flag, and everything
-- else.
pub record IsInvariant (Holds : World → Type 0) : Type 0 where
  pub quiet : {w u : World} → Quiet w u → Holds w → Holds u
  pub transition :
      (now : ℕ) (i : PathId) (e : ConnectionEvent) (w : World)
      → (path i w).created ≡ true
      → Holds w
      → Holds (protocol_state_transition now i e w)
  pub stopping :
      (w : World) → Holds w → Holds (record w { conn = record (w.conn) { is_running = false } })

stopping-Coherent :
    (w : World) → Coherent w → Coherent (record w { conn = record (w.conn) { is_running = false } })
stopping-Coherent w v = ground arith

pub Coherent-IsInvariant : IsInvariant Coherent
Coherent-IsInvariant = record {
  quiet = Quiet-Coherent;
  transition = protocol_state_transition-Coherent;
  stopping = stopping-Coherent;
}
