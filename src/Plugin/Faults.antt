-- ===== src/Plugin/Faults.antt =====
-- When the start of the plugin succeeds, and when it throws (src/hnz.cpp).
use fledge_south_hnz.Prelude.{
  ℕ, ◌≡◌, refl, ◌∙◌, ap, if◌then◌else◌, Bool, true, false, ◌||◌, String, Option, none, some, List,
  [], ◌∷◌, Result, ok, fault, null_pointer, Fault, out_of_range, ◌>>=◌, arith, inl, inr, ◌↔◌, ◌⊎◌,
  Option-cases,
}
use fledge_south_hnz.State.Conf.{Labels, labels_of, is_complete}
use fledge_south_hnz.State.Station.{Hnz, Reading}
use fledge_south_hnz.Link.Interrogation.{send_all_ts_quality_readings-Succeeds}
use fledge_south_hnz.Station.Monitor.{send_to_fledge, ingest}
use fledge_south_hnz.Station.Reading.{
  send_all_quality_readings, send_all_tm_quality_readings, send_all_ts_quality_readings,
}
use fledge_south_hnz.Plugin.{Plugin, launch, start}

-- The labels of the configured messages of a type.
abbrev configured : String → Hnz → Option Labels
configured code h = labels_of code h.conf.remote_station_addr h.conf.msg_list

conf-send_to_fledge : (h : Hnz) (rs : List Reading) → (send_to_fledge h rs).conf ≡ h.conf
unfolding send_to_fledge ingest
conf-send_to_fledge h [] = refl
conf-send_to_fledge h (r ∷ rs) =
    let kept : (ingest h r).conf ≡ h.conf = ground arith in
    conf-send_to_fledge (ingest h r) rs ∙ kept

pub send_all_tm_quality_readings-ok :
    (invalid outdated : Bool) (reject : List ℕ) (h : Hnz) (ls : Labels)
    → configured "TM" h ≡ some ls
    → (k : Hnz) × ((send_all_tm_quality_readings invalid outdated reject h ≡ ok k)
        × (k.conf ≡ h.conf))
unfolding send_all_tm_quality_readings send_all_quality_readings
send_all_tm_quality_readings-ok invalid outdated reject h ls e = found _ (configured "TM" h) e
  where
    found :
        (rs : Labels → List Reading) (o : Option Labels)
        → o ≡ some ls
        → (k : Hnz) × ((elim o [ none ↦ fault out_of_range | some l ↦ ok (send_to_fledge h (rs l)) ]
              ≡ ok k)
            × (k.conf ≡ h.conf))
    found rs none f = cc
    found rs (some l) f = (send_to_fledge h (rs l), (refl, conf-send_to_fledge h (rs l)))

none_found :
    (send : Labels → Hnz) (o : Option Labels)
    → o ≡ none
    → elim o [ none ↦ fault out_of_range | some l ↦ ok (send l) ] ≡ fault out_of_range
none_found send none f = refl
none_found send (some l) f = cc

send_all_tm_quality_readings-throws :
    (invalid outdated : Bool) (reject : List ℕ) (h : Hnz)
    → configured "TM" h ≡ none
    → send_all_tm_quality_readings invalid outdated reject h ≡ fault out_of_range
unfolding send_all_tm_quality_readings send_all_quality_readings
send_all_tm_quality_readings-throws invalid outdated reject h e = none_found _ (configured "TM" h) e

send_all_ts_quality_readings-throws :
    (now : ℕ) (invalid outdated : Bool) (reject : List ℕ) (h : Hnz)
    → configured "TS" h ≡ none
    → send_all_ts_quality_readings now invalid outdated reject h ≡ fault out_of_range
unfolding send_all_ts_quality_readings send_all_quality_readings
send_all_ts_quality_readings-throws now invalid outdated reject h e =
    none_found _ (configured "TS" h) e

fault->>= {ℓ μ} :
    {S : Type ℓ} {T : Type μ} (r : Result S) (next : S → Result T) (why : Fault)
    → r ≡ fault why
    → (r >>= next) ≡ fault why
fault->>= (fault e) next why h = cc
fault->>= (ok s) next why h = cc

ok->>= {ℓ μ} :
    {S : Type ℓ} {T : Type μ} (r : Result S) (next : S → Result T) (s : S)
    → r ≡ ok s
    → (r >>= next) ≡ next s
ok->>= r next s h = ap (λ q. q >>= next) h

module _ (now : ℕ) (requested : Bool) (p : Plugin) (off : p.is_running ≡ false)
    (complete : is_complete p.world.hnz.conf ≡ true) where
  start-launch :
      start now requested p ≡ launch now (record p { should_run = requested || p.should_run })
  unfolding start
  start-launch = rw (off, complete)

  start-throws_without_tm :
      configured "TM" p.world.hnz ≡ none → start now requested p ≡ fault out_of_range
  unfolding launch
  start-throws_without_tm e =
      start-launch
      ∙ fault->>= (send_all_tm_quality_readings true false [] p.world.hnz) _ out_of_range
          (send_all_tm_quality_readings-throws true false [] p.world.hnz e)

  start-throws_without_ts :
      (tms : Labels)
      → configured "TM" p.world.hnz ≡ some tms
      → configured "TS" p.world.hnz ≡ none
      → start now requested p ≡ fault out_of_range
  unfolding launch
  start-throws_without_ts tms e f =
      let (h, (sent, kept)) = send_all_tm_quality_readings-ok true false [] p.world.hnz tms e in
      start-launch
      ∙ ok->>= (send_all_tm_quality_readings true false [] p.world.hnz) _ h sent
      ∙ fault->>= (send_all_ts_quality_readings now true false [] h) _ out_of_range (
          send_all_ts_quality_readings-throws now true false [] h
            (ap (λ c. labels_of "TS" c.remote_station_addr c.msg_list) kept ∙ f))

  -- If a plugin does not run, has a connection and a complete configuration, and a TM and a TS are
  -- configured for its station, its start ends without a fault and it runs.
  pub start-runs :
      (tms tss : Labels)
      → p.has_connection ≡ true
      → configured "TM" p.world.hnz ≡ some tms
      → configured "TS" p.world.hnz ≡ some tss
      → (q : Plugin) × ((start now requested p ≡ ok q) × (q.is_running ≡ true))
  unfolding launch
  start-runs tms tss linked e f =
      let (h, (sent, kept)) = send_all_tm_quality_readings-ok true false [] p.world.hnz tms e in
      let (k, again) =
        send_all_ts_quality_readings-Succeeds now true false [] h tss
          (ap (λ c. labels_of "TS" c.remote_station_addr c.msg_list) kept ∙ f) in
      let started : Plugin = record p {
        world = record (p.world) { hnz = k };
        is_running = true;
        should_run = requested || p.should_run;
      } in
      (
        started,
        (
          start-launch
              ∙ ok->>= (send_all_tm_quality_readings true false [] p.world.hnz) _ h sent
              ∙ ok->>= (send_all_ts_quality_readings now true false [] h) _ k again
              ∙ ap (λ b. if b then ok started else fault null_pointer) linked,
          refl,
        ),
      )

  -- If a plugin does not run, has a connection and a complete configuration, its start throws the
  -- exception of `map::at` exactly if no TM or no TS is configured for its station.
  pub start-throws :
      p.has_connection ≡ true
      → (start now requested p ≡ fault out_of_range)
        ↔ ((configured "TM" p.world.hnz ≡ none) ⊎ (configured "TS" p.world.hnz ≡ none))
  start-throws linked = elim (Option-cases (configured "TM" p.world.hnz)) [
    | inl no_tm ↦ (λ e. inl no_tm, λ h. start-throws_without_tm no_tm)
    | inr (tms, tm) ↦ elim (Option-cases (configured "TS" p.world.hnz)) [
      | inl no_ts ↦ (λ e. inr no_ts, λ h. start-throws_without_ts tms tm no_ts)
      | inr (tss, ts) ↦
          let (q, (runs, on)) = start-runs tms tss linked tm ts in
          (λ e. cc, λ h. elim h [ inl no_tm ↦ cc | inr no_ts ↦ cc ])
    ]
  ]
