-- ===== src/Link/Report.antt =====
-- The station (src/hnz.cpp), by what the invariants of the plugin read of it.
use fledge_south_hnz.Prelude.{
  ℕ, ◌^◌, ◌≡◌, refl, ◌∙◌, Bool, true, false, List, [], ◌∷◌, Option, String, none, some, arith,
  if◌then◌else◌, Result, ok, fault, Ensures, Ensures->>=, Ensures-if, out_of_range, ltb, leb, ◌==◌,
}
use fledge_south_hnz.State.Station.{ConnectionStatus, Audit, Hnz, GiStatus, Reading}
use fledge_south_hnz.Station.Monitor.{
  update_gi_status, send_to_fledge, ingest, send_south_monitoring_event,
}
use fledge_south_hnz.Station.Reading.{
  ReadingParameters, send_all_quality_readings, send_all_ts_quality_readings,
  send_all_tm_quality_readings, update_quality_update_timer, quality_readings, default_parameters,
}
use fledge_south_hnz.State.Conf.{HnzConf, Labels, labels_of}

-- What the invariants of the plugin read of a station.
pub record Report : Type 0 where
  pub conf : HnzConf
  pub status : ConnectionStatus
  pub audits : List Audit

abbrev pub report : Hnz → Report
report h = record { conf = h.conf; status = h.conn_status; audits = h.audits }

pub report-update_gi_status : (s : GiStatus) (h : Hnz) → report (update_gi_status s h) ≡ report h
unfolding update_gi_status send_south_monitoring_event send_to_fledge ingest
report-update_gi_status s h = ground arith

pub report-send_to_fledge : (h : Hnz) (rs : List Reading) → report (send_to_fledge h rs) ≡ report h
unfolding send_to_fledge ingest
report-send_to_fledge h [] = refl
report-send_to_fledge h (r ∷ rs) = report-send_to_fledge (ingest h r) rs ∙ kept
  where
    kept : report (ingest h r) ≡ report h
    kept = ground arith

-- An update of the station that leaves what is read, unless it faults.
abbrev pub SameReport : Hnz → Hnz → Type 0
SameReport h k = report k ≡ report h

send_all_quality_readings-SameReport :
    (t : ReadingParameters) (reject : List ℕ) (h : Hnz)
    → Ensures (SameReport h) (send_all_quality_readings t reject h)
unfolding send_all_quality_readings
send_all_quality_readings-SameReport t reject h =
    elim (labels_of t.msg_code t.station_addr h.conf.msg_list)
      as (λ found. Ensures (SameReport h) (elim found [
        | none ↦ fault out_of_range
        | some labels ↦ ok (send_to_fledge h (quality_readings t reject labels))
      ])) [ none ↦ tt | some labels ↦ report-send_to_fledge h (quality_readings t reject labels) ]

-- What the readings of all TS have in common, and of all TM.
abbrev ts_quality : ℕ → Bool → Bool → Hnz → ReadingParameters
ts_quality now invalid outdated h = record default_parameters {
  msg_code = "TS";
  station_addr = h.conf.remote_station_addr;
  valid = if invalid then 1 else 0;
  outdated = outdated;
  ts = now;
  quality_update = true;
}

abbrev tm_quality : Bool → Bool → Hnz → ReadingParameters
tm_quality invalid outdated h = record default_parameters {
  msg_code = "TM";
  station_addr = h.conf.remote_station_addr;
  valid = if invalid then 1 else 0;
  outdated = outdated;
  an = "TMA";
  quality_update = true;
}

pub send_all_ts_quality_readings-SameReport :
    (now : ℕ) (invalid outdated : Bool) (reject : List ℕ) (h : Hnz)
    → Ensures (SameReport h) (send_all_ts_quality_readings now invalid outdated reject h)
unfolding send_all_ts_quality_readings
send_all_ts_quality_readings-SameReport now invalid outdated reject h =
    send_all_quality_readings-SameReport (ts_quality now invalid outdated h) reject h

pub send_all_tm_quality_readings-SameReport :
    (invalid outdated : Bool) (reject : List ℕ) (h : Hnz)
    → Ensures (SameReport h) (send_all_tm_quality_readings invalid outdated reject h)
unfolding send_all_tm_quality_readings
send_all_tm_quality_readings-SameReport invalid outdated reject h =
    send_all_quality_readings-SameReport (tm_quality invalid outdated h) reject h

SameReport-after :
    (h k : Hnz) (r : Result Hnz)
    → SameReport h k
    → Ensures (SameReport k) r
    → Ensures (SameReport h) r
SameReport-after h k (fault e) f g = tt
SameReport-after h k (ok l) f g = g ∙ f

pub update_quality_update_timer-SameReport :
    (now elapsed : ℕ) (h : Hnz) → Ensures (SameReport h) (update_quality_update_timer now elapsed h)
unfolding update_quality_update_timer
update_quality_update_timer-SameReport now elapsed h =
    Ensures-if (SameReport h) (h.quality_update_timer == 0) _ _ refl (
      Ensures-if (SameReport h) (leb (2 ^ 63) elapsed) _ _ refl (
        Ensures-if (SameReport h) (ltb elapsed h.quality_update_timer) _ _ refl (
          Ensures->>= (SameReport h) (SameReport h) _ _
            (send_all_tm_quality_readings-SameReport false true []
              (record h { quality_update_timer = 0 }))
            (λ k same.
              SameReport-after h k _ same
                (send_all_ts_quality_readings-SameReport now false true [] k)))))

-- Is a message of a type configured for the station?
abbrev pub has_labels : Option Labels → Bool
has_labels none = false
has_labels (some labels) = true

abbrev pub is_configured : String → HnzConf → Bool
is_configured code c = has_labels (labels_of code c.remote_station_addr c.msg_list)

configured_quality_readings :
    (t : ReadingParameters) (reject : List ℕ) (h : Hnz)
    → Ensures
        (λ k. has_labels (labels_of t.msg_code t.station_addr h.conf.msg_list) ≡ true)
        (send_all_quality_readings t reject h)
unfolding send_all_quality_readings
configured_quality_readings t reject h =
    elim (labels_of t.msg_code t.station_addr h.conf.msg_list)
      as (λ found.
        Ensures (λ k. has_labels found ≡ true)
          (elim found [
            | none ↦ fault out_of_range
            | some labels ↦ ok (send_to_fledge h (quality_readings t reject labels))
          ])) [ none ↦ tt | some labels ↦ refl ]

pub send_all_tm_quality_readings-configured :
    (invalid outdated : Bool) (reject : List ℕ) (h : Hnz)
    → Ensures
        (λ k. is_configured "TM" h.conf ≡ true)
        (send_all_tm_quality_readings invalid outdated reject h)
unfolding send_all_tm_quality_readings
send_all_tm_quality_readings-configured invalid outdated reject h =
    configured_quality_readings (tm_quality invalid outdated h) reject h

pub send_all_ts_quality_readings-configured :
    (now : ℕ) (invalid outdated : Bool) (reject : List ℕ) (h : Hnz)
    → Ensures
        (λ k. is_configured "TS" h.conf ≡ true)
        (send_all_ts_quality_readings now invalid outdated reject h)
unfolding send_all_ts_quality_readings
send_all_ts_quality_readings-configured now invalid outdated reject h =
    configured_quality_readings (ts_quality now invalid outdated h) reject h
