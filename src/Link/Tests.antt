-- ===== src/Link/Tests.antt =====
-- The theorems on the two paths at concrete inputs.
use fledge_south_hnz.Prelude.{refl, arith}
use fledge_south_hnz.State.Link.{path_a, received_sarm}
use fledge_south_hnz.Link.Coherence.{Coherent}
use fledge_south_hnz.Link.Protocol.{protocol_state_transition}
use fledge_south_hnz.Link.Invariant.{protocol_state_transition-Coherent}
use fledge_south_hnz.Prelude.{ok, fault, true, null_pointer, some, false, ◌≡◌, ◌∷◌, []}
use fledge_south_hnz.State.Station.{World}
use fledge_south_hnz.State.Conf.{labels_of}
use fledge_south_hnz.Link.Gi.{check_gi, gi_due, detect_new_day, gi_completed}
use fledge_south_hnz.Path.Send.{send_info}
use fledge_south_hnz.Path.Commands.{gi_frame}
use fledge_south_hnz.Link.Schedule.{at_time, check_gi-new_day}
use fledge_south_hnz.Link.Unanswered.{gi_completed-null}
use fledge_south_hnz.Link.Frames.{analyze_frame}
use fledge_south_hnz.Link.Address.{analyze_frame-unreachable}
use fledge_south_hnz.Path.Samples.{path_conf}
use fledge_south_hnz.Link.Samples.{closed_path, closed_world, closed_world-Coherent}

protocol_state_transition-Coherent_example :
    Coherent (protocol_state_transition 5000 path_a received_sarm closed_world)
protocol_state_transition-Coherent_example =
    protocol_state_transition-Coherent 5000 path_a received_sarm closed_world refl
      closed_world-Coherent

-- The last round was on the day before, and a path is active.
abbrev due_world : World
due_world = record closed_world {
  conn = record (closed_world.conn) {
    active_path = some path_a;
    current = 1641043900000;
    days_since_epoch = 18992;
    gi_schedule_already_sent = true;
  };
}

-- The check at 13:31:40, and one at 15:13:20.
check_gi-new_day_example :
    (u : World) × ((check_gi 1641043900000 due_world ≡ ok u)
      × ((u.a ≡ (send_info 1641043900000 due_world.a gi_frame).0)
          × (gi_due (detect_new_day (at_time 1641050000000 u.conn)) ≡ false)))
check_gi-new_day_example =
    check_gi-new_day 1641043900000 1641050000000 path_a due_world refl refl refl
      (λ e. omega (arith, e)) refl

-- A station whose address needs a seventh bit.
abbrev distant_world : World
distant_world = record closed_world {
  a = record closed_path { conf = record path_conf { remote_address = 64 } };
}

analyze_frame-unreachable_example :
    analyze_frame 5000 path_a (0x01 ∷ 0x63 ∷ 0 ∷ 0 ∷ []) distant_world ≡ ok ([], distant_world)
analyze_frame-unreachable_example =
    analyze_frame-unreachable 5000 path_a (0x01 ∷ 0x63 ∷ 0 ∷ 0 ∷ []) distant_world (omega arith)
      (omega arith)

-- A GI ends while another is asked for and no path is active.
abbrev unanswered_world : World
unanswered_world = record closed_world { hnz = record (closed_world.hnz) { gi_in_queue = true } }

gi_completed-null_example : gi_completed 1640995230000 true unanswered_world ≡ fault null_pointer
unfolding labels_of
gi_completed-null_example =
    gi_completed-null 1640995230000 true unanswered_world ((511, "TS1") ∷ []) refl refl refl
