-- ===== src/System/Loops.antt =====
-- The loops of the manager of a path (src/hnzpath.cpp) and of the thread of the connection
-- (src/hnzconnection.cpp), event by event.
use fledge_south_hnz.Prelude.{
  ℕ, ◌≡◌, refl, ap, ◌∙◌, Bool, true, false, Bool-cases, inl, inr, List, [], ◌∷◌, ◌++◌, map,
  if◌then◌else◌, Result, ok, fault, Fault, ◌>>=◌,
}
use fledge_south_hnz.State.Link.{PathId}
use fledge_south_hnz.State.Station.{World}
use fledge_south_hnz.Link.Timers.{manage_messages}
use fledge_south_hnz.System.{Event, manage, wakes, schedules, round, step, run, start_messages}
use fledge_south_hnz.System.Threads.{Turn, Round, message_rounds, manage_all}
use fledge_south_hnz.System.Runs.{>>=-assoc, run-append}

-- Of some sequences of events, those that happen one after the other from a state: all up to the
-- first that ends with a fault or in a state in which the loop does not go on.
pub data UpTo (goes_on : World → Bool) : List (List Event) → World → List Event → Type 0 where
  ended : {w : World} → UpTo goes_on [] w []
  failed :
      {w : World} {es : List Event} {rest : List (List Event)} (why : Fault)
      → run es w ≡ fault why
      → UpTo goes_on (es ∷ rest) w es
  left :
      {w u : World} {es : List Event} {rest : List (List Event)}
      → run es w ≡ ok u
      → goes_on u ≡ false
      → UpTo goes_on (es ∷ rest) w es
  went_on :
      {w u : World} {es fs : List Event} {rest : List (List Event)}
      → run es w ≡ ok u
      → goes_on u ≡ true
      → UpTo goes_on rest u fs
      → UpTo goes_on (es ∷ rest) w (es ++ fs)

-- A loop that runs such sequences and tests after each.
module _ (goes_on : World → Bool) where
  -- One round of the loop.
  UpTo-round :
      (es : List Event) (rest : List (List Event)) (next : World → Result World) (w : World)
      → ((u : World)
          → run es w ≡ ok u
          → (fs : List Event) × (UpTo goes_on rest u fs × (run fs u ≡ next u)))
      → (fs : List Event) × (UpTo goes_on (es ∷ rest) w fs
          × (run fs w ≡ (run es w >>= λ u. if goes_on u then next u else ok u)))
  UpTo-round es rest next w k = by_result (run es w) refl
    where
      by_result :
          (r : Result World)
          → run es w ≡ r
          → (fs : List Event) × (UpTo goes_on (es ∷ rest) w fs
              × (run fs w ≡ (r >>= λ u. if goes_on u then next u else ok u)))
      by_result (fault why) e = (es, (failed why e, e))
      by_result (ok u) e = elim (Bool-cases (goes_on u)) [
        | inl on ↦
            let (fs, (t, f)) = k u e in
            (
              es ++ fs,
              (went_on e on t, rw on (run-append es fs w ∙ ap (λ r. r >>= λ v. run fs v) e ∙ f)),
            )
        | inr off ↦ (es, (left e off, rw off e))
      ]

run-none : (w : World) → run [] w ≡ ok w
unfolding run
run-none w = refl

-- The events of a round of each thread.
abbrev pub turn_events : PathId → Turn → List Event
turn_events i x = manage x.now i ∷ (x.during ++ (wakes i ∷ []))

abbrev pub round_events : Round → List Event
round_events x = round x.clock x.tcp_a x.tcp_b ∷ x.during

message_rounds-run :
    (xs : List Round) (w : World)
    → (es : List Event) × (UpTo (λ u. u.conn.is_running) (map round_events xs) w es
        × (run es w ≡ message_rounds xs w))
unfolding message_rounds run step
message_rounds-run [] w = ([], (ended, run-none w))
message_rounds-run (x ∷ xs) w =
    let (es, (t, e)) =
      UpTo-round (λ u. u.conn.is_running) (round_events x) (map round_events xs) (message_rounds xs)
        w (λ u f. message_rounds-run xs u) in
    (es, (t, e ∙ >>=-assoc (manage_messages x.clock x.tcp_a x.tcp_b w) (run x.during) _))

-- Each run of the thread of the connection, with the events of the other threads while it sleeps,
-- ends in the state and with the result of exactly these events: its start, then, for each round,
-- the round and the events of the others, up to the first round that ends with a fault or after
-- which the connection does not run.
pub manage_all-run :
    (now : ℕ) (xs : List Round) (w : World)
    → (es : List Event) × (UpTo
          (λ u. u.conn.is_running)
          (map round_events xs)
          (start_messages now w)
          es
        × (run (schedules now ∷ es) w ≡ manage_all now xs w))
unfolding manage_all run step
manage_all-run now xs w = message_rounds-run xs (start_messages now w)
