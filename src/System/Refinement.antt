-- ===== src/System/Refinement.antt =====
-- The thread that receives (src/hnz.cpp, src/hnzpath.cpp) as a sequence of events.
use fledge_south_hnz.Prelude.{
  ℕ, ◌≡◌, refl, ap, ◌∙◌, Bool, true, not, ◌&&◌, ◌||◌, Option, none, some, List, [], ◌∷◌, Result, ok,
  fault, ◌>>=◌, if◌then◌else◌, if-both, and-true,
}
use fledge_south_hnz.State.Conf.{is_complete}
use fledge_south_hnz.State.Link.{PathId}
use fledge_south_hnz.State.Station.{World, path}
use fledge_south_hnz.Link.Frames.{Received, analyze_frame}
use fledge_south_hnz.Link.Made.{IsMade}
use fledge_south_hnz.Link.Timers.{start_connect, disconnect}
use fledge_south_hnz.Station.Handle.{handle_messages}
use fledge_south_hnz.System.{Event, frame, connects, disconnects, receive_frame, step, run}
use fledge_south_hnz.System.Threads.{
  Attempt, Wait, is_path_running, try_connect, connect, no_messages, get_data, reconnect,
  receive_round, receive_rounds, receive,
}
use fledge_south_hnz.System.Runs.{
  each, receives, each_attempt, each_wait, same_path_refl, Reached, Reached-run, Reached-ok,
  Reached->>=, Reached-if, Reached-event,
}

module _ (allowed : Event → Bool) (i : PathId)
    (own : (e : Event) → receives i e ≡ true → allowed e ≡ true) where
  start_connect-Reached : (now : ℕ) (w : World) → Reached allowed i w (ok (start_connect now i w))
  unfolding step
  start_connect-Reached now w =
      Reached-event allowed i (connects now i) w _ (own (connects now i) (same_path_refl i))
        (ap (λ b. ok (if b then start_connect now i w else w)))

  disconnect-Reached : (now : ℕ) (w : World) → Reached allowed i w (ok (disconnect now i w))
  unfolding step
  disconnect-Reached now w =
      Reached-event allowed i (disconnects now i) w _ (own (disconnects now i) (same_path_refl i))
        (ap (λ b. ok (if b then disconnect now i w else w)))

  try_connect-Reached :
      (xs : List Attempt) (w : World)
      → each_attempt allowed xs ≡ true
      → Reached allowed i w (try_connect i xs w)
  unfolding try_connect
  try_connect-Reached [] w a = Reached-ok allowed i w
  try_connect-Reached (x ∷ xs) w a =
      let (h, t) = and-true (each allowed x.during) _ a in
      Reached-if allowed i (is_path_running i w) w _ (ok w)
        (Reached->>= allowed i w (run x.during w) _ (Reached-run allowed i x.during w h) (λ u.
          Reached-if allowed i (not (is_path_running i u) || x.tcp) u (ok u) (try_connect i xs u)
            (Reached-ok allowed i u) (try_connect-Reached xs u t)))
        (Reached-ok allowed i w)

  connect-Reached :
      (now : ℕ) (xs : List Attempt) (w : World)
      → each_attempt allowed xs ≡ true
      → Reached allowed i w (connect now i xs w)
  unfolding connect
  connect-Reached now xs w a =
      Reached->>= allowed i w (ok (start_connect now i w)) (try_connect i xs)
        (start_connect-Reached now w) (λ u. try_connect-Reached xs u a)

  module _ (check_crc : List ℕ → Bool) where
    reconnect-Reached :
        (x : Wait) (w : World)
        → each_attempt allowed x.attempts ≡ true
        → Reached allowed i w (reconnect check_crc i x w)
    unfolding reconnect
    reconnect-Reached x w a =
        let u = if x.leaves then disconnect x.clock.now i w else w in
        Reached->>= allowed i w (ok u)
          (λ v. if x.returns then connect x.clock.now i x.attempts v else ok v)
          (if-both (λ v. Reached allowed i w (ok v)) x.leaves (disconnect x.clock.now i w) w
            (disconnect-Reached x.clock.now w) (Reached-ok allowed i w))
          (λ v.
            Reached-if allowed i x.returns v (connect x.clock.now i x.attempts v) (ok v)
              (connect-Reached x.clock.now x.attempts v a) (Reached-ok allowed i v))

    -- What a round makes of what it received.
    abbrev received : Wait → List (List ℕ) × World → Result World
    received x (ms, v) =
        if no_messages ms && not x.tcp
        then reconnect check_crc i x v
        else handle_messages x.clock ms v

    idle-Reached :
        (x : Wait) (w : World)
        → each_attempt allowed x.attempts ≡ true
        → Reached allowed i w (received x ([], w))
    unfolding handle_messages
    idle-Reached x w a =
        Reached-if allowed i (not x.tcp) w (reconnect check_crc i x w) (ok w)
          (reconnect-Reached x w a) (Reached-ok allowed i w)

    frame-step :
        (x : Wait) (bytes : List ℕ) (w : World) (r : Result Received)
        → analyze_frame x.clock.now i bytes w ≡ r
        → IsMade i w
        → step (frame x.clock i bytes) w ≡ (r >>= λ (ms, v). handle_messages x.clock ms v)
    unfolding step receive_frame
    frame-step x bytes w r h m =
        ap (λ b. if b then receive_frame x.clock i bytes w else ok w) m
        ∙ ap (λ r. r >>= λ (s : Received). handle_messages x.clock s.0 s.1) h

    frame-Reached :
        (x : Wait) (bytes : List ℕ) (w : World) (r : Result Received)
        → each_attempt allowed x.attempts ≡ true
        → analyze_frame x.clock.now i bytes w ≡ r
        → Reached allowed i w (r >>= received x)
    unfolding handle_messages
    frame-Reached x bytes w (fault e) a h =
        Reached-event allowed i (frame x.clock i bytes) w (fault e)
          (own (frame x.clock i bytes) (same_path_refl i)) (frame-step x bytes w (fault e) h)
    frame-Reached x bytes w (ok ([], v)) a h =
        Reached->>= allowed i w (ok v) (λ u. received x ([], u))
          (Reached-event allowed i (frame x.clock i bytes) w (ok v)
            (own (frame x.clock i bytes) (same_path_refl i)) (frame-step x bytes w (ok ([], v)) h))
          (λ u. idle-Reached x u a)
    frame-Reached x bytes w (ok (k ∷ ks, v)) a h =
        Reached-event allowed i (frame x.clock i bytes) w _
          (own (frame x.clock i bytes) (same_path_refl i)) (frame-step x bytes w (ok (k ∷ ks, v)) h)

    get_data-Reached :
        (x : Wait) (o : Option (List ℕ)) (w : World)
        → each_attempt allowed x.attempts ≡ true
        → Reached allowed i w (get_data check_crc i x.clock.now o w >>= received x)
    unfolding get_data
    get_data-Reached x none w a = idle-Reached x w a
    get_data-Reached x (some bytes) w a =
        if-both (λ r. Reached allowed i w (r >>= received x)) (check_crc bytes) _ (ok ([], w))
          (frame-Reached x bytes w _ a refl) (idle-Reached x w a)

    receive_rounds-Reached :
        (xs : List Wait) (w : World)
        → each_wait allowed xs ≡ true
        → Reached allowed i w (receive_rounds check_crc i xs w)
    unfolding receive_rounds receive_round
    receive_rounds-Reached [] w a = Reached-ok allowed i w
    receive_rounds-Reached (x ∷ xs) w a =
        let (h, t) = and-true (each allowed x.during) _ a in
        let (k, rest) = and-true (each_attempt allowed x.attempts) _ t in
        Reached->>= allowed i w (receive_round check_crc i x w) (receive_rounds check_crc i xs)
          (Reached->>= allowed i w (run x.during w) _ (Reached-run allowed i x.during w h)
            (λ u. get_data-Reached x x.received u k))
          (λ u. receive_rounds-Reached xs u rest)

    -- If the events of the thread that receives on a path (frames, connections and losses of this
    -- path) and all events of the other threads pass a test, each run of that thread on a path
    -- that is set, with the events of the other threads while it is blocked, ends in the state and
    -- with the result of a sequence of events that pass the test.
    pub receive-run :
        (now : ℕ) (attempts : List Attempt) (running : Bool) (xs : List Wait) (w : World)
        → (path i w).created ≡ true
        → each_attempt allowed attempts ≡ true
        → each_wait allowed xs ≡ true
        → (es : List Event) × ((each allowed es ≡ true)
            × (run es w ≡ receive check_crc i now attempts running xs w))
    unfolding receive
    receive-run now attempts running xs w m a b =
        Reached-if allowed i ((path i w).created && is_complete w.hnz.conf) w _ (ok w)
          (Reached->>= allowed i w (connect now i attempts w) _ (connect-Reached now attempts w a)
            (λ u.
              Reached-if allowed i running u (receive_rounds check_crc i xs u) (ok u)
                (receive_rounds-Reached xs u b) (Reached-ok allowed i u)))
          (Reached-ok allowed i w) m
