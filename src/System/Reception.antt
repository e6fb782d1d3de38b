-- ===== src/System/Reception.antt =====
-- What the thread that receives makes of a bad line (`getData` of src/hnzpath.cpp, `receive` of
-- src/hnz.cpp).
use fledge_south_hnz.Prelude.{
  ℕ, ◌≡◌, refl, sym, ap, ◌∙◌, Bool, true, not, ◌&&◌, Option, none, some, List, [], ◌∷◌, ◌++◌,
  Result, ok, ◌>>=◌, if◌then◌else◌, and-true, if-cases,
}
use fledge_south_hnz.State.Link.{PathId}
use fledge_south_hnz.State.Station.{World}
use fledge_south_hnz.System.{Event, run}
use fledge_south_hnz.System.Runs.{run-append, >>=-same, >>=-ok}
use fledge_south_hnz.System.Threads.{
  Wait, get_data, receive_round, receive_rounds, reconnect, no_messages,
}
use fledge_south_hnz.Link.Frames.{Received, analyze_frame}
use fledge_south_hnz.Station.Handle.{handle_messages}

abbrev pub is_unreadable : (List ℕ → Bool) → Option (List ℕ) → Bool
is_unreadable check_crc none = true
is_unreadable check_crc (some bytes) = not (check_crc bytes)

-- A wait in which the client stays connected and no frame with a right CRC comes in.
abbrev pub is_noise : (List ℕ → Bool) → Wait → Bool
is_noise check_crc x = x.tcp && is_unreadable check_crc x.received

abbrev pub all_noise : (List ℕ → Bool) → List Wait → Bool
all_noise check_crc [] = true
all_noise check_crc (x ∷ xs) = is_noise check_crc x && all_noise check_crc xs

-- The events of the other threads.
abbrev pub meanwhile : List Wait → List Event
meanwhile [] = []
meanwhile (x ∷ xs) = x.during ++ meanwhile xs

module _ (check_crc : List ℕ → Bool) (i : PathId) where
  get_data-unreadable :
      (now : ℕ) (o : Option (List ℕ)) (w : World)
      → is_unreadable check_crc o ≡ true
      → get_data check_crc i now o w ≡ ok ([], w)
  unfolding get_data
  get_data-unreadable now none w e = refl
  get_data-unreadable now (some bytes) w e =
      if-cases (λ r. r ≡ ok ([], w)) (check_crc bytes) (analyze_frame now i bytes w) (ok ([], w))
        (λ f. let g = ap not f in cc) (λ f. refl)

  -- What a round makes of what it received.
  abbrev answer : Wait → Received → Result World
  answer x (ms, v) =
      if no_messages ms && not x.tcp
      then reconnect check_crc i x v
      else handle_messages x.clock ms v

  receive_round-noise :
      (x : Wait) (w : World)
      → is_noise check_crc x ≡ true
      → receive_round check_crc i x w ≡ run x.during w
  unfolding receive_round handle_messages
  receive_round-noise x w e =
      let (linked, silent) = and-true x.tcp _ e in
      >>=-same (run x.during w) _ (λ u. ok u)
        (λ u e.
          ap (λ r. r >>= answer x) (get_data-unreadable x.clock.now x.received u silent)
          ∙ ap (λ b. if not b then reconnect check_crc i x u else ok u) linked)
      ∙ >>=-ok (run x.during w)

  -- As long as the client stays connected and no frame with a right CRC comes in, the thread that
  -- receives changes nothing: what its rounds end with is what the events of the other threads
  -- make of the state.
  pub receive_rounds-noise :
      (xs : List Wait) (w : World)
      → all_noise check_crc xs ≡ true
      → receive_rounds check_crc i xs w ≡ run (meanwhile xs) w
  unfolding receive_rounds run
  receive_rounds-noise [] w e = refl
  receive_rounds-noise (x ∷ xs) w e =
      let (h, t) = and-true (is_noise check_crc x) _ e in
      ap (λ r. r >>= receive_rounds check_crc i xs) (receive_round-noise x w h)
      ∙ >>=-same (run x.during w) _ _ (λ u e. receive_rounds-noise xs u t)
      ∙ sym (run-append x.during (meanwhile xs) w)
