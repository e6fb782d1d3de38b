-- ===== src/System/Runs.antt =====
-- Sequences of events, and how they compose (src/hnz.cpp, src/hnzpath.cpp, src/hnzconnection.cpp).
use fledge_south_hnz.Prelude.{
  ◌≡◌, refl, sym, ap, ◌∙◌, Bool, true, false, ◌&&◌, List, [], ◌∷◌, ◌++◌, if◌then◌else◌, Result, ok,
  fault, ◌>>=◌, arith, and-true,
}
use fledge_south_hnz.State.Link.{PathId, path_a, path_b}
use fledge_south_hnz.State.Station.{World, same_path}
use fledge_south_hnz.Link.Made.{IsMade, IsMade-IsInvariant}
use fledge_south_hnz.System.{Event, frame, connects, disconnects, step, run}
use fledge_south_hnz.System.Invariant.{run-Holds}
use fledge_south_hnz.System.Threads.{Attempt, Wait}

pub >>=-ok {ℓ} : {S : Type ℓ} (r : Result S) → (r >>= λ s. ok s) ≡ r
>>=-ok (fault e) = refl
>>=-ok (ok s) = refl

pub >>=-assoc {ℓ μ ν} :
    {S : Type ℓ} {T : Type μ} {R : Type ν} (r : Result S) (f : S → Result T) (g : T → Result R)
    → ((r >>= f) >>= g) ≡ (r >>= λ s. f s >>= g)
>>=-assoc (fault e) f g = refl
>>=-assoc (ok s) f g = refl

pub >>=-same {ℓ μ} :
    {S : Type ℓ} {T : Type μ} (r : Result S) (f g : S → Result T)
    → ((s : S) → r ≡ ok s → f s ≡ g s)
    → (r >>= f) ≡ (r >>= g)
>>=-same (fault e) f g h = refl
>>=-same (ok s) f g h = h s refl

pub run-append : (xs ys : List Event) (w : World) → run (xs ++ ys) w ≡ (run xs w >>= λ u. run ys u)
unfolding run
run-append [] ys w = refl
run-append (x ∷ xs) ys w =
    >>=-same (step x w) _ _ (λ u e. run-append xs ys u)
    ∙ sym (>>=-assoc (step x w) (run xs) (run ys))

run-one : (e : Event) (w : World) → run (e ∷ []) w ≡ step e w
unfolding run
run-one e w = >>=-ok (step e w)

-- Do all events of a sequence pass a test?
abbrev pub each : (Event → Bool) → List Event → Bool
each f [] = true
each f (e ∷ es) = f e && each f es

each-append :
    (f : Event → Bool) (xs ys : List Event)
    → each f xs ≡ true
    → each f ys ≡ true
    → each f (xs ++ ys) ≡ true
each-append f [] ys p q = q
each-append f (x ∷ xs) ys p q =
    let (h, t) = and-true (f x) _ p in let rest = each-append f xs ys t q in ground arith

-- The events of the thread that receives on path i.
abbrev pub receives : PathId → Event → Bool
receives i (frame clock j bytes) = same_path i j
receives i (connects now j) = same_path i j
receives i (disconnects now j) = same_path i j
receives i _ = false

-- Do all events of the other threads pass a test?
abbrev pub each_attempt : (Event → Bool) → List Attempt → Bool
each_attempt f [] = true
each_attempt f (x ∷ xs) = each f x.during && each_attempt f xs

abbrev pub each_wait : (Event → Bool) → List Wait → Bool
each_wait f [] = true
each_wait f (x ∷ xs) = each f x.during && (each_attempt f x.attempts && each_wait f xs)

pub same_path_refl : (i : PathId) → same_path i i ≡ true
same_path_refl path_a = refl
same_path_refl path_b = refl

module _ (allowed : Event → Bool) where
  -- What some events make of a state.
  abbrev pub Runs : World → Result World → Type 0
  Runs w r = (es : List Event) × ((each allowed es ≡ true) × (run es w ≡ r))

  pub Runs-event : (e : Event) (w : World) → allowed e ≡ true → Runs w (step e w)
  Runs-event e w a = (e ∷ [], (ap (λ b. b && true) a, run-one e w))

  pub Runs->>= :
      (w : World) (r : Result World) (next : World → Result World)
      → Runs w r
      → ((u : World) → r ≡ ok u → Runs u (next u))
      → Runs w (r >>= next)
  Runs->>= w (fault e) next h k = h
  Runs->>= w (ok u) next (es, (a, f)) k =
      let (fs, (b, g)) = k u refl in
      (
        es ++ fs,
        (each-append allowed es fs a b, run-append es fs w ∙ ap (λ r. r >>= λ v. run fs v) f ∙ g),
      )

  pub Runs-if :
      (b : Bool) (w : World) (r q : Result World)
      → Runs w r
      → Runs w q
      → Runs w (if b then r else q)
  Runs-if true w r q h k = h
  Runs-if false w r q h k = k

  -- The same of a state with path i set.
  abbrev pub Reached : PathId → World → Result World → Type 0
  Reached i w r = IsMade i w → Runs w r

  pub Reached-run :
      (i : PathId) (es : List Event) (w : World) → each allowed es ≡ true → Reached i w (run es w)
  Reached-run i es w a m = (es, (a, refl))

  pub Reached-ok : (i : PathId) (w : World) → Reached i w (ok w)
  unfolding run
  Reached-ok i w m = ([], (refl, refl))

  pub Reached->>= :
      (i : PathId) (w : World) (r : Result World) (next : World → Result World)
      → Reached i w r
      → ((u : World) → Reached i u (next u))
      → Reached i w (r >>= next)
  Reached->>= i w r next h k m =
      let (es, (a, f)) = h m in
      Runs->>= w r next (es, (a, f)) (λ u e. k u (run-Holds (IsMade-IsInvariant i) es w m (f ∙ e)))

  pub Reached-if :
      (i : PathId) (b : Bool) (w : World) (r q : Result World)
      → Reached i w r
      → Reached i w q
      → Reached i w (if b then r else q)
  Reached-if i b w r q h k m = Runs-if b w r q (h m) (k m)

  -- One event, on a path that is set.
  pub Reached-event :
      (i : PathId) (e : Event) (w : World) (r : Result World)
      → allowed e ≡ true
      → (IsMade i w → step e w ≡ r)
      → Reached i w r
  Reached-event i e w r a h m = (e ∷ [], (ap (λ b. b && true) a, run-one e w ∙ h m))
