-- ===== src/Prelude/Results.antt =====
-- Code that may fault: a null pointer that is followed, a missing key of `map::at`, a read out of a
-- buffer.
use mathlib.Core.Option.{Option, none, some}
use mathlib.Core.Path.{◌≡◌, refl}
use mathlib.Core.Bool.{Bool, true, false}
use fledge_south_hnz.Prelude.Tests.{if◌then◌else◌}

pub data Fault : Type 0 where
  null_pointer out_of_range buffer_overrun : Fault

-- What code leaves behind, or the fault that ends it.
pub data Result {ℓ} (State : Type ℓ) : Type ℓ where
  fault : Fault → Result State
  ok : State → Result State

-- The next step is taken only where the one before did not fault.
infixl 5 ◌>>=◌
abbrev pub ◌>>=◌ {ℓ μ} :
    {S : Type ℓ} {T : Type μ} (before : Result S) (next : S → Result T) → Result T
fault why >>= next = fault why
ok s >>= next = next s

-- Two steps that do not fault meet in a state between them.
pub >>=-eq-ok {ℓ μ} :
    {S : Type ℓ} {T : Type μ} (before : Result S) (next : S → Result T) {t : T}
    → (before >>= next) ≡ ok t
    → (s : S) × (before ≡ ok s) × (next s ≡ ok t)
>>=-eq-ok (fault why) next reached = cc
>>=-eq-ok (ok s) next reached = (s, refl, reached)

pub ok_inj {ℓ} : {S : Type ℓ} {s t : S} → ok s ≡ ok t → s ≡ t
ok_inj same = cc

-- What holds of the state unless there is a fault.
abbrev pub Ensures {ℓ} : {S : Type ℓ} → (S → Type 0) → Result S → Type 0
Ensures P (fault why) = Unit
Ensures P (ok s) = P s

pub Ensures-eq-ok {ℓ} :
    {S : Type ℓ} (P : S → Type 0) {r : Result S} {s : S} → r ≡ ok s → Ensures P r → P s
Ensures-eq-ok P same held = rw same at held

pub Ensures->>= {ℓ μ} :
    {S : Type ℓ} {T : Type μ} (P : S → Type 0) (Q : T → Type 0) (before : Result S)
    (next : S → Result T)
    → Ensures P before
    → ((s : S) → P s → Ensures Q (next s))
    → Ensures Q (before >>= next)
Ensures->>= P Q (fault why) next held further = tt
Ensures->>= P Q (ok s) next held further = further s held

pub if-both {ℓ} :
    {S : Type ℓ} (P : S → Type 0) (b : Bool) (s t : S) → P s → P t → P (if b then s else t)
if-both P true s t p q = p
if-both P false s t p q = q

pub Ensures-if {ℓ} :
    {S : Type ℓ} (P : S → Type 0) (b : Bool) (r q : Result S)
    → Ensures P r
    → Ensures P q
    → Ensures P (if b then r else q)
Ensures-if P true r q held other = held
Ensures-if P false r q held other = other

-- Where the first branch may use the test.
pub if-when {ℓ} :
    {S : Type ℓ} (P : S → Type 0) (b : Bool) (s t : S)
    → (b ≡ true → P s)
    → P t
    → P (if b then s else t)
if-when P true s t held other = held refl
if-when P false s t held other = other

-- Where both branches may use the test.
pub if-cases {ℓ κ} :
    {S : Type ℓ} (P : S → Type κ) (b : Bool) (s t : S)
    → (b ≡ true → P s)
    → (b ≡ false → P t)
    → P (if b then s else t)
if-cases P true s t held other = held refl
if-cases P false s t held other = other refl

-- The same for a test of an option.
pub option-both {ℓ κ} :
    {A : Type ℓ} {S : Type κ} (P : S → Type 0) (o : Option A) (s : S) (t : A → S)
    → P s
    → ((a : A) → P (t a))
    → P (elim o [ none ↦ s | some a ↦ t a ])
option-both P none s t held other = held
option-both P (some a) s t held other = other a

-- Where the other branch may use the test.
pub option-when {ℓ κ} :
    {A : Type ℓ} {S : Type κ} (P : S → Type 0) (o : Option A) (s : S) (t : A → S)
    → P s
    → ((a : A) → o ≡ some a → P (t a))
    → P (elim o [ none ↦ s | some a ↦ t a ])
option-when P none s t held other = held
option-when P (some a) s t held other = other a refl

pub Ensures-and {ℓ} :
    {S : Type ℓ} (P Q : S → Type 0) (r : Result S)
    → Ensures P r
    → Ensures Q r
    → Ensures (λ s. P s × Q s) r
Ensures-and P Q (fault why) p q = tt
Ensures-and P Q (ok s) p q = (p, q)
