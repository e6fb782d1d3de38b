-- ===== src/Path/Pending.antt =====
-- The commands of a path that wait for an acknowledgement (src/hnzpath.cpp, src/hnzconnection.cpp).
use fledge_south_hnz.Prelude.{
  ℕ, ◌<◌, ◌≡◌, ap, ltb, ltb→lt, ltb-false→le, true, Bool-cases, inl, inr, and-true, eq_iff, List,
  [], ◌∷◌, String, str_eq, ℤ, pos, negsuc, arith,
}
use fledge_south_hnz.State.Link.{HnzPath, CommandMessage}
use fledge_south_hnz.Path.Commands.{
  addr_eq, is_command, erase_commands, received_command_ack, erase_expired, check_command_timer,
}

-- The second list is the first without exactly the elements with a property, in the same order.
pub data Without {ℓ κ} {A : Type ℓ} (P : A → Type κ) : List A → List A → Type (ℓ ⊔ κ) where
  done : Without P [] []
  drops : {x : A} {xs ys : List A} → P x → Without P xs ys → Without P (x ∷ xs) ys
  keeps : {x : A} {xs ys : List A} → ¬ P x → Without P xs ys → Without P (x ∷ xs) (x ∷ ys)

-- A command of this type and address.
abbrev pub IsFor : String → ℕ → CommandMessage → Type 0
IsFor kind addr c = (c.kind ≡ kind) × (c.addr ≡ pos addr)

-- A command that is past its time.
abbrev pub IsLate : ℕ → CommandMessage → Type 0
IsLate current c = c.timestamp_max < current

addr_eq-true : (z : ℤ) (addr : ℕ) → addr_eq z addr ≡ true → z ≡ pos addr
unfolding addr_eq
addr_eq-true (pos n) addr e = ap pos (ground arith)
addr_eq-true (negsuc n) addr e = cc

addr_eq_refl : (addr : ℕ) → addr_eq (pos addr) addr ≡ true
unfolding addr_eq
addr_eq_refl addr = ground arith

is_command-IsFor :
    (kind : String) (addr : ℕ) (c : CommandMessage)
    → is_command kind addr c ≡ true
    → IsFor kind addr c
is_command-IsFor kind addr c e =
    let (k, a) = and-true (str_eq c.kind kind) _ e in
    ((eq_iff c.kind kind).0 k, addr_eq-true c.addr addr a)

IsFor-is_command :
    (kind : String) (addr : ℕ) (c : CommandMessage)
    → IsFor kind addr c
    → is_command kind addr c ≡ true
IsFor-is_command kind addr c (k, a) = rw (a, (eq_iff c.kind kind).1 k) (addr_eq_refl addr)

erase_commands-Without :
    (kind : String) (addr : ℕ) (cs : List CommandMessage)
    → Without (IsFor kind addr) cs (erase_commands kind addr cs)
unfolding erase_commands
erase_commands-Without kind addr [] = done
erase_commands-Without kind addr (c ∷ cs) =
    let rest = erase_commands-Without kind addr cs in
    elim (Bool-cases (is_command kind addr c)) [
      | inl e ↦ rw e (drops (is_command-IsFor kind addr c e) rest)
      | inr e ↦ rw e (keeps (λ h. cc (e, IsFor-is_command kind addr c h)) rest)
    ]

-- An acknowledgement of a command ends the wait of exactly the commands of its type and address on
-- the path: all others stay, in their order.
pub received_command_ack-Without :
    (p : HnzPath) (kind : String) (addr : ℕ)
    → Without (IsFor kind addr) p.command_sent (received_command_ack p kind addr).command_sent
unfolding received_command_ack
received_command_ack-Without p kind addr = erase_commands-Without kind addr p.command_sent

erase_expired-Without :
    (current : ℕ) (cs : List CommandMessage)
    → Without (IsLate current) cs (erase_expired current cs)
unfolding erase_expired
erase_expired-Without current [] = done
erase_expired-Without current (c ∷ cs) =
    let rest = erase_expired-Without current cs in
    elim (Bool-cases (ltb c.timestamp_max current)) [
      | inl e ↦ rw e (drops (ltb→lt _ _ e) rest)
      | inr e ↦ let h = ltb-false→le _ _ e in rw e (keeps (λ late. omega (arith, h, late)) rest)
    ]

-- The timer of the commands takes exactly the commands that are past their time from the path: all
-- others stay, in their order.
pub check_command_timer-Without :
    (current : ℕ) (p : HnzPath)
    → Without (IsLate current) p.command_sent (check_command_timer current p).command_sent
unfolding check_command_timer
check_command_timer-Without current p = erase_expired-Without current p.command_sent
