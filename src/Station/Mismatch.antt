-- ===== src/Station/Mismatch.antt =====
-- The addresses that a general interrogation missed or should not have had
-- (`m_getMismatchingTSCGAddresses`, src/hnz.cpp). A `std::set` is a list in ascending order.
use fledge_south_hnz.Prelude.{
  ℕ, ◌≡◌, refl, ◌==◌, ltb, if◌then◌else◌, Bool, true, false, not, ◌&&◌, ◌||◌, Option, none, some,
  String, if-cases, List, [], ◌∷◌, arith, Result, ok, fault, out_of_range,
}
use fledge_south_hnz.State.Conf.{Labels, labels_of, label_at}
use fledge_south_hnz.State.Station.{Hnz}
use fledge_south_hnz.Station.Reading.{contains}

unfoldable pub insert_address : ℕ → List ℕ → List ℕ
insert_address a [] = a ∷ []
insert_address a (x ∷ xs) =
    let later = insert_address a xs in
    if a == x then x ∷ xs else (if ltb a x then a ∷ x ∷ xs else x ∷ later)

unfoldable pub erase_address : ℕ → List ℕ → List ℕ
erase_address a [] = []
erase_address a (x ∷ xs) = let later = erase_address a xs in if a == x then later else x ∷ later

-- The addresses of the configured TS.
unfoldable pub known_addresses : Labels → List ℕ
unfolding insert_address
known_addresses [] = []
known_addresses ((a, l) ∷ rest) = insert_address a (known_addresses rest)

pub record AddressesDiff : Type 0 where
  pub missing_addresses : List ℕ
  pub extra_addresses : List ℕ

-- The loop over the received addresses.
unfoldable pub remove_received : List ℕ → AddressesDiff → AddressesDiff
unfolding contains insert_address erase_address
remove_received [] d = d
remove_received (a ∷ rest) d =
    if contains d.missing_addresses a
    then remove_received rest (record d { missing_addresses = erase_address a d.missing_addresses })
    else remove_received rest (record d { extra_addresses = insert_address a d.extra_addresses })

unfoldable pub mismatching_addresses : Hnz → Result AddressesDiff
unfolding known_addresses remove_received
mismatching_addresses h = elim (labels_of "TS" h.conf.remote_station_addr h.conf.msg_list) [
  | none ↦ fault out_of_range
  | some ls ↦ ok (
      remove_received h.gi_addresses_received
        (record { missing_addresses = known_addresses ls; extra_addresses = [] }))
]

contains-insert_address :
    (a : ℕ) (xs : List ℕ) (b : ℕ) → contains (insert_address a xs) b ≡ (a == b || contains xs b)
unfolding contains insert_address
contains-insert_address a [] b = refl
contains-insert_address a (x ∷ xs) b = let ih = contains-insert_address a xs b in ground arith

contains-erase_address :
    (a : ℕ) (xs : List ℕ) (b : ℕ)
    → contains (erase_address a xs) b ≡ (not (a == b) && contains xs b)
unfolding contains erase_address
contains-erase_address a [] b = ground arith
contains-erase_address a (x ∷ xs) b = let ih = contains-erase_address a xs b in ground arith

abbrev pub has_label : Option String → Bool
has_label none = false
has_label (some l) = true

contains-known_addresses :
    (ls : Labels) (a : ℕ) → contains (known_addresses ls) a ≡ has_label (label_at a ls)
unfolding contains known_addresses label_at
contains-known_addresses [] a = refl
contains-known_addresses ((b, l) ∷ rest) a =
    let ih = contains-known_addresses rest a in
    let one = contains-insert_address b (known_addresses rest) a in grind arith

-- No address was received twice.
abbrev pub Distinct : List ℕ → Type 0
Distinct [] = Unit
Distinct (a ∷ rest) = (contains rest a ≡ false) × Distinct rest

missing-remove_received :
    (rs : List ℕ) (d : AddressesDiff) (b : ℕ)
    → contains (remove_received rs d).missing_addresses b
      ≡ (contains d.missing_addresses b && not (contains rs b))
unfolding remove_received contains
missing-remove_received [] d b = ground arith
missing-remove_received (a ∷ rs) d b =
    let u : AddressesDiff = record d { missing_addresses = erase_address a d.missing_addresses } in
    let v : AddressesDiff = record d { extra_addresses = insert_address a d.extra_addresses } in
    let e = contains-erase_address a d.missing_addresses b in
    let f = missing-remove_received rs u b in
    let g = missing-remove_received rs v b in
    if-cases
      (λ (x : AddressesDiff).
        contains x.missing_addresses b
        ≡ (contains d.missing_addresses b && not (a == b || contains rs b)))
      (contains d.missing_addresses a) (remove_received rs u) (remove_received rs v)
      (λ h. grind arith) (λ h. grind arith)

extra-remove_received :
    (rs : List ℕ) (d : AddressesDiff) (b : ℕ)
    → Distinct rs
    → contains (remove_received rs d).extra_addresses b
      ≡ (contains d.extra_addresses b || (contains rs b && not (contains d.missing_addresses b)))
unfolding remove_received contains
extra-remove_received [] d b distinct = ground arith
extra-remove_received (a ∷ rs) d b distinct =
    let u : AddressesDiff = record d { missing_addresses = erase_address a d.missing_addresses } in
    let v : AddressesDiff = record d { extra_addresses = insert_address a d.extra_addresses } in
    let e = contains-erase_address a d.missing_addresses b in
    let i = contains-insert_address a d.extra_addresses b in
    let f = extra-remove_received rs u b distinct.1 in
    let g = extra-remove_received rs v b distinct.1 in
    let once = distinct.0 in
    if-cases
      (λ (x : AddressesDiff). contains x.extra_addresses b ≡ (
        contains d.extra_addresses b
        || ((a == b || contains rs b) && not (contains d.missing_addresses b))))
      (contains d.missing_addresses a) (remove_received rs u) (remove_received rs v)
      (λ h. grind arith) (λ h. grind arith)

-- If TS are configured for the station and no address was received twice, the missing addresses
-- are those that are configured and were not received, and the extra ones those that were received
-- and are not configured.
pub contains-mismatching_addresses :
    (h : Hnz) (ls : Labels) (b : ℕ)
    → labels_of "TS" h.conf.remote_station_addr h.conf.msg_list ≡ some ls
    → Distinct h.gi_addresses_received
    → (d : AddressesDiff) × ((mismatching_addresses h ≡ ok d)
        × ((contains d.missing_addresses b
              ≡ (has_label (label_at b ls) && not (contains h.gi_addresses_received b)))
            × (contains d.extra_addresses b
                ≡ (contains h.gi_addresses_received b && not (has_label (label_at b ls))))))
unfolding mismatching_addresses contains
contains-mismatching_addresses h ls b found distinct =
    let d : AddressesDiff = record {
      missing_addresses = known_addresses ls;
      extra_addresses = [];
    } in
    let k = contains-known_addresses ls b in
    let m = missing-remove_received h.gi_addresses_received d b in
    let e = extra-remove_received h.gi_addresses_received d b distinct in
    (remove_received h.gi_addresses_received d, (rw (found, mismatching_addresses) refl, (cc, cc)))
