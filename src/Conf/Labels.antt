-- ===== src/Conf/Labels.antt =====
-- What the readers of the configuration find after an entry is added (src/hnzconf.cpp).
use fledge_south_hnz.Prelude.{
  ℕ, ◌==◌, if◌then◌else◌, Bool, true, false, ◌&&◌, ◌≡◌, refl, sym, ap, ap₂, ◌∙◌, String, str_eq,
  Option, none, some, List, [], ◌∷◌, arith, ◌⊎◌, inl, inr, Bool-cases, eq_iff,
}
use fledge_south_hnz.State.Conf.{HnzConf, Labels, label_at, labels_of, get_label}
use fledge_south_hnz.Conf.Exchange.{set_label, set_message, store_message}

pub label_at-set_label :
    (addr : ℕ) (label : String) (ls : Labels) (a : ℕ)
    → label_at a (set_label addr label ls) ≡ (if addr == a then some label else label_at a ls)
unfolding label_at set_label
label_at-set_label addr label [] a = refl
label_at-set_label addr label ((b, l) ∷ rest) a =
    let ih = label_at-set_label addr label rest a in ground arith

abbrev pub labels_or : Option Labels → Labels
labels_or none = []
labels_or (some ls) = ls

str_eq-or : (s t : String) → (s ≡ t) ⊎ (str_eq s t ≡ false)
str_eq-or s t = elim (Bool-cases (str_eq s t)) [ inl h ↦ inl ((eq_iff s t).0 h) | inr h ↦ inr h ]

str_eq_refl : (s : String) → str_eq s s ≡ true
str_eq_refl s = (eq_iff s s).1 refl

str_eq-sym : (s t : String) → str_eq s t ≡ str_eq t s
str_eq-sym s t = elim (str_eq-or s t) [
  | inl h ↦ ap₂ str_eq h (sym h)
  | inr h ↦ elim (str_eq-or t s) [ inl k ↦ ap₂ str_eq (sym k) k | inr k ↦ h ∙ sym k ]
]

-- A text is equal to one of two unequal texts at most.
str_eq-apart : (s t u : String) → str_eq s t ≡ false → str_eq s u ≡ true → str_eq t u ≡ false
str_eq-apart s t u h e =
    let f = (eq_iff s u).0 e in str_eq-sym t u ∙ (ap (λ v. str_eq v t) (sym f) ∙ h)

pub labels_of-set_message :
    (code : String) (station addr : ℕ) (label : String) (ms : List (String × ℕ × Labels))
    (k : String) (s : ℕ)
    → labels_of k s (set_message code station addr label ms) ≡ (
        if str_eq code k && station == s
        then some (set_label addr label (labels_or (labels_of code station ms)))
        else labels_of k s ms)
unfolding labels_of set_message
labels_of-set_message code station addr label [] k s = refl
labels_of-set_message code station addr label ((c, t, ls) ∷ rest) k s =
    let ih = labels_of-set_message code station addr label rest k s in
    elim (str_eq-or c code) [
      | inl same ↦ let r = str_eq_refl code in grind arith
      | inr other ↦ let f = str_eq-apart c code k other in grind arith
    ]

-- What `get_label` reads in the labels that it found.
abbrev label_or_empty : Option String → String
label_or_empty none = ""
label_or_empty (some l) = l

abbrev label_in : Option Labels → ℕ → String
unfolding label_at
label_in none a = ""
label_in (some ls) a = label_or_empty (label_at a ls)

label_or_empty-if :
    (b : Bool) (l : String) (o : Option String)
    → label_or_empty (if b then some l else o) ≡ (if b then l else label_or_empty o)
label_or_empty-if true l o = refl
label_or_empty-if false l o = refl

label_in-set_label :
    (addr : ℕ) (label : String) (o : Option Labels) (a : ℕ)
    → label_in (some (set_label addr label (labels_or o))) a
      ≡ (if addr == a then label else label_in o a)
unfolding label_at set_label
label_in-set_label addr label none a = label_or_empty-if (addr == a) label none
label_in-set_label addr label (some ls) a =
    ap label_or_empty (label_at-set_label addr label ls a)
    ∙ label_or_empty-if (addr == a) label (label_at a ls)

get_label-label_in :
    (c : HnzConf) (k : String) (a : ℕ)
    → get_label c k a ≡ label_in (labels_of k c.remote_station_addr c.msg_list) a
unfolding get_label label_in label_at
get_label-label_in c k a =
    elim (labels_of k c.remote_station_addr c.msg_list)
      as (λ o.
        elim o [ none ↦ "" | some ls ↦ elim (label_at a ls) [ none ↦ "" | some l ↦ l ] ]
        ≡ label_in o a) [
          | none ↦ refl
          | some ls ↦
              elim (label_at a ls) as (λ o. elim o [ none ↦ "" | some l ↦ l ] ≡ label_or_empty o) [
                | none ↦ refl
                | some l ↦ refl
              ]
        ]

-- After a message of the exchanged data is stored, its type and address have its label, and every
-- other type and address has the label that it had.
pub get_label-store_message :
    (code : String) (addr : ℕ) (label : String) (trigger : Option ℕ) (c : HnzConf) (k : String)
    (a : ℕ)
    → get_label (store_message code addr label trigger c) k a
      ≡ (if str_eq code k && addr == a then label else get_label c k a)
unfolding store_message
get_label-store_message code addr label trigger c k a =
    let s = c.remote_station_addr in
    let h = labels_of-set_message code s addr label c.msg_list k s in
    let old = get_label-label_in c k a in
    let new = get_label-label_in (store_message code addr label trigger c) k a in
    let one = label_in-set_label addr label (labels_of code s c.msg_list) a in
    elim (Bool-cases (str_eq code k)) [
      | inl e ↦ let same = (eq_iff code k).0 e in grind arith
      | inr e ↦ grind arith
    ]
