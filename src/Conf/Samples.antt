-- ===== src/Conf/Samples.antt =====
-- A configuration in JSON: the values are the numbers of the nodes of two documents.
use fledge_south_hnz.Prelude.{
  ℕ, ◌==◌, if◌then◌else◌, Bool, true, false, String, str_eq, Option, none, some, List, [], ◌∷◌, pos,
}
use fledge_south_hnz.Conf.Json.{Json, Conversions}

abbrev pub node {ℓ} : {A : Type ℓ} → ℕ → List (ℕ × A) → Option A
node n [] = none
node n ((m, a) ∷ rest) = if n == m then some a else node n rest

abbrev pub text_of {ℓ} : {A : Type ℓ} → String → List (String × A) → Option A
text_of s [] = none
text_of s ((t, a) ∷ rest) = if str_eq s t then some a else text_of s rest

abbrev field {ℓ} : {A : Type ℓ} → String → Option (List (String × A)) → Option A
field key none = none
field key (some fs) = text_of key fs

abbrev is_there {ℓ} : {A : Type ℓ} → Option A → Bool
is_there none = false
is_there (some a) = true

abbrev pub objects : List (ℕ × List (String × ℕ))
objects =
    (0, ("protocol_stack", 1) ∷ [])
    ∷ (1, ("name", 2) ∷ ("version", 3) ∷ ("transport_layer", 4) ∷ ("application_layer", 5) ∷ [])
    ∷ (4, ("connections", 6) ∷ [])
    ∷ (5, ("remote_station_addr", 9) ∷ ("gi_schedule", 10) ∷ [])
    ∷ (7, ("srv_ip", 8) ∷ [])
    ∷ (20, ("exchanged_data", 21) ∷ [])
    ∷ (21, ("name", 2) ∷ ("version", 3) ∷ ("datapoints", 22) ∷ [])
    ∷ (23, ("label", 24) ∷ ("pivot_id", 2) ∷ ("pivot_type", 2) ∷ ("protocols", 25) ∷ [])
    ∷ (26, ("name", 27) ∷ ("address", 28) ∷ ("typeid", 29) ∷ [])
    ∷ (33, ("label", 34) ∷ ("pivot_id", 2) ∷ ("pivot_type", 2) ∷ ("protocols", 35) ∷ [])
    ∷ (36, ("name", 27) ∷ ("address", 38) ∷ ("typeid", 39) ∷ [])
    ∷ []

abbrev pub arrays : List (ℕ × List ℕ)
arrays = (6, 7 ∷ []) ∷ (22, 23 ∷ 33 ∷ []) ∷ (25, 26 ∷ []) ∷ (35, 36 ∷ []) ∷ []

abbrev pub texts : List (ℕ × String)
texts =
    (2, "hnz")
    ∷ (3, "1.0")
    ∷ (8, "192.168.0.10")
    ∷ (10, "13:30")
    ∷ (24, "TS1")
    ∷ (27, "hnzip")
    ∷ (28, "511")
    ∷ (29, "TS")
    ∷ (34, "TM1")
    ∷ (38, "20")
    ∷ (39, "TM")
    ∷ []

-- A station with one TS and one TM: the text "protocol" is node 0 and "data" is node 20.
abbrev pub json : Json ℕ
json = record {
  parse = λ s. text_of s (("protocol", 0) ∷ ("data", 20) ∷ []);
  member = λ n key. field key (node n objects);
  is_object = λ n. is_there (node n objects);
  as_array = λ n. node n arrays;
  as_string = λ n. node n texts;
  as_uint = λ n. node n ((9, 12) ∷ []);
  as_int64 = λ n. none;
  as_bool = λ n. none;
}

-- The numbers that these documents hold.
abbrev pub conversions : Conversions
conversions = record {
  stoul = λ base s. text_of s (("511", 511) ∷ ("20", 20) ∷ ("13", 0x13) ∷ ("04", 4) ∷ []);
  stoi = λ s. text_of s (("13", pos 13) ∷ ("30", pos 30) ∷ []);
}
