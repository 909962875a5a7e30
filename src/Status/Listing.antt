-- ===== src/Status/Listing.antt =====
-- Conditions as a list, which meet what the status code assumes of the API machinery.
use kcp_operator.Prelude.{
  String, ◌≡◌, refl, ap, Option, none, some, List, [], ◌∷◌, ◌==◌, eq_iff, arith, if◌then◌else◌,
}
use kcp_operator.Status.{Condition, ConditionLibrary, IsFaithful, settled}

abbrev pub first_of : List Condition → String → Option Condition
first_of [] t = none
first_of (c ∷ cs) t = if c.type_name == t then some c else first_of cs t

abbrev put : String → List Condition → Condition → List Condition
put now [] c = settled now none c ∷ []
put now (x ∷ cs) c =
    let rest = put now cs c in
    if x.type_name == c.type_name then settled now (some x) c ∷ cs else x ∷ rest

abbrev pub condition_list : ConditionLibrary
condition_list = record { now = "12:00"; find = first_of; set = put "12:00" }

settled-type :
    (now : String) (o : Option Condition) (c : Condition)
    → (settled now o c).type_name ≡ c.type_name
settled-type now none c = ground arith
settled-type now (some old) c = ground arith

first_of-settled :
    (o : Option Condition) (c : Condition) (t : String) (cs : List Condition)
    → first_of (settled "12:00" o c ∷ cs) t
      ≡ (if c.type_name == t then some (settled "12:00" o c) else first_of cs t)
first_of-settled o c t cs =
    ap (λ (n : String). if n == t then some (settled "12:00" o c) else first_of cs t)
      (settled-type "12:00" o c)

first_of-put :
    (cs : List Condition) (c : Condition) (t : String)
    → first_of (put "12:00" cs c) t ≡ (
        if c.type_name == t
        then some (settled "12:00" (first_of cs c.type_name) c)
        else first_of cs t)
first_of-put [] c t = first_of-settled none c t []
first_of-put (x ∷ cs) c t = ground (
  arith,
  first_of-settled (some x) c t cs,
  first_of-put cs c t,
  eq_iff x.type_name c.type_name,
  eq_iff x.type_name t,
  eq_iff c.type_name t,
)

first_of-type :
    (cs : List Condition) (t : String) (c : Condition) → first_of cs t ≡ some c → c.type_name ≡ t
first_of-type [] t c e = cc e
first_of-type (x ∷ cs) t c e = ground (arith, e, eq_iff x.type_name t, first_of-type cs t c)

pub condition_list-IsFaithful : IsFaithful condition_list
condition_list-IsFaithful = record {
  find-nil = λ t. refl;
  find-type = first_of-type;
  find-set = first_of-put;
}
