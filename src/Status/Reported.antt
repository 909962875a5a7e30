-- ===== src/Status/Reported.antt =====
-- What the status reports after it was updated.
use kcp_operator.Prelude.{
  ℕ, ◌<>◌, String, ◌≡◌, refl, sym, ◌∙◌, ap, subst, inl, inr, Bool, true, false, not, ◌||◌, Option,
  none, some, Bool-cases, List, [], ◌∷◌, ◌++◌, ◌==◌, eqb, eq_iff, arith, if_true, if_false,
  if◌then◌else◌,
}
use kcp_operator.Status.{
  Condition, ConditionLibrary, IsFaithful, settled, changed, update_condition, update_conditions,
  condition_type_available, is_available, copied_condition, get_compiled_available_condition,
  answer,
}
use kcp_operator.Status.PhaseRules.{
  ShardPhase, ProxyPhase, shard_phase-ShardPhase, proxy_phase-ProxyPhase,
}
use kcp_operator.Status.Phases.{
  with_compiled, ObjectStatus, shard_status, proxy_status, shard_phase, proxy_phase,
}

-- What a status says of a condition: its status, and for which generation of the object.
abbrev pub says : Option Condition → Option (String × ℕ)
says none = none
says (some c) = some (c.status, c.observed_generation)

-- The last condition of a type in a list, or what was there before.
abbrev pub latest : ℕ → String → List Condition → Option (String × ℕ) → Option (String × ℕ)
latest generation t [] before = before
latest generation t (c ∷ cs) before =
    latest generation t cs (if c.type_name == t then some (c.status, generation) else before)

says-if :
    (b : Bool) (c : Condition) (o : Option Condition) (p : String × ℕ)
    → says (some c) ≡ some p
    → says (if b then some c else o) ≡ (if b then some p else says o)
says-if true c o p e = e
says-if false c o p e = refl

-- A condition that is not worth an update says what the new one does.
says-same :
    (old c : Condition)
    → (not (eqb old.observed_generation c.observed_generation) || not (old.status == c.status))
      ≡ false
    → says (some old) ≡ some (c.status, c.observed_generation)
says-same old c e = ground (arith, e, eq_iff old.status c.status)

if_equal : {A : Type 0} (b : Bool) (x y : A) → (b ≡ true → y ≡ x) → y ≡ (if b then x else y)
if_equal true x y h = h refl
if_equal false x y h = refl

module _ (L : ConditionLibrary) (F : IsFaithful L) where
  settled-says :
      (now : String) (o : Option Condition) (c : Condition)
      → says (some (settled now o c)) ≡ some (c.status, c.observed_generation)
  settled-says now none c = ground arith
  settled-says now (some old) c = ground arith

  says-set :
      (cs : List Condition) (c : Condition) (t : String)
      → says (L.find (L.set cs c) t)
        ≡ (if c.type_name == t then some (c.status, c.observed_generation) else says (L.find cs t))
  says-set cs c t =
      ap says (F.find-set cs c t)
      ∙ says-if (c.type_name == t) (settled L.now (L.find cs c.type_name) c) (L.find cs t)
          (c.status, c.observed_generation) (settled-says L.now (L.find cs c.type_name) c)

  says-changed :
      (now : String) (cs : List Condition) (c : Condition) (t : String) (o : Option Condition)
      → L.find cs c.type_name ≡ o
      → says (L.find (changed L now cs c o) t)
        ≡ (if c.type_name == t then some (c.status, c.observed_generation) else says (L.find cs t))
  says-changed now cs c t none e = says-set cs (record c { transition_time = now }) t
  says-changed now cs c t (some old) e =
      let changes =
        not (eqb old.observed_generation c.observed_generation) || not (old.status == c.status) in
      let time = if old.status == c.status then old.transition_time else now in
      let updated = L.set cs (record c { transition_time = time }) in
      elim (Bool-cases changes) [
        | inl w ↦
            ap (λ (x : List Condition). says (L.find x t)) (if_true changes updated cs w)
            ∙ says-set cs (record c { transition_time = time }) t
        | inr w ↦
            ap (λ (x : List Condition). says (L.find x t)) (if_false changes updated cs w)
            ∙ if_equal (c.type_name == t) (some (c.status, c.observed_generation))
                (says (L.find cs t))
                (λ same.
                  ap (λ (x : String). says (L.find cs x)) (sym ((eq_iff c.type_name t).0 same))
                  ∙ ap says e
                  ∙ says-same old c w)
      ]

  -- After the loop over the new conditions, the status of each type and the generation that it is for
  -- are those of the last new condition of the type, and what they were where there is none.
  pub says-update_conditions :
      (now : String) (generation : ℕ) (cs new : List Condition) (t : String)
      → says (L.find (update_conditions L now generation cs new) t)
        ≡ latest generation t new (says (L.find cs t))
  unfolding update_conditions update_condition
  says-update_conditions now generation cs [] t = refl
  says-update_conditions now generation cs (c ∷ new) t =
      says-update_conditions now generation
        (update_condition L now cs (record c { observed_generation = generation })) new t
      ∙ ap (latest generation t new) (
          says-changed now cs (record c { observed_generation = generation }) t
            (L.find cs c.type_name) refl)

  latest-last :
      (generation : ℕ) (t : String) (cs : List Condition) (c : Condition)
      (before : Option (String × ℕ))
      → c.type_name ≡ t
      → latest generation t (cs ++ (c ∷ [])) before ≡ some (c.status, generation)
  latest-last generation t [] c before e =
      if_true (c.type_name == t) (some (c.status, generation)) before ((eq_iff c.type_name t).1 e)
  latest-last generation t (x ∷ cs) c before e =
      latest-last generation t cs c
        (if x.type_name == t then some (x.status, generation) else before) e

  abbrev says_true : Option (String × ℕ) → Bool
  says_true none = false
  says_true (some p) = p.0 == "True"

  is_available-says : (o : Option Condition) → is_available o ≡ says_true (says o)
  is_available-says none = refl
  is_available-says (some c) = refl

  compiled-type :
      (cs : List Condition) (name : String) (o : Option Condition)
      → L.find cs condition_type_available ≡ o
      → ((copied_condition name o).type_name ≡ condition_type_available)
        × (((copied_condition name o).status == "True") ≡ is_available o)
  compiled-type cs name none e = (refl, refl)
  compiled-type cs name (some c) e = (F.find-type cs condition_type_available c e, refl)

  -- After the update the object is available exactly if the last condition says so.
  available-last :
      (now : String) (generation : ℕ) (old conditions : List Condition) (c : Condition)
      → c.type_name ≡ condition_type_available
      → is_available (
          L.find
            (update_conditions L now generation old (conditions ++ (c ∷ [])))
            condition_type_available)
        ≡ (c.status == "True")
  available-last now generation old conditions c e =
      is_available-says (
        L.find (update_conditions L now generation old (conditions ++ (c ∷ [])))
          condition_type_available)
      ∙ ap says_true (
          says-update_conditions now generation old (conditions ++ (c ∷ []))
            condition_type_available
          ∙ latest-last generation condition_type_available conditions c
              (says (L.find old condition_type_available)) e)

  compiled-available :
      (now : String) (generation : ℕ) (old conditions compiled : List Condition) (name : String)
      → is_available (
          L.find
            (update_conditions L now generation old
              (conditions ++ (get_compiled_available_condition L compiled name ∷ [])))
            condition_type_available)
        ≡ is_available (L.find compiled condition_type_available)
  unfolding get_compiled_available_condition
  compiled-available now generation old conditions compiled name =
      let facts = compiled-type compiled name (L.find compiled condition_type_available) refl in
      available-last now generation old conditions
        (copied_condition name (L.find compiled condition_type_available)) facts.0
      ∙ facts.1

  phases_computed :
      (now : String) (generation : ℕ) (deleting : Bool) (name kind : String)
      (compiled conditions : List Condition) (old : ObjectStatus)
      → let available = is_available (L.find compiled condition_type_available) in
        ((shard_status L now generation deleting name (answer compiled) old conditions).phase
          ≡ shard_phase available deleting old.phase)
        × ((proxy_status L now generation deleting kind (answer compiled) old conditions).phase
            ≡ proxy_phase available deleting)
  unfolding shard_status proxy_status with_compiled
  phases_computed now generation deleting name kind compiled conditions old = (
    ap (λ (b : Bool). shard_phase b deleting old.phase)
        (compiled-available now generation old.conditions conditions compiled
          ("CompiledShard " <> name)),
    ap (λ (b : Bool). proxy_phase b deleting)
        (compiled-available now generation old.conditions conditions compiled kind),
  )

  -- Whatever conditions are stored and whatever else is reported, when the compiled object could be read
  -- and is or is not available by its own condition: the phase of a shard is Running if it is, and else
  -- Deleting, if the shard is being deleted, or else the phase it had, or Provisioning in place of the
  -- empty one; the phase of a root shard or front-proxy is Deleting if it is being deleted, and
  -- else Running if the compiled object is available and Provisioning if not.
  pub phases_follow :
      (now : String) (generation : ℕ) (deleting : Bool) (name kind : String)
      (compiled conditions : List Condition) (old : ObjectStatus)
      → let available = is_available (L.find compiled condition_type_available) in
        ShardPhase available deleting old.phase
          (shard_status L now generation deleting name (answer compiled) old conditions).phase
        × ProxyPhase available deleting
            (proxy_status L now generation deleting kind (answer compiled) old conditions).phase
  phases_follow now generation deleting name kind compiled conditions old =
      let available = is_available (L.find compiled condition_type_available) in
      let (s, p) = phases_computed now generation deleting name kind compiled conditions old in
      (
        subst (ShardPhase available deleting old.phase) (sym s)
            (shard_phase-ShardPhase available deleting old.phase),
        subst (ProxyPhase available deleting) (sym p) (proxy_phase-ProxyPhase available deleting),
      )

  -- While a compiled shard is available, a shard that is being deleted is in the phase Running, where a
  -- root shard or front-proxy is in the phase Deleting.
  pub deleted_shard_runs :
      (now : String) (generation : ℕ) (name kind : String) (compiled conditions : List Condition)
      (old : ObjectStatus)
      → is_available (L.find compiled condition_type_available) ≡ true
      → ((shard_status L now generation true name (answer compiled) old conditions).phase
          ≡ "Running")
        × ((proxy_status L now generation true kind (answer compiled) old conditions).phase
            ≡ "Deleting")
  deleted_shard_runs now generation name kind compiled conditions old a =
      let (s, p) = phases_computed now generation true name kind compiled conditions old in
      (s ∙ ap (λ (b : Bool). shard_phase b true old.phase) a, p)
