-- ===== src/Status/Phases.antt =====
-- reconcileStatus of pkg/controller/shard, rootshard and frontproxy: the conditions and the phase that
-- it arrives at.
use kcp_operator.Prelude.{ℕ, String, ◌<>◌, Bool, List, [], ◌∷◌, ◌++◌, ◌==◌, if◌then◌else◌}
use kcp_operator.Status.{
  Condition, ConditionLibrary, Answer, answer, missing, refused, condition_type_available,
  get_compiled_available_condition, update_conditions, is_available,
}

pub record ObjectStatus : Type 0 where
  pub phase : String
  pub conditions : List Condition

abbrev pub shard_phase : Bool → Bool → String → String
shard_phase available deleting phase =
    if available
    then "Running"
    else (if deleting then "Deleting" else (if phase == "" then "Provisioning" else phase))

abbrev pub proxy_phase : Bool → Bool → String
proxy_phase available deleting =
    if deleting then "Deleting" else (if available then "Running" else "Provisioning")

module _ (L : ConditionLibrary) where
  -- The conditions with the one of the compiled object behind them, if it or its absence is known.
  unfoldable pub with_compiled : String → Answer (List Condition) → List Condition → List Condition
  unfolding get_compiled_available_condition
  with_compiled name (answer cs) conditions =
      conditions ++ (get_compiled_available_condition L cs name ∷ [])
  with_compiled name missing conditions =
      conditions ++ (get_compiled_available_condition L [] name ∷ [])
  with_compiled name (refused e) conditions = conditions

  -- The status that reconcileStatus of the shard controller arrives at.
  unfoldable pub shard_status :
      String
      → ℕ
      → Bool
      → String
      → Answer (List Condition)
      → ObjectStatus
      → List Condition
      → ObjectStatus
  unfolding update_conditions with_compiled
  shard_status now generation deleting name compiled old conditions =
      let cs =
        update_conditions L now generation old.conditions
          (with_compiled ("CompiledShard " <> name) compiled conditions) in
      record {
        phase = shard_phase (is_available (L.find cs condition_type_available)) deleting old.phase;
        conditions = cs;
      }

  -- The same for root shards and front-proxies; `kind` is what the compiled object is called.
  unfoldable pub proxy_status :
      String
      → ℕ
      → Bool
      → String
      → Answer (List Condition)
      → ObjectStatus
      → List Condition
      → ObjectStatus
  unfolding update_conditions with_compiled
  proxy_status now generation deleting kind compiled old conditions =
      let cs =
        update_conditions L now generation old.conditions
          (with_compiled kind compiled conditions) in
      record {
        phase = proxy_phase (is_available (L.find cs condition_type_available)) deleting;
        conditions = cs;
      }
