-- ===== src/Tests/Status.antt =====
-- The status of a shard that is being deleted.
use kcp_operator.Prelude.{◌≡◌, refl, true, false, [], ◌∷◌}
use kcp_operator.Status.{Condition, available_condition, answer, update_conditions}
use kcp_operator.Status.Phases.{ObjectStatus, shard_status, proxy_status}
use kcp_operator.Status.Listing.{condition_list, condition_list-IsFaithful, first_of}
use kcp_operator.Status.PhaseRules.{ShardPhase, ProxyPhase}
use kcp_operator.Status.Reported.{
  says, latest, says-update_conditions, phases_follow, deleted_shard_runs,
}

abbrev up : Condition
up = available_condition "True" "ReplicasUp" "up"

abbrev invalid : Condition
invalid = record up { type_name = "RootShard"; status = "False" }

abbrev before : ObjectStatus
before = record { phase = "Provisioning"; conditions = record up { status = "False" } ∷ [] }

says-update_conditions_example :
    says (
      first_of
        (update_conditions condition_list "13:00" 4 before.conditions (invalid ∷ up ∷ []))
        "Available")
    ≡ latest 4 "Available" (invalid ∷ up ∷ []) (says (first_of before.conditions "Available"))
says-update_conditions_example =
    says-update_conditions condition_list condition_list-IsFaithful "13:00" 4 before.conditions
      (invalid ∷ up ∷ []) "Available"

phases_follow_example :
    ShardPhase false true "Provisioning"
      (shard_status condition_list "13:00" 4 true "alpha"
        (answer (record up { status = "False" } ∷ []))
        before
        (invalid ∷ [])).phase
    × ProxyPhase false true
        (proxy_status condition_list "13:00" 4 true "CompiledRootShard root"
          (answer (record up { status = "False" } ∷ []))
          before
          (invalid ∷ [])).phase
phases_follow_example =
    phases_follow condition_list condition_list-IsFaithful "13:00" 4 true "alpha"
      "CompiledRootShard root" (record up { status = "False" } ∷ []) (invalid ∷ []) before

deleted_shard_runs_example :
    ((shard_status condition_list "13:00" 4 true "alpha"
        (answer (up ∷ []))
        before
        (invalid ∷ [])).phase
      ≡ "Running")
    × ((proxy_status condition_list "13:00" 4 true "CompiledRootShard root"
          (answer (up ∷ []))
          before
          (invalid ∷ [])).phase
        ≡ "Deleting")
deleted_shard_runs_example =
    deleted_shard_runs condition_list condition_list-IsFaithful "13:00" 4 "alpha"
      "CompiledRootShard root" (up ∷ []) (invalid ∷ []) before refl
