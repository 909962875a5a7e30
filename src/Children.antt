-- ===== src/Children.antt =====
-- FetchRootShard and GetRootShardChildren of pkg/controller/util/util.go: how objects find the root
-- shard that they refer to, and a root shard its shards.
pub mod Members
use Prim.Native.String.{compare}
use Prim.Native.Nat.{Ordering}
use kcp_operator.Prelude.{
  String, ◌<>◌, ◌≡◌, refl, sym, ◌∙◌, ap, ◌⊎◌, ◌↔◌, inl, inr, Bool, true, false, Option, none, some,
  Option-cases, Bool-cases, List, [], ◌∷◌, ◌==◌, eq_iff, arith, if_true, if_false, if◌then◌else◌,
}
use kcp_operator.Api.Objects.{RootShard, Shard}
use kcp_operator.Render.Pods.{Outcome, done, panic, ◌>>=◌}
use kcp_operator.Status.{Condition, Answer, answer, missing, refused, condition_type_root_shard}

abbrev root_shard_condition : String → String → String → Condition
root_shard_condition status reason message = record {
  type_name = condition_type_root_shard;
  status = status;
  observed_generation = 0;
  transition_time = "";
  reason = reason;
  message = message;
}

-- `get` asks the client for a root shard of the namespace, and gives it or the text of an error.
unfoldable pub fetch_root_shard :
    (String → RootShard ⊎ String) → Option String → Condition × Option RootShard
fetch_root_shard get none =
    (root_shard_condition "False" "InvalidReference" "No valid RootShard defined in spec.", none)
fetch_root_shard get (some name) = elim (get name) [
  | inl root_shard ↦
      (root_shard_condition "True" "Valid" "RootShard reference is valid.", some root_shard)
  | inr e ↦ (
    root_shard_condition "False" "InvalidReference" ("Failed to retrieve RootShard: " <> e <> "."),
    none,
  )
]

abbrev pub nil_dereference : String
nil_dereference = "invalid memory address or nil pointer dereference"

-- The loop that filters: the reference of every listed shard is dereferenced.
abbrev pub referring : String → List Shard → Outcome (List Shard)
referring root [] = done []
referring root (s ∷ shards) =
    let rest = referring root shards in
    elim s.spec.root_shard [
      | none ↦ panic nil_dereference
      | some name ↦ (rest >>= (λ found. done (if name == root then s ∷ found else found)))
    ]

abbrev pub comes_before : String → String → Bool
comes_before a b = elim (compare a b) [ Ordering.gt ↦ false | _ ↦ true ]

abbrev pub insert_by_name : Shard → List Shard → List Shard
insert_by_name s [] = s ∷ []
insert_by_name s (t ∷ shards) =
    let rest = insert_by_name s shards in
    if comes_before s.name t.name then s ∷ t ∷ shards else t ∷ rest

abbrev pub sort_by_name : List Shard → List Shard
sort_by_name [] = []
sort_by_name (s ∷ shards) = insert_by_name s (sort_by_name shards)

-- What the client lists in the namespace of the root shard, or the text of an error: then the result is
-- empty, and the error is returned with it.
unfoldable pub get_root_shard_children :
    List Shard ⊎ String → RootShard → Outcome (List Shard × List String)
get_root_shard_children (inl shards) root_shard =
    referring root_shard.name shards >>= (λ found. done (sort_by_name found, []))
get_root_shard_children (inr e) root_shard = done ([], e ∷ [])

abbrev pub In : Shard → List Shard → Type 0
In s [] = ⊥
In s (x ∷ xs) = (s ≡ x) ⊎ In s xs
