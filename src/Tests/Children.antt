-- ===== src/Tests/Children.antt =====
-- The children of a concrete root shard.
use kcp_operator.Prelude.{◌≡◌, refl, ◌↔◌, inl, inr, none, List, [], ◌∷◌}
use kcp_operator.Api.Objects.{Shard}
use kcp_operator.Render.Pods.{done, panic}
use kcp_operator.Children.{In, get_root_shard_children, nil_dereference}
use kcp_operator.Children.Members.{
  RefersTo, HasReference, get_root_shard_children-In, get_root_shard_children-panics,
}
use kcp_operator.Tests.Samples.{shard, root_shard}

abbrev shards : List Shard
shards = shard "beta" ∷ shard "alpha" ∷ []

-- The children are sorted by their names.
sorted :
    get_root_shard_children (inl shards) (root_shard "root")
    ≡ done (shard "alpha" ∷ shard "beta" ∷ [], [])
unfolding get_root_shard_children
sorted = refl

referenced : (x : Shard) → In x shards → HasReference x
referenced x (inl e) = ("root", cc e)
referenced x (inr (inl e)) = ("root", cc e)
referenced x (inr (inr i)) = elim i [ ]

get_root_shard_children-In_example :
    (children : List Shard) × (get_root_shard_children (inl shards) (root_shard "root")
      ≡ done (children, []))
    × ((x : Shard) → In x children ↔ (In x shards × RefersTo "root" x))
get_root_shard_children-In_example =
    get_root_shard_children-In shards (root_shard "root") referenced

abbrev orphan : Shard
orphan = record (shard "orphan") { spec = record (shard "orphan").spec { root_shard = none } }

get_root_shard_children-panics_example :
    get_root_shard_children (inl (shard "alpha" ∷ orphan ∷ [])) (root_shard "other")
    ≡ panic nil_dereference
get_root_shard_children-panics_example =
    get_root_shard_children-panics (shard "alpha" ∷ orphan ∷ []) (root_shard "other") orphan
      (inr (inl refl)) refl
