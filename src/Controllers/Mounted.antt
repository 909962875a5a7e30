-- ===== src/Controllers/Mounted.antt =====
-- The Secrets that the Deployment of a shard mounts (internal/resources/compiledshard/deployment.go) and
-- those that the controllers make (pkg/controller/shard, rootshard and cacheserver): both sides compute
-- the names on their own.
use kcp_operator.Prelude.{ℕ, String, ◌≡◌, Option, List, [], ◌⊎◌, All}
use kcp_operator.Prelude.Maps.{Map}
use kcp_operator.Api.Certificates.{ObjectReference}
use kcp_operator.Api.Objects.{Shard, RootShard, VirtualWorkspace, CacheServer, CompiledShard}
use kcp_operator.Compile.{compiled_shard_reconciler}
use kcp_operator.Render.Mounts.{SecretMount}
use kcp_operator.CompiledShard.Paths.{get_effective_cache_ref}
use kcp_operator.Certificates.{CertificateLibrary}
use kcp_operator.Kubeconfigs.{KubeconfigFile}
use kcp_operator.Controllers.Made.{Made}
use kcp_operator.Controllers.Made.Shards.{ShardSucceeds, MadeForShard}
use kcp_operator.Controllers.Made.RootShards as OfRootShards
use kcp_operator.Controllers.Made.RootShards.{RootSucceeds, MadeForRootShard}
use kcp_operator.Controllers.Made.CacheServers as OfCacheServers
use kcp_operator.Controllers.Made.CacheServers.{cache_run}
use kcp_operator.Controllers.{Run, Cluster}
use kcp_operator.Controllers.Shards
use kcp_operator.Controllers.RootShards
use kcp_operator.Controllers.CacheServers

-- The Secrets that the effective cache reference of a shard leads to are those of this cache server.
abbrev pub UsesCache : CompiledShard → CacheServer → Type 0
UsesCache compiled cache =
    (get_effective_cache_ref compiled ≡ "") ⊎ (get_effective_cache_ref compiled ≡ cache.name)

-- One of the three reconciliations makes the Secret.
abbrev pub Provided : Run → Run → Run → String → Type 0
Provided shard_run root_run cache_run n =
    Made n shard_run.requests ⊎ (Made n root_run.requests ⊎ Made n cache_run.requests)

abbrev pub AllProvided : Run → Run → Run → List SecretMount → Type 0
AllProvided shard_run root_run cache_run =
    All (λ m. Provided shard_run root_run cache_run m.secret_name)

module _ (L : CertificateLibrary) (write : KubeconfigFile → List ℕ ⊎ String)
    (Cs Cr Cc : Cluster) where
  module _ (s : Shard) (r : RootShard) (ref : ObjectReference)
      (children root_children : List Shard × List String) (cache : CacheServer)
      (cache_ref : ObjectReference) where
    abbrev AsProvided : String → Type 0
    AsProvided n =
        MadeForShard L write Cs s r children n
        ⊎ (MadeForRootShard L write Cr r ref root_children n
            ⊎ Made n (cache_run L write Cc cache cache_ref).requests)

    abbrev AllAsProvided : List SecretMount → Type 0
    AllAsProvided = All (λ m. AsProvided m.secret_name)

    module _ (vw : Option VirtualWorkspace) (shards : List Shard) (revisions : Map String)
        (shard_ok : ShardSucceeds L write Cs s r children)
        (root_ok : RootSucceeds L write Cr r ref root_children)
        (cache_ok : (cache_run L write Cc cache cache_ref).errors ≡ []) where
      abbrev compiled : CompiledShard
      compiled = compiled_shard_reconciler s r vw shards revisions
