-- ===== src/Compile.antt =====
-- How the config controllers resolve an object, and what it references, into the compiled object that
-- its workload is rendered from: compiled.go of internal/resources/shard, rootshard, frontproxy,
-- virtualworkspace and cacheserver.
pub mod Agreement
use kcp_operator.Prelude.{String, ◌<>◌, Option, none, some, List, [], ◌∷◌, map}
use kcp_operator.Prelude.Maps.{Map, insert, copy}
use kcp_operator.Api.Objects.{
  RootShard, Shard, CacheServer, VirtualWorkspace, FrontProxy, NamedRootShardSpec, NamedShardSpec,
  NamedVirtualWorkspaceSpec, CompiledRootShard, CompiledShard, CompiledCacheServer,
  CompiledVirtualWorkspace, CompiledFrontProxy,
}

-- MutateKeys of pkg/controller/util/util.go.
unfoldable pub mutate_keys : Map String → String → String → Map String
mutate_keys [] prefix suffix = []
mutate_keys ((k, v) ∷ m) prefix suffix = (prefix <> k <> suffix, v) ∷ mutate_keys m prefix suffix

-- Certificate revisions ride along, under the operator's prefix.
abbrev pub with_revisions : Map String → Map String → Map String
with_revisions annotations revisions =
    copy annotations (mutate_keys revisions "operator.kcp.io/" "")

-- ShardNames of internal/resources/utils/deployments.go
abbrev pub shard_names : List Shard → List String
shard_names = map (λ s. s.name)

abbrev pub named_root_shard : RootShard → NamedRootShardSpec
named_root_shard r = record { name = r.name; spec = r.spec }

abbrev pub named_shard : Option Shard → Option NamedShardSpec
named_shard none = none
named_shard (some s) = some (record { name = s.name; spec = s.spec })

abbrev pub named_virtual_workspace : Option VirtualWorkspace → Option NamedVirtualWorkspaceSpec
named_virtual_workspace none = none
named_virtual_workspace (some vw) = some (record { name = vw.name; spec = vw.spec })

unfoldable pub compiled_shard_reconciler :
    Shard → RootShard → Option VirtualWorkspace → List Shard → Map String → CompiledShard
compiled_shard_reconciler shard root_shard kcp_vw shards revisions = record {
  name = shard.name;
  namespace = shard.namespace;
  labels =
      insert "operator.kcp.io/rootshard" root_shard.name
        (insert "operator.kcp.io/shard" shard.name shard.labels);
  annotations = with_revisions shard.annotations revisions;
  spec = record {
    shard = shard.spec;
    root_shard = named_root_shard root_shard;
    virtual_workspace = named_virtual_workspace kcp_vw;
    shards = shard_names shards;
  };
}

unfoldable pub compiled_root_shard_reconciler :
    RootShard → Option VirtualWorkspace → List Shard → Map String → CompiledRootShard
compiled_root_shard_reconciler root_shard kcp_vw shards revisions = record {
  name = root_shard.name;
  namespace = root_shard.namespace;
  labels = insert "operator.kcp.io/rootshard" root_shard.name root_shard.labels;
  annotations = with_revisions root_shard.annotations revisions;
  spec = record {
    root_shard = root_shard.spec;
    virtual_workspace = named_virtual_workspace kcp_vw;
    shards = shard_names shards;
  };
}

unfoldable pub compiled_front_proxy_reconciler :
    FrontProxy → RootShard → List Shard → Map String → CompiledFrontProxy
compiled_front_proxy_reconciler front_proxy root_shard shards revisions = record {
  name = front_proxy.name;
  namespace = front_proxy.namespace;
  labels =
      insert "operator.kcp.io/rootshard" root_shard.name
        (insert "operator.kcp.io/front-proxy" front_proxy.name front_proxy.labels);
  annotations = with_revisions front_proxy.annotations revisions;
  spec = record {
    front_proxy = front_proxy.spec;
    root_shard = named_root_shard root_shard;
    shards = shard_names shards;
  };
}

unfoldable pub compiled_virtual_workspace_reconciler :
    VirtualWorkspace → RootShard → Option Shard → Map String → CompiledVirtualWorkspace
compiled_virtual_workspace_reconciler vw root_shard shard revisions = record {
  name = vw.name;
  namespace = vw.namespace;
  labels =
      insert "operator.kcp.io/rootshard" root_shard.name
        (insert "operator.kcp.io/virtual-workspace" vw.name vw.labels);
  annotations = with_revisions vw.annotations revisions;
  spec = record {
    virtual_workspace = vw.spec;
    root_shard = named_root_shard root_shard;
    shard = named_shard shard;
  };
}

unfoldable pub compiled_cache_server_reconciler : CacheServer → Map String → CompiledCacheServer
compiled_cache_server_reconciler server revisions = record {
  name = server.name;
  namespace = server.namespace;
  labels = insert "operator.kcp.io/cache-server" server.name server.labels;
  annotations = with_revisions server.annotations revisions;
  spec = record { cache_server = server.spec };
}
