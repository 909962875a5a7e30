-- ===== src/Names/Labels.antt =====
-- The labels of the objects that belong to a component (internal/resources/resources.go).
use kcp_operator.Prelude.{String}
use kcp_operator.Prelude.Maps.{Map}
use kcp_operator.Api.Objects.{
  RootShard, Shard, CacheServer, VirtualWorkspace, FrontProxy, NamedRootShardSpec, NamedShardSpec,
  NamedVirtualWorkspaceSpec, CompiledRootShard, CompiledShard, CompiledCacheServer,
  CompiledVirtualWorkspace, CompiledFrontProxy,
}
use kcp_operator.Names.Defaults.{get_resource_labels}

unfoldable pub get_root_shard_resource_labels : RootShard → Map String
unfolding get_resource_labels
get_root_shard_resource_labels r = get_resource_labels r.name "rootshard"

unfoldable pub get_compiled_root_shard_resource_labels : CompiledRootShard → Map String
unfolding get_resource_labels
get_compiled_root_shard_resource_labels r = get_resource_labels r.name "rootshard"

unfoldable pub get_named_root_shard_resource_labels : NamedRootShardSpec → Map String
unfolding get_resource_labels
get_named_root_shard_resource_labels r = get_resource_labels r.name "rootshard"

unfoldable pub get_root_shard_proxy_resource_labels : RootShard → Map String
unfolding get_resource_labels
get_root_shard_proxy_resource_labels r = get_resource_labels r.name "rootshard-proxy"

unfoldable pub get_compiled_root_shard_proxy_resource_labels : CompiledRootShard → Map String
unfolding get_resource_labels
get_compiled_root_shard_proxy_resource_labels r = get_resource_labels r.name "rootshard-proxy"

unfoldable pub get_named_root_shard_proxy_resource_labels : NamedRootShardSpec → Map String
unfolding get_resource_labels
get_named_root_shard_proxy_resource_labels r = get_resource_labels r.name "rootshard-proxy"

unfoldable pub get_shard_resource_labels : Shard → Map String
unfolding get_resource_labels
get_shard_resource_labels s = get_resource_labels s.name "shard"

unfoldable pub get_compiled_shard_resource_labels : CompiledShard → Map String
unfolding get_resource_labels
get_compiled_shard_resource_labels s = get_resource_labels s.name "shard"

unfoldable pub get_named_shard_resource_labels : NamedShardSpec → Map String
unfolding get_resource_labels
get_named_shard_resource_labels s = get_resource_labels s.name "shard"

unfoldable pub get_cache_server_resource_labels : CacheServer → Map String
unfolding get_resource_labels
get_cache_server_resource_labels s = get_resource_labels s.name "cache-server"

unfoldable pub get_compiled_cache_server_resource_labels : CompiledCacheServer → Map String
unfolding get_resource_labels
get_compiled_cache_server_resource_labels s = get_resource_labels s.name "cache-server"

unfoldable pub get_virtual_workspace_resource_labels : VirtualWorkspace → Map String
unfolding get_resource_labels
get_virtual_workspace_resource_labels vw = get_resource_labels vw.name "virtual-workspace"

unfoldable pub get_compiled_virtual_workspace_resource_labels :
    CompiledVirtualWorkspace → Map String
unfolding get_resource_labels
get_compiled_virtual_workspace_resource_labels vw = get_resource_labels vw.name "virtual-workspace"

unfoldable pub get_named_virtual_workspace_resource_labels : NamedVirtualWorkspaceSpec → Map String
unfolding get_resource_labels
get_named_virtual_workspace_resource_labels vw = get_resource_labels vw.name "virtual-workspace"

unfoldable pub get_front_proxy_resource_labels : FrontProxy → Map String
unfolding get_resource_labels
get_front_proxy_resource_labels f = get_resource_labels f.name "front-proxy"

unfoldable pub get_compiled_front_proxy_resource_labels : CompiledFrontProxy → Map String
unfolding get_resource_labels
get_compiled_front_proxy_resource_labels f = get_resource_labels f.name "front-proxy"
