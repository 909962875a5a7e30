-- ===== src/Names/Workloads.antt =====
-- The names of Deployments and Services (internal/resources/resources.go).
use kcp_operator.Prelude.{String, ◌<>◌}
use kcp_operator.Api.Objects.{
  RootShard, Shard, CacheServer, VirtualWorkspace, FrontProxy, NamedRootShardSpec, NamedShardSpec,
  NamedVirtualWorkspaceSpec, CompiledRootShard, CompiledShard, CompiledCacheServer,
  CompiledVirtualWorkspace, CompiledFrontProxy,
}

unfoldable pub get_root_shard_deployment_name : RootShard → String
get_root_shard_deployment_name r = r.name <> "-kcp"

unfoldable pub get_compiled_root_shard_deployment_name : CompiledRootShard → String
get_compiled_root_shard_deployment_name r = r.name <> "-kcp"

unfoldable pub get_named_root_shard_deployment_name : NamedRootShardSpec → String
get_named_root_shard_deployment_name r = r.name <> "-kcp"

unfoldable pub get_root_shard_proxy_deployment_name : RootShard → String
get_root_shard_proxy_deployment_name r = r.name <> "-proxy"

unfoldable pub get_compiled_root_shard_proxy_deployment_name : CompiledRootShard → String
get_compiled_root_shard_proxy_deployment_name r = r.name <> "-proxy"

unfoldable pub get_named_root_shard_proxy_deployment_name : NamedRootShardSpec → String
get_named_root_shard_proxy_deployment_name r = r.name <> "-proxy"

unfoldable pub get_shard_deployment_name : Shard → String
get_shard_deployment_name s = s.name <> "-shard-kcp"

unfoldable pub get_compiled_shard_deployment_name : CompiledShard → String
get_compiled_shard_deployment_name s = s.name <> "-shard-kcp"

unfoldable pub get_named_shard_deployment_name : NamedShardSpec → String
get_named_shard_deployment_name s = s.name <> "-shard-kcp"

unfoldable pub get_cache_server_deployment_name : CacheServer → String
get_cache_server_deployment_name s = s.name <> "-cache-server"

unfoldable pub get_compiled_cache_server_deployment_name : CompiledCacheServer → String
get_compiled_cache_server_deployment_name s = s.name <> "-cache-server"

unfoldable pub get_virtual_workspace_deployment_name : VirtualWorkspace → String
get_virtual_workspace_deployment_name vw = vw.name <> "-virtual-workspace"

unfoldable pub get_compiled_virtual_workspace_deployment_name : CompiledVirtualWorkspace → String
get_compiled_virtual_workspace_deployment_name vw = vw.name <> "-virtual-workspace"

unfoldable pub get_named_virtual_workspace_deployment_name : NamedVirtualWorkspaceSpec → String
get_named_virtual_workspace_deployment_name vw = vw.name <> "-virtual-workspace"

unfoldable pub get_root_shard_service_name : RootShard → String
get_root_shard_service_name r = r.name <> "-kcp"

unfoldable pub get_compiled_root_shard_service_name : CompiledRootShard → String
get_compiled_root_shard_service_name r = r.name <> "-kcp"

unfoldable pub get_named_root_shard_service_name : NamedRootShardSpec → String
get_named_root_shard_service_name r = r.name <> "-kcp"

unfoldable pub get_shard_service_name : Shard → String
get_shard_service_name s = s.name <> "-shard-kcp"

unfoldable pub get_compiled_shard_service_name : CompiledShard → String
get_compiled_shard_service_name s = s.name <> "-shard-kcp"

unfoldable pub get_named_shard_service_name : NamedShardSpec → String
get_named_shard_service_name s = s.name <> "-shard-kcp"

unfoldable pub get_cache_server_service_name : CacheServer → String
get_cache_server_service_name s = s.name <> "-cache-server"

unfoldable pub get_compiled_cache_server_service_name : CompiledCacheServer → String
get_compiled_cache_server_service_name s = s.name <> "-cache-server"

unfoldable pub get_compiled_virtual_workspace_service_name : CompiledVirtualWorkspace → String
get_compiled_virtual_workspace_service_name vw = vw.name <> "-virtual-workspace"

unfoldable pub get_front_proxy_deployment_name : FrontProxy → String
get_front_proxy_deployment_name f = f.name <> "-front-proxy"

unfoldable pub get_compiled_front_proxy_deployment_name : CompiledFrontProxy → String
get_compiled_front_proxy_deployment_name f = f.name <> "-front-proxy"

unfoldable pub get_front_proxy_service_name : FrontProxy → String
get_front_proxy_service_name f = f.name <> "-front-proxy"

unfoldable pub get_compiled_front_proxy_service_name : CompiledFrontProxy → String
get_compiled_front_proxy_service_name f = f.name <> "-front-proxy"

unfoldable pub get_root_shard_proxy_service_name : RootShard → String
get_root_shard_proxy_service_name r = r.name <> "-proxy"

unfoldable pub get_compiled_root_shard_proxy_service_name : CompiledRootShard → String
get_compiled_root_shard_proxy_service_name r = r.name <> "-proxy"

unfoldable pub get_named_root_shard_proxy_service_name : NamedRootShardSpec → String
get_named_root_shard_proxy_service_name r = r.name <> "-proxy"
