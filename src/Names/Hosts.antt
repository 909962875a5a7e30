-- ===== src/Names/Hosts.antt =====
-- The in-cluster host and base URL of each component (internal/resources/resources.go).
use kcp_operator.Prelude.{String, ◌<>◌, ◌==◌, if◌then◌else◌}
use kcp_operator.Api.Objects.{
  RootShard, Shard, CacheServer, VirtualWorkspace, NamedRootShardSpec, NamedShardSpec,
  NamedVirtualWorkspaceSpec, CompiledRootShard, CompiledShard, CompiledCacheServer,
  CompiledVirtualWorkspace,
}
use kcp_operator.Names.Defaults.{cluster_domain_or_default}

unfoldable pub get_root_shard_base_host : RootShard → String
get_root_shard_base_host r =
    r.name <> "-kcp." <> r.namespace <> ".svc." <> (cluster_domain_or_default r.spec.cluster_domain)

unfoldable pub get_root_shard_proxy_base_host : RootShard → String
get_root_shard_proxy_base_host r =
    r.name
    <> "-proxy."
    <> r.namespace
    <> ".svc."
    <> (cluster_domain_or_default r.spec.cluster_domain)

unfoldable pub get_compiled_root_shard_base_host : CompiledRootShard → String
get_compiled_root_shard_base_host r =
    r.name
    <> "-kcp."
    <> r.namespace
    <> ".svc."
    <> (cluster_domain_or_default r.spec.root_shard.cluster_domain)

unfoldable pub get_named_root_shard_base_host : NamedRootShardSpec → String → String
get_named_root_shard_base_host r namespace =
    r.name <> "-kcp." <> namespace <> ".svc." <> (cluster_domain_or_default r.spec.cluster_domain)

unfoldable pub get_root_shard_base_url : RootShard → String
unfolding get_root_shard_base_host
get_root_shard_base_url r =
    if r.spec.shard_base_url == ""
    then "https://" <> (get_root_shard_base_host r) <> ":6443"
    else r.spec.shard_base_url

unfoldable pub get_root_shard_proxy_base_url : RootShard → String
unfolding get_root_shard_proxy_base_host
get_root_shard_proxy_base_url r = "https://" <> (get_root_shard_proxy_base_host r) <> ":6443"

unfoldable pub get_compiled_root_shard_base_url : CompiledRootShard → String
unfolding get_compiled_root_shard_base_host
get_compiled_root_shard_base_url r =
    if r.spec.root_shard.shard_base_url == ""
    then "https://" <> (get_compiled_root_shard_base_host r) <> ":6443"
    else r.spec.root_shard.shard_base_url

unfoldable pub get_named_root_shard_base_url : NamedRootShardSpec → String → String
unfolding get_named_root_shard_base_host
get_named_root_shard_base_url r namespace =
    if r.spec.shard_base_url == ""
    then "https://" <> (get_named_root_shard_base_host r namespace) <> ":6443"
    else r.spec.shard_base_url

unfoldable pub get_shard_base_host : Shard → String
get_shard_base_host s =
    s.name
    <> "-shard-kcp."
    <> s.namespace
    <> ".svc."
    <> (cluster_domain_or_default s.spec.cluster_domain)

unfoldable pub get_compiled_shard_base_host : CompiledShard → String
get_compiled_shard_base_host s =
    s.name
    <> "-shard-kcp."
    <> s.namespace
    <> ".svc."
    <> (cluster_domain_or_default s.spec.shard.cluster_domain)

unfoldable pub get_named_shard_base_host : NamedShardSpec → String → String
get_named_shard_base_host s namespace =
    s.name
    <> "-shard-kcp."
    <> namespace
    <> ".svc."
    <> (cluster_domain_or_default s.spec.cluster_domain)

unfoldable pub get_shard_base_url : Shard → String
unfolding get_shard_base_host
get_shard_base_url s =
    if s.spec.shard_base_url == ""
    then "https://" <> (get_shard_base_host s) <> ":6443"
    else s.spec.shard_base_url

unfoldable pub get_compiled_shard_base_url : CompiledShard → String
unfolding get_compiled_shard_base_host
get_compiled_shard_base_url s =
    if s.spec.shard.shard_base_url == ""
    then "https://" <> (get_compiled_shard_base_host s) <> ":6443"
    else s.spec.shard.shard_base_url

unfoldable pub get_named_shard_base_url : NamedShardSpec → String → String
unfolding get_named_shard_base_host
get_named_shard_base_url s namespace =
    if s.spec.shard_base_url == ""
    then "https://" <> (get_named_shard_base_host s namespace) <> ":6443"
    else s.spec.shard_base_url

unfoldable pub get_cache_server_base_host : CacheServer → String
get_cache_server_base_host s =
    s.name
    <> "-cache-server."
    <> s.namespace
    <> ".svc."
    <> (cluster_domain_or_default s.spec.cluster_domain)

unfoldable pub get_compiled_cache_server_base_host : CompiledCacheServer → String
get_compiled_cache_server_base_host s =
    s.name
    <> "-cache-server."
    <> s.namespace
    <> ".svc."
    <> (cluster_domain_or_default s.spec.cache_server.cluster_domain)

unfoldable pub get_cache_server_base_url : CacheServer → String
unfolding get_cache_server_base_host
get_cache_server_base_url s = "https://" <> (get_cache_server_base_host s) <> ":6443"

unfoldable pub get_compiled_cache_server_base_url : CompiledCacheServer → String
unfolding get_compiled_cache_server_base_host
get_compiled_cache_server_base_url s =
    "https://" <> (get_compiled_cache_server_base_host s) <> ":6443"

unfoldable pub get_virtual_workspace_base_host : VirtualWorkspace → String
get_virtual_workspace_base_host s =
    s.name
    <> "-virtual-workspace."
    <> s.namespace
    <> ".svc."
    <> (cluster_domain_or_default s.spec.cluster_domain)

unfoldable pub get_compiled_virtual_workspace_base_host : CompiledVirtualWorkspace → String
get_compiled_virtual_workspace_base_host s =
    s.name
    <> "-virtual-workspace."
    <> s.namespace
    <> ".svc."
    <> (cluster_domain_or_default s.spec.virtual_workspace.cluster_domain)

unfoldable pub get_named_virtual_workspace_base_host : NamedVirtualWorkspaceSpec → String → String
get_named_virtual_workspace_base_host vw namespace =
    vw.name
    <> "-virtual-workspace."
    <> namespace
    <> ".svc."
    <> (cluster_domain_or_default vw.spec.cluster_domain)

unfoldable pub get_virtual_workspace_base_url : VirtualWorkspace → String
unfolding get_virtual_workspace_base_host
get_virtual_workspace_base_url s = "https://" <> (get_virtual_workspace_base_host s) <> ":6443"

unfoldable pub get_compiled_virtual_workspace_base_url : CompiledVirtualWorkspace → String
unfolding get_compiled_virtual_workspace_base_host
get_compiled_virtual_workspace_base_url s =
    "https://" <> (get_compiled_virtual_workspace_base_host s) <> ":6443"

unfoldable pub get_named_virtual_workspace_base_url : NamedVirtualWorkspaceSpec → String → String
unfolding get_named_virtual_workspace_base_host
get_named_virtual_workspace_base_url vw namespace =
    "https://" <> (get_named_virtual_workspace_base_host vw namespace) <> ":6443"
