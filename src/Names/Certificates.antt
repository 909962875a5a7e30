-- ===== src/Names/Certificates.antt =====
-- The names of certificates, certificate authorities and the Secrets that hold them (internal/resources/resources.go).
use kcp_operator.Prelude.{String, ◌<>◌, ◌==◌, if◌then◌else◌}
use kcp_operator.Api.Objects.{
  RootShard, Shard, CacheServer, VirtualWorkspace, FrontProxy, NamedRootShardSpec, NamedShardSpec,
  NamedVirtualWorkspaceSpec, CompiledRootShard, CompiledShard, CompiledCacheServer,
  CompiledVirtualWorkspace, CompiledFrontProxy,
}
use kcp_operator.Names.Defaults.{root_ca}

unfoldable pub get_root_shard_certificate_name : RootShard → String → String
get_root_shard_certificate_name r cert_name = r.name <> "-" <> cert_name

unfoldable pub get_compiled_root_shard_certificate_name : CompiledRootShard → String → String
get_compiled_root_shard_certificate_name r cert_name = r.name <> "-" <> cert_name

unfoldable pub get_named_root_shard_certificate_name : NamedRootShardSpec → String → String
get_named_root_shard_certificate_name r cert_name = r.name <> "-" <> cert_name

unfoldable pub get_root_shard_proxy_certificate_name : RootShard → String → String
get_root_shard_proxy_certificate_name r cert_name = r.name <> "-proxy-" <> cert_name

unfoldable pub get_compiled_root_shard_proxy_certificate_name : CompiledRootShard → String → String
get_compiled_root_shard_proxy_certificate_name r cert_name = r.name <> "-proxy-" <> cert_name

unfoldable pub get_named_root_shard_proxy_certificate_name : NamedRootShardSpec → String → String
get_named_root_shard_proxy_certificate_name r cert_name = r.name <> "-proxy-" <> cert_name

unfoldable pub get_shard_certificate_name : Shard → String → String
get_shard_certificate_name s cert_name = s.name <> "-" <> cert_name

unfoldable pub get_compiled_shard_certificate_name : CompiledShard → String → String
get_compiled_shard_certificate_name s cert_name = s.name <> "-" <> cert_name

unfoldable pub get_named_shard_certificate_name : NamedShardSpec → String → String
get_named_shard_certificate_name s cert_name = s.name <> "-" <> cert_name

unfoldable pub get_cache_server_certificate_name : CacheServer → String → String
get_cache_server_certificate_name s cert_name = s.name <> "-" <> cert_name

unfoldable pub get_compiled_cache_server_certificate_name : CompiledCacheServer → String → String
get_compiled_cache_server_certificate_name s cert_name = s.name <> "-" <> cert_name

unfoldable pub get_virtual_workspace_certificate_name : VirtualWorkspace → String → String
get_virtual_workspace_certificate_name vw cert_name = vw.name <> "-" <> cert_name

unfoldable pub get_compiled_virtual_workspace_certificate_name :
    CompiledVirtualWorkspace → String → String
get_compiled_virtual_workspace_certificate_name vw cert_name = vw.name <> "-" <> cert_name

unfoldable pub get_named_virtual_workspace_certificate_name :
    NamedVirtualWorkspaceSpec → String → String
get_named_virtual_workspace_certificate_name vw cert_name = vw.name <> "-" <> cert_name

unfoldable pub get_root_shard_ca_name : RootShard → String → String
get_root_shard_ca_name r ca_name =
    if ca_name == root_ca then r.name <> "-ca" else r.name <> "-" <> ca_name <> "-ca"

unfoldable pub get_compiled_root_shard_ca_name : CompiledRootShard → String → String
get_compiled_root_shard_ca_name r ca_name =
    if ca_name == root_ca then r.name <> "-ca" else r.name <> "-" <> ca_name <> "-ca"

unfoldable pub get_named_root_shard_ca_name : NamedRootShardSpec → String → String
get_named_root_shard_ca_name r ca_name =
    if ca_name == root_ca then r.name <> "-ca" else r.name <> "-" <> ca_name <> "-ca"

unfoldable pub get_cache_server_ca_name : String → String → String
get_cache_server_ca_name cache_server_name ca_name =
    if ca_name == root_ca
    then cache_server_name <> "-ca"
    else cache_server_name <> "-" <> ca_name <> "-ca"

unfoldable pub get_front_proxy_certificate_name : RootShard → FrontProxy → String → String
get_front_proxy_certificate_name r f cert_name = r.name <> "-" <> f.name <> "-" <> cert_name

unfoldable pub get_compiled_front_proxy_certificate_name : CompiledFrontProxy → String → String
get_compiled_front_proxy_certificate_name f cert_name =
    f.spec.root_shard.name <> "-" <> f.name <> "-" <> cert_name

unfoldable pub get_cache_server_client_certificate_name : CacheServer → String
get_cache_server_client_certificate_name s = s.name <> "-client-certificate"

unfoldable pub get_compiled_cache_server_client_certificate_name : CompiledCacheServer → String
get_compiled_cache_server_client_certificate_name s = s.name <> "-client-certificate"

unfoldable pub get_merged_client_ca_name : String → String
get_merged_client_ca_name owner_name = owner_name <> "-merged-client-ca"
