-- ===== src/Names/Configs.antt =====
-- The names of kubeconfig Secrets and proxy configurations (internal/resources/resources.go).
use kcp_operator.Prelude.{String, ◌<>◌}
use kcp_operator.Api.Objects.{
  RootShard, Shard, FrontProxy, NamedRootShardSpec, NamedShardSpec, CompiledRootShard,
  CompiledShard, CompiledFrontProxy,
}

unfoldable pub get_root_shard_proxy_dynamic_kubeconfig_name : RootShard → String
get_root_shard_proxy_dynamic_kubeconfig_name r = r.name <> "-proxy-dynamic-kubeconfig"

unfoldable pub get_compiled_root_shard_proxy_dynamic_kubeconfig_name : CompiledRootShard → String
get_compiled_root_shard_proxy_dynamic_kubeconfig_name r = r.name <> "-proxy-dynamic-kubeconfig"

unfoldable pub get_named_root_shard_proxy_dynamic_kubeconfig_name : NamedRootShardSpec → String
get_named_root_shard_proxy_dynamic_kubeconfig_name r = r.name <> "-proxy-dynamic-kubeconfig"

unfoldable pub get_front_proxy_dynamic_kubeconfig_name : RootShard → FrontProxy → String
get_front_proxy_dynamic_kubeconfig_name r f = r.name <> "-" <> f.name <> "-dynamic-kubeconfig"

unfoldable pub get_compiled_front_proxy_dynamic_kubeconfig_name : CompiledFrontProxy → String
get_compiled_front_proxy_dynamic_kubeconfig_name f =
    f.spec.root_shard.name <> "-" <> f.name <> "-dynamic-kubeconfig"

unfoldable pub get_cache_server_kubeconfig_name : String → String
get_cache_server_kubeconfig_name cache_server_name = cache_server_name <> "-kubeconfig"

unfoldable pub get_root_shard_proxy_config_name : RootShard → String
get_root_shard_proxy_config_name r = r.name <> "-proxy-config"

unfoldable pub get_compiled_root_shard_proxy_config_name : CompiledRootShard → String
get_compiled_root_shard_proxy_config_name r = r.name <> "-proxy-config"

unfoldable pub get_named_root_shard_proxy_config_name : NamedRootShardSpec → String
get_named_root_shard_proxy_config_name r = r.name <> "-proxy-config"

unfoldable pub get_front_proxy_config_name : FrontProxy → String
get_front_proxy_config_name f = f.name <> "-config"

unfoldable pub get_compiled_front_proxy_config_name : CompiledFrontProxy → String
get_compiled_front_proxy_config_name f = f.name <> "-config"

unfoldable pub get_root_shard_kubeconfig_secret : RootShard → String → String
get_root_shard_kubeconfig_secret r cert = r.name <> "-" <> cert <> "-kubeconfig"

unfoldable pub get_compiled_root_shard_kubeconfig_secret : CompiledRootShard → String → String
get_compiled_root_shard_kubeconfig_secret r cert = r.name <> "-" <> cert <> "-kubeconfig"

unfoldable pub get_named_root_shard_kubeconfig_secret : NamedRootShardSpec → String → String
get_named_root_shard_kubeconfig_secret r cert = r.name <> "-" <> cert <> "-kubeconfig"

unfoldable pub get_shard_kubeconfig_secret : Shard → String → String
get_shard_kubeconfig_secret shard cert = shard.name <> "-" <> cert <> "-kubeconfig"

unfoldable pub get_compiled_shard_kubeconfig_secret : CompiledShard → String → String
get_compiled_shard_kubeconfig_secret shard cert = shard.name <> "-" <> cert <> "-kubeconfig"

unfoldable pub get_named_shard_kubeconfig_secret : NamedShardSpec → String → String
get_named_shard_kubeconfig_secret shard cert = shard.name <> "-" <> cert <> "-kubeconfig"
