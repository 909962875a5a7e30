-- ===== src/CompiledShard/Paths.antt =====
-- The mount paths of a shard's pod, and the cache server that it uses
-- (internal/resources/compiledshard/deployment.go).
use kcp_operator.Prelude.{String, ◌<>◌, Bool, true, Option, none, some}
use kcp_operator.Api.Shard.{ShardCacheConfig}
use kcp_operator.Api.Objects.{CompiledShard}

abbrev pub get_certificate_mount_path : String → String
get_certificate_mount_path cert_name = "/etc/kcp/tls/" <> cert_name

abbrev pub get_ca_mount_path : String → String
get_ca_mount_path ca_name = "/etc/kcp/tls/ca/" <> ca_name

abbrev pub get_kubeconfig_mount_path : String → String
get_kubeconfig_mount_path cert_name = "/etc/kcp/" <> cert_name <> "-kubeconfig"

abbrev pub get_cache_server_kubeconfig_mount_path : String
get_cache_server_kubeconfig_mount_path = "/etc/cache-server/kubeconfig"

abbrev pub get_cache_server_ca_mount_path : String → String
get_cache_server_ca_mount_path ca_name = "/etc/cache-server/tls/ca/" <> ca_name

abbrev pub get_cache_server_client_cert_mount_path : String
get_cache_server_client_cert_mount_path = "/etc/cache-server/tls/client-certificate"

abbrev inherited_cache_ref : Option String → String
inherited_cache_ref none = ""
inherited_cache_ref (some name) = name

abbrev cache_ref : Option ShardCacheConfig → Option String → String
cache_ref none inherited = inherited_cache_ref inherited
cache_ref (some cache) inherited = elim cache.reference [
  | none ↦ inherited_cache_ref inherited
  | some name ↦ name
]

-- The shard's own cache wins over the root shard's; "" if neither has one.
unfoldable pub get_effective_cache_ref : CompiledShard → String
get_effective_cache_ref shard =
    cache_ref shard.spec.shard.cache shard.spec.root_shard.spec.cache.reference

-- What `semver.NewConstraint("~0.31.6 || >=0.32.3")` accepts; a tag that is no version passes.
abbrev pub supports_mount_proxy {ℓ} : {V : Type ℓ} → (V → Bool) → Option V → Bool
supports_mount_proxy check none = true
supports_mount_proxy check (some version) = check version
