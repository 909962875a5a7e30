-- ===== src/Kubeconfigs/CacheServers.antt =====
-- internal/resources/cacheserver/kubeconfigs.go and paths.go
use kcp_operator.Prelude.{ℕ, String, ◌<>◌, ◌⊎◌, List, [], ◌∷◌}
use kcp_operator.Api.Objects.{CacheServer}
use kcp_operator.Names.Defaults.{root_ca}
use kcp_operator.Names.Configs.{get_cache_server_kubeconfig_name}
use kcp_operator.Names.Hosts.{get_cache_server_base_url}
use kcp_operator.Kubeconfigs.{
  KubeconfigFile, NamedSecretReconciler, single_context, auth_info_at, kubeconfig_secret,
}

abbrev get_ca_mount_path : String → String
get_ca_mount_path ca_name = "/etc/cache-server/tls/ca/" <> ca_name

abbrev get_client_certificate_mount_path : String
get_client_certificate_mount_path = "/etc/cache-server/tls/client-certificate"

unfoldable pub cache_kubeconfig : CacheServer → KubeconfigFile
unfolding get_cache_server_base_url
cache_kubeconfig server =
    single_context "cache" "cache" "cache"
      (record {
        server = get_cache_server_base_url server;
        certificate_authority = get_ca_mount_path root_ca <> "/tls.crt";
      })
      (auth_info_at get_client_certificate_mount_path)

module _ (write : KubeconfigFile → List ℕ ⊎ String) where
  unfoldable pub kubeconfig_reconciler : CacheServer → NamedSecretReconciler
  unfolding cache_kubeconfig kubeconfig_secret get_cache_server_kubeconfig_name
  kubeconfig_reconciler server =
      kubeconfig_secret write (get_cache_server_kubeconfig_name server.name)
        (("operator.kcp.io/cache-server", server.name) ∷ []) (cache_kubeconfig server)
