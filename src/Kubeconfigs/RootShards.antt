-- ===== src/Kubeconfigs/RootShards.antt =====
-- internal/resources/rootshard/kubeconfigs.go and paths.go
use kcp_operator.Prelude.{ℕ, String, ◌<>◌, ◌⊎◌, List, [], ◌∷◌}
use kcp_operator.Prelude.Maps.{Map}
use kcp_operator.Api.Objects.{RootShard}
use kcp_operator.Names.Defaults.{
  server_ca, logical_cluster_admin_certificate, external_logical_cluster_admin_certificate,
}
use kcp_operator.Names.Hosts.{get_root_shard_base_url}
use kcp_operator.Kubeconfigs.{
  KubeconfigFile, NamedSecretReconciler, single_context, auth_info_at, external_server,
  kubeconfig_secret,
}
use kcp_operator.Kubeconfigs.Shards.{
  get_certificate_mount_path, get_ca_mount_path, server_authority,
}

abbrev kubeconfig_secret_name : RootShard → String → String
kubeconfig_secret_name root_shard cert = root_shard.name <> "-" <> cert <> "-kubeconfig"

abbrev secret_labels : RootShard → Map String
secret_labels root_shard = ("operator.kcp.io/rootshard", root_shard.name) ∷ []

unfoldable pub logical_cluster_admin_kubeconfig : RootShard → KubeconfigFile
unfolding get_root_shard_base_url
logical_cluster_admin_kubeconfig root_shard =
    single_context "root-shard" "shard-base" "shard"
      (record {
        server = get_root_shard_base_url root_shard;
        certificate_authority = get_ca_mount_path server_ca <> "/tls.crt";
      })
      (auth_info_at (get_certificate_mount_path logical_cluster_admin_certificate))

unfoldable pub external_logical_cluster_admin_kubeconfig : RootShard → KubeconfigFile
unfolding external_server
external_logical_cluster_admin_kubeconfig root_shard =
    single_context "root-shard" "shard-base" "shard"
      (record {
        server = external_server root_shard.spec.external;
        certificate_authority =
            get_ca_mount_path (server_authority root_shard.spec.ca_bundle_secret_ref) <> "/tls.crt";
      })
      (auth_info_at (get_certificate_mount_path external_logical_cluster_admin_certificate))

module _ (write : KubeconfigFile → List ℕ ⊎ String) where
  unfoldable pub logical_cluster_admin_kubeconfig_reconciler : RootShard → NamedSecretReconciler
  unfolding logical_cluster_admin_kubeconfig kubeconfig_secret
  logical_cluster_admin_kubeconfig_reconciler root_shard =
      kubeconfig_secret write (kubeconfig_secret_name root_shard logical_cluster_admin_certificate)
        (secret_labels root_shard) (logical_cluster_admin_kubeconfig root_shard)

  unfoldable pub external_logical_cluster_admin_kubeconfig_reconciler :
      RootShard → NamedSecretReconciler
  unfolding external_logical_cluster_admin_kubeconfig kubeconfig_secret
  external_logical_cluster_admin_kubeconfig_reconciler root_shard =
      kubeconfig_secret write
        (kubeconfig_secret_name root_shard external_logical_cluster_admin_certificate)
        (secret_labels root_shard) (external_logical_cluster_admin_kubeconfig root_shard)
