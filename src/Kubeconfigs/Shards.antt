-- ===== src/Kubeconfigs/Shards.antt =====
-- internal/resources/shard/kubeconfigs.go and paths.go
use kcp_operator.Prelude.{ℕ, String, ◌<>◌, ◌⊎◌, Option, none, some, List, [], ◌∷◌}
use kcp_operator.Prelude.Maps.{Map}
use kcp_operator.Api.Objects.{Shard, RootShard}
use kcp_operator.Names.Defaults.{
  server_ca, ca_bundle_ca, client_certificate, logical_cluster_admin_certificate,
  external_logical_cluster_admin_certificate,
}
use kcp_operator.Names.Hosts.{get_root_shard_base_url, get_shard_base_url}
use kcp_operator.Kubeconfigs.{
  KubeconfigFile, NamedSecretReconciler, single_context, auth_info_at, external_server,
  kubeconfig_secret,
}

abbrev pub get_certificate_mount_path : String → String
get_certificate_mount_path cert_name = "/etc/kcp/tls/" <> cert_name

abbrev pub get_ca_mount_path : String → String
get_ca_mount_path ca_name = "/etc/kcp/tls/ca/" <> ca_name

-- kubeconfigSecret
abbrev pub kubeconfig_secret_name : Shard → String → String
kubeconfig_secret_name shard cert = shard.name <> "-" <> cert <> "-kubeconfig"

abbrev secret_labels : Shard → RootShard → Map String
secret_labels shard root_shard =
    ("operator.kcp.io/rootshard", root_shard.name) ∷ ("operator.kcp.io/shard", shard.name) ∷ []

-- The authority that signs the server: the merged bundle if the spec names a bundle.
abbrev pub server_authority : Option String → String
server_authority none = server_ca
server_authority (some bundle) = ca_bundle_ca

unfoldable pub root_shard_client_kubeconfig : RootShard → KubeconfigFile
unfolding get_root_shard_base_url
root_shard_client_kubeconfig root_shard =
    single_context "root-shard" "shard-base" "shard"
      (record {
        server = get_root_shard_base_url root_shard;
        certificate_authority = get_ca_mount_path server_ca <> "/tls.crt";
      })
      (auth_info_at (get_certificate_mount_path client_certificate))

unfoldable pub logical_cluster_admin_kubeconfig : Shard → KubeconfigFile
unfolding get_shard_base_url
logical_cluster_admin_kubeconfig shard =
    single_context "logical-cluster:admin" "logical-cluster" "logical-cluster-admin"
      (record {
        server = get_shard_base_url shard;
        certificate_authority = get_ca_mount_path server_ca <> "/tls.crt";
      })
      (auth_info_at (get_certificate_mount_path logical_cluster_admin_certificate))

unfoldable pub external_logical_cluster_admin_kubeconfig : Shard → RootShard → KubeconfigFile
unfolding external_server
external_logical_cluster_admin_kubeconfig shard root_shard =
    single_context "external-logical-cluster:admin" "external-logical-cluster"
      "external-logical-cluster-admin"
      (record {
        server = external_server root_shard.spec.external;
        certificate_authority =
            get_ca_mount_path (server_authority shard.spec.ca_bundle_secret_ref) <> "/tls.crt";
      })
      (auth_info_at (get_certificate_mount_path external_logical_cluster_admin_certificate))

module _ (write : KubeconfigFile → List ℕ ⊎ String) where
  unfoldable pub root_shard_client_kubeconfig_reconciler : Shard → RootShard → NamedSecretReconciler
  unfolding root_shard_client_kubeconfig kubeconfig_secret
  root_shard_client_kubeconfig_reconciler shard root_shard =
      kubeconfig_secret write (kubeconfig_secret_name shard client_certificate)
        (secret_labels shard root_shard) (root_shard_client_kubeconfig root_shard)

  unfoldable pub logical_cluster_admin_kubeconfig_reconciler :
      Shard → RootShard → NamedSecretReconciler
  unfolding logical_cluster_admin_kubeconfig kubeconfig_secret
  logical_cluster_admin_kubeconfig_reconciler shard root_shard =
      kubeconfig_secret write (kubeconfig_secret_name shard logical_cluster_admin_certificate)
        (secret_labels shard root_shard) (logical_cluster_admin_kubeconfig shard)

  unfoldable pub external_logical_cluster_admin_kubeconfig_reconciler :
      Shard → RootShard → NamedSecretReconciler
  unfolding external_logical_cluster_admin_kubeconfig kubeconfig_secret
  external_logical_cluster_admin_kubeconfig_reconciler shard root_shard =
      kubeconfig_secret write
        (kubeconfig_secret_name shard external_logical_cluster_admin_certificate)
        (secret_labels shard root_shard)
        (external_logical_cluster_admin_kubeconfig shard root_shard)
