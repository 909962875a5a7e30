-- ===== src/Bundles/Owners.antt =====
-- The merged bundles of shards, root shards and virtual workspaces (ca_bundle.go of internal/resources/shard,
-- rootshard and virtualworkspace).
use kcp_operator.Prelude.{String, ◌<>◌, ◌∷◌, ◌++◌, ◌⊎◌, inl, inr}
use kcp_operator.Prelude.Maps.{insert}
use kcp_operator.Api.Objects.{Shard, RootShard, VirtualWorkspace}
use kcp_operator.Names.Defaults.{server_certificate, client_ca, server_ca}
use kcp_operator.Names.Certificates.{get_shard_certificate_name, get_root_shard_ca_name}
use kcp_operator.Kubeconfigs.{NamedSecretReconciler}
use kcp_operator.Bundles.{
  Bytes, SecretReader, fetch_tls_cert, fetched, fetched_if, bundle_secret, merge_certificates,
}

module _ (get : SecretReader) where
  -- The certificates of the two MergedCABundleSecretReconciler functions: of a shard first.
  unfoldable pub shard_ca_bundle : Shard → Bytes ⊎ String
  unfolding fetch_tls_cert get_shard_certificate_name merge_certificates
  shard_ca_bundle shard =
      fetched "ServerCA" (fetch_tls_cert get (get_shard_certificate_name shard server_certificate))
        (λ server.
          fetched_if get "user CA bundle" shard.spec.ca_bundle_secret_ref
            (λ user. inl (merge_certificates (server ∷ user))))

  unfoldable pub root_shard_ca_bundle : RootShard → Bytes ⊎ String
  unfolding fetch_tls_cert get_root_shard_ca_name merge_certificates
  root_shard_ca_bundle root_shard =
      fetched "ServerCA" (fetch_tls_cert get (get_root_shard_ca_name root_shard server_ca))
        (λ server.
          fetched_if get "user CA bundle" root_shard.spec.ca_bundle_secret_ref
            (λ user. inl (merge_certificates (server ∷ user))))

  unfoldable pub shard_client_ca_bundle : Shard → RootShard → Bytes ⊎ String
  unfolding fetch_tls_cert get_root_shard_ca_name merge_certificates
  shard_client_ca_bundle shard root_shard =
      fetched "ClientCA" (fetch_tls_cert get (get_root_shard_ca_name root_shard client_ca))
        (λ client.
          fetched_if get "RootShard client CA bundle" root_shard.spec.client_ca_bundle_ref
            (λ inherited.
              fetched_if get "Shard client CA bundle" shard.spec.client_ca_bundle_ref
                (λ own. inl (merge_certificates (client ∷ (inherited ++ own))))))

  unfoldable pub virtual_workspace_client_ca_bundle : VirtualWorkspace → RootShard → Bytes ⊎ String
  unfolding fetch_tls_cert get_root_shard_ca_name merge_certificates
  virtual_workspace_client_ca_bundle vw root_shard =
      fetched "ClientCA" (fetch_tls_cert get (get_root_shard_ca_name root_shard client_ca))
        (λ client.
          fetched_if get "RootShard client CA bundle" root_shard.spec.client_ca_bundle_ref
            (λ inherited.
              fetched_if get "VirtualWorkspace client CA bundle" vw.spec.client_ca_bundle_ref
                (λ own. inl (merge_certificates (client ∷ (inherited ++ own))))))

  -- Its Secret has two owner labels.
  unfoldable pub virtual_workspace_merged_client_ca_bundle_reconciler :
      VirtualWorkspace → RootShard → NamedSecretReconciler
  unfolding virtual_workspace_client_ca_bundle insert
  virtual_workspace_merged_client_ca_bundle_reconciler vw root_shard = record {
    name = vw.name <> "-merged-client-ca";
    reconcile = λ secret. elim (virtual_workspace_client_ca_bundle vw root_shard) [
      | inr e ↦ inr e
      | inl bytes ↦ inl (record secret {
        data_entries = insert "tls.crt" bytes secret.data_entries;
        labels =
            insert "operator.kcp.io/virtual-workspace" vw.name
              (insert "operator.kcp.io/rootshard" root_shard.name secret.labels);
      })
    ];
  }

  unfoldable pub root_shard_client_ca_bundle : RootShard → Bytes ⊎ String
  unfolding fetch_tls_cert get_root_shard_ca_name merge_certificates
  root_shard_client_ca_bundle root_shard =
      fetched "ClientCA" (fetch_tls_cert get (get_root_shard_ca_name root_shard client_ca))
        (λ client.
          fetched_if get "user client CA bundle" root_shard.spec.client_ca_bundle_ref
            (λ user. inl (merge_certificates (client ∷ user))))

  unfoldable pub shard_merged_ca_bundle_reconciler : Shard → NamedSecretReconciler
  unfolding shard_ca_bundle insert
  shard_merged_ca_bundle_reconciler shard =
      bundle_secret (shard.name <> "-merged-ca-bundle") "operator.kcp.io/shard" shard.name
        (shard_ca_bundle shard)

  unfoldable pub shard_merged_client_ca_bundle_reconciler :
      Shard → RootShard → NamedSecretReconciler
  unfolding shard_client_ca_bundle insert
  shard_merged_client_ca_bundle_reconciler shard root_shard =
      bundle_secret (shard.name <> "-merged-client-ca") "operator.kcp.io/shard" shard.name
        (shard_client_ca_bundle shard root_shard)

  unfoldable pub root_shard_merged_ca_bundle_reconciler : RootShard → NamedSecretReconciler
  unfolding root_shard_ca_bundle insert
  root_shard_merged_ca_bundle_reconciler root_shard =
      bundle_secret (root_shard.name <> "-merged-ca-bundle") "operator.kcp.io/rootshard"
        root_shard.name (root_shard_ca_bundle root_shard)

  unfoldable pub root_shard_merged_client_ca_bundle_reconciler : RootShard → NamedSecretReconciler
  unfolding root_shard_client_ca_bundle insert
  root_shard_merged_client_ca_bundle_reconciler root_shard =
      bundle_secret (root_shard.name <> "-merged-client-ca") "operator.kcp.io/rootshard"
        root_shard.name (root_shard_client_ca_bundle root_shard)
