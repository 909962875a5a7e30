-- ===== src/Controllers/RootShards.antt =====
-- pkg/controller/rootshard/controller.go
use kcp_operator.Prelude.{
  ℕ, String, Bool, not, ◌&&◌, Option, none, some, is_some, List, [], ◌∷◌, ◌++◌, map, ◌⊎◌,
  if◌then◌else◌,
}
use kcp_operator.Prelude.Maps.{Map}
use kcp_operator.Api.Objects.{Shard, RootShard, VirtualWorkspace}
use kcp_operator.Names.Defaults.{server_ca, requestheader_client_ca, client_ca, service_account_ca}
use kcp_operator.Compile.{compiled_root_shard_reconciler, mutate_keys}
use kcp_operator.Render.Pods.{Outcome, done, ◌>>=◌}
use kcp_operator.Status.{certificate_revisions}
use kcp_operator.Children.{get_root_shard_children}
use kcp_operator.Certificates.{CertificateLibrary, NamedCertificateReconciler}
use kcp_operator.Certificates.RootShards.{
  server_certificate_reconciler, service_account_certificate_reconciler,
  virtual_workspaces_certificate_reconciler, logical_cluster_admin_certificate_reconciler,
  external_logical_cluster_admin_certificate_reconciler, client_certificate_reconciler,
  operator_client_certificate_reconciler,
}
use kcp_operator.Certificates.Authorities.{
  Issuer, root_ca_issuer_reconciler, ca_issuer_reconciler, root_ca_certificate_reconciler,
  ca_certificate_reconciler,
}
use kcp_operator.Kubeconfigs.{KubeconfigFile, NamedSecretReconciler}
use kcp_operator.Kubeconfigs.RootShards.{
  logical_cluster_admin_kubeconfig_reconciler, external_logical_cluster_admin_kubeconfig_reconciler,
}
use kcp_operator.Bundles.Owners.{
  root_shard_merged_ca_bundle_reconciler, root_shard_merged_client_ca_bundle_reconciler,
}
use kcp_operator.Controllers.{
  Cluster, certificates, issuers, publish_root_shard, Run, finished, asking, or_note, reconcile_all,
  reconcile_certificates, asked_certificates, asked_all, wrapped, first_error, noting_secrets,
  followed_by,
}
use kcp_operator.Controllers.Shards.{virtual_workspace_of}
use kcp_operator.Controllers.Proxies.{reconcile_proxy}

-- The authorities that a root shard has a certificate and an issuer for.
abbrev pub intermediate_cas : List String
intermediate_cas = server_ca ∷ requestheader_client_ca ∷ client_ca ∷ service_account_ca ∷ []

unfoldable pub issuer_reconcilers : RootShard → List Issuer
issuer_reconcilers root_shard =
    root_ca_issuer_reconciler root_shard ∷ map (ca_issuer_reconciler root_shard) intermediate_cas

module _ (L : CertificateLibrary) where
  unfoldable pub base_certificate_reconcilers : RootShard → List NamedCertificateReconciler
  base_certificate_reconcilers root_shard =
      (server_certificate_reconciler L root_shard
        ∷ service_account_certificate_reconciler L root_shard
        ∷ virtual_workspaces_certificate_reconciler L root_shard
        ∷ logical_cluster_admin_certificate_reconciler L root_shard
        ∷ external_logical_cluster_admin_certificate_reconciler L root_shard
        ∷ client_certificate_reconciler L root_shard
        ∷ operator_client_certificate_reconciler L root_shard
        ∷ [])
      ++ map (ca_certificate_reconciler L root_shard) intermediate_cas

  -- The certificate of the root CA is only asked for if an issuer is configured.
  unfoldable pub certificate_reconcilers : RootShard → Outcome (List NamedCertificateReconciler)
  unfolding base_certificate_reconcilers root_ca_certificate_reconciler
  certificate_reconcilers root_shard =
      let with_root =
        root_ca_certificate_reconciler L root_shard
        >>= (λ root. done (base_certificate_reconcilers root_shard ++ (root ∷ []))) in
      if is_some root_shard.spec.certificates.issuer_ref
      then with_root
      else done (base_certificate_reconcilers root_shard)

module _ (write : KubeconfigFile → List ℕ ⊎ String) where
  unfoldable pub kubeconfig_reconcilers : RootShard → List NamedSecretReconciler
  kubeconfig_reconcilers root_shard =
      logical_cluster_admin_kubeconfig_reconciler write root_shard
      ∷ external_logical_cluster_admin_kubeconfig_reconciler write root_shard
      ∷ []

module _ (L : CertificateLibrary) (write : KubeconfigFile → List ℕ ⊎ String) (C : Cluster) where
  unfoldable pub published :
      RootShard → Option VirtualWorkspace → List Shard → Bool → Option (Map String) → Run
  unfolding mutate_keys
  published root_shard vw shards complete none = finished []
  published root_shard vw shards complete (some revisions) =
      let compiled =
        compiled_root_shard_reconciler root_shard vw shards
          (mutate_keys revisions "cert-" "-revision") in
      if complete
      then asking (publish_root_shard compiled)
          (or_note (C.compiled_root_shard compiled) (finished []))
      else finished []

  unfoldable pub with_bundles : RootShard → Run → Run
  with_bundles root_shard run =
      let client =
        noting_secrets C (root_shard_merged_client_ca_bundle_reconciler C.secret root_shard ∷ [])
          run in
      let rest = if is_some root_shard.spec.client_ca_bundle_ref then client else run in
      if is_some root_shard.spec.ca_bundle_secret_ref
      then noting_secrets C (root_shard_merged_ca_bundle_reconciler C.secret root_shard ∷ []) rest
      else rest

  -- reconcile, from where the certificates to ask for and the children are known.
  unfoldable pub reconcile_with :
      RootShard → List NamedCertificateReconciler → List Shard × List String → Run
  unfolding published with_bundles reconcile_certificates asked_certificates kubeconfig_reconcilers
      issuer_reconcilers reconcile_proxy
  reconcile_with root_shard certs children =
      let captured = reconcile_certificates C.certificate certs in
      let issuer_list = issuer_reconcilers root_shard in
      let vw = virtual_workspace_of C.virtual_workspace root_shard.spec.kcp_virtual_workspace in
      let list_error = wrapped "failed to list shards" (first_error children.1) in
      let proxy = reconcile_proxy L C (record { root_shard = root_shard; front_proxy = none }) in
      asking (certificates (asked_certificates C.certificate certs)) (
        or_note captured.1 (
          asking (issuers (asked_all C.issuer issuer_list)) (
            or_note (reconcile_all C.issuer issuer_list) (
              with_bundles root_shard (
                noting_secrets C (kubeconfig_reconcilers write root_shard) (
                  or_note vw.1 (
                    or_note list_error (
                      followed_by L.aggregate proxy.0 "failed to reconcile proxy" (
                        published root_shard vw.0 children.0
                          (not (is_some vw.1) && not (is_some list_error))
                          (certificate_revisions (captured.0 ++ proxy.1)))))))))))

  -- `deleting` says that the deletion timestamp is set.
  unfoldable pub reconcile : RootShard → Bool → Outcome Run
  unfolding reconcile_with certificate_reconcilers
  reconcile root_shard deleting =
      let run = certificate_reconcilers L root_shard >>= (λ certs.
        get_root_shard_children C.shards root_shard
        >>= (λ children. done (reconcile_with root_shard certs children))) in
      if deleting then done (finished []) else run
