-- ===== src/Controllers/Shards.antt =====
-- pkg/controller/shard/controller.go
use kcp_operator.Prelude.{
  ℕ, String, ◌<>◌, Bool, not, ◌&&◌, ◌||◌, Option, none, some, is_some, List, [], ◌∷◌, ◌++◌, ◌⊎◌,
  inl, inr, ◌==◌, keep, contains, if◌then◌else◌,
}
use kcp_operator.Prelude.Maps.{Map}
use kcp_operator.Api.Objects.{Shard, RootShard, VirtualWorkspace}
use kcp_operator.Compile.{compiled_shard_reconciler, mutate_keys}
use kcp_operator.Render.Pods.{Outcome, done, ◌>>=◌}
use kcp_operator.Status.{answer, missing, refused, certificate_revisions}
use kcp_operator.Children.{fetch_root_shard, get_root_shard_children}
use kcp_operator.Certificates.{CertificateLibrary, NamedCertificateReconciler}
use kcp_operator.Certificates.Shards.{
  server_certificate_reconciler, service_account_certificate_reconciler,
  virtual_workspaces_certificate_reconciler, root_shard_client_certificate_reconciler,
  mounts_proxy_client_certificate_reconciler, logical_cluster_admin_certificate_reconciler,
  external_logical_cluster_admin_certificate_reconciler,
}
use kcp_operator.Kubeconfigs.{KubeconfigFile, NamedSecretReconciler}
use kcp_operator.Kubeconfigs.Shards.{
  root_shard_client_kubeconfig_reconciler, logical_cluster_admin_kubeconfig_reconciler,
  external_logical_cluster_admin_kubeconfig_reconciler,
}
use kcp_operator.Bundles.Owners.{
  shard_merged_ca_bundle_reconciler, shard_merged_client_ca_bundle_reconciler,
}
use kcp_operator.Controllers.{
  Cluster, certificates, publish_shard, patch_finalizers, delete_kcp_shard, Run, finished, failed,
  asking, or_return, or_note, reconcile_certificates, asked_certificates, wrapped, first_error,
  with_condition, noting_secrets,
}

-- The object in the cluster: `deleting` says that the deletion timestamp is set.
pub record ShardObject : Type 0 where
  pub object : Shard
  pub deleting : Bool
  pub finalizers : List String

abbrev pub cleanup_finalizer : String
cleanup_finalizer = "operator.kcp.io/cleanup-shard"

-- The virtual workspace of the spec, or the error that it is not there.
abbrev pub virtual_workspace_of :
    (String → VirtualWorkspace ⊎ String) → Option String → Option VirtualWorkspace × Option String
virtual_workspace_of get none = (none, none)
virtual_workspace_of get (some name) = elim (get name) [
  | inl vw ↦ (some vw, none)
  | inr e ↦ (none, some ("failed to find associated VirtualWorkspace " <> name <> ": " <> e))
]

module _ (L : CertificateLibrary) where
  unfoldable pub certificate_reconcilers : Shard → RootShard → List NamedCertificateReconciler
  certificate_reconcilers s root_shard =
      server_certificate_reconciler L s root_shard
      ∷ service_account_certificate_reconciler L s root_shard
      ∷ virtual_workspaces_certificate_reconciler L s root_shard
      ∷ root_shard_client_certificate_reconciler L s root_shard
      ∷ mounts_proxy_client_certificate_reconciler L s root_shard
      ∷ logical_cluster_admin_certificate_reconciler L s root_shard
      ∷ external_logical_cluster_admin_certificate_reconciler L s root_shard
      ∷ []

module _ (write : KubeconfigFile → List ℕ ⊎ String) where
  unfoldable pub kubeconfig_reconcilers : Shard → RootShard → List NamedSecretReconciler
  kubeconfig_reconcilers s root_shard =
      root_shard_client_kubeconfig_reconciler write s root_shard
      ∷ logical_cluster_admin_kubeconfig_reconciler write s root_shard
      ∷ external_logical_cluster_admin_kubeconfig_reconciler write s root_shard
      ∷ []

module _ (L : CertificateLibrary) (write : KubeconfigFile → List ℕ ⊎ String) (C : Cluster) where
  -- The compiled object, if nothing that it needs is in error and the certificates are ready.
  unfoldable pub published :
      Shard → RootShard → Option VirtualWorkspace → List Shard → Bool → Option (Map String) → Run
  unfolding mutate_keys
  published s root_shard vw shards complete none = finished []
  published s root_shard vw shards complete (some revisions) =
      let compiled =
        compiled_shard_reconciler s root_shard vw shards
          (mutate_keys revisions "cert-" "-revision") in
      if complete
      then asking (publish_shard compiled) (or_note (C.compiled_shard compiled) (finished []))
      else finished []

  -- The bundles that the specs ask for.
  unfoldable pub with_bundles : Shard → RootShard → Run → Run
  with_bundles s root_shard run =
      let client =
        noting_secrets C (shard_merged_client_ca_bundle_reconciler C.secret s root_shard ∷ [])
          run in
      let rest =
        if is_some root_shard.spec.client_ca_bundle_ref || is_some s.spec.client_ca_bundle_ref
        then client
        else run in
      if is_some s.spec.ca_bundle_secret_ref
      then noting_secrets C (shard_merged_ca_bundle_reconciler C.secret s ∷ []) rest
      else rest

  -- From the virtual workspace on.
  unfoldable pub resolved : Shard → RootShard → List Shard × List String → Option (Map String) → Run
  unfolding published
  resolved s root_shard children revisions =
      let vw = virtual_workspace_of C.virtual_workspace s.spec.kcp_virtual_workspace in
      let list_error = wrapped "failed to list shards" (first_error children.1) in
      or_note vw.1 (
        or_note list_error (
          published s root_shard vw.0 children.0 (not (is_some vw.1) && not (is_some list_error))
            revisions))

  -- reconcile, from where the root shard and its children are known.
  unfoldable pub reconcile_with : Shard → RootShard → List Shard × List String → Run
  unfolding resolved with_bundles reconcile_certificates asked_certificates certificate_reconcilers
      kubeconfig_reconcilers
  reconcile_with s root_shard children =
      let certs = certificate_reconcilers L s root_shard in
      let captured = reconcile_certificates C.certificate certs in
      asking (certificates (asked_certificates C.certificate certs)) (
        or_note captured.1 (
          noting_secrets C (kubeconfig_reconcilers write s root_shard) (
            with_bundles s root_shard
              (resolved s root_shard children (certificate_revisions captured.0)))))

  unfoldable pub remove_finalizer : ShardObject → Run → Run
  unfolding contains
  remove_finalizer s run =
      let fs = L.sorted_set (keep (λ f. not (f == cleanup_finalizer)) s.finalizers) in
      if contains s.finalizers cleanup_finalizer
      then asking (patch_finalizers fs) (
          or_return run.conditions (wrapped "failed to remove finalizer" (C.patch_finalizers fs))
            run)
      else run

  -- The client for the root workspace, the deletion of the kcp object, and the finalizer.
  unfoldable pub clean_up : ShardObject → RootShard → Run
  unfolding remove_finalizer
  clean_up s root_shard = elim (C.connect root_shard) [
    | some e ↦ failed [] ("failed to create root shard client: " <> e)
    | none ↦ asking (delete_kcp_shard s.object.name) (elim (C.delete_kcp_shard s.object.name) [
      | answer u ↦ remove_finalizer s (finished [])
      | missing ↦ remove_finalizer s (finished [])
      | refused e ↦ failed [] ("failed to delete kcp Shard: " <> e)
    ])
  ]

  unfoldable pub handle_deletion : ShardObject → Run
  unfolding clean_up fetch_root_shard
  handle_deletion s =
      let fetched = fetch_root_shard C.root_shard s.object.spec.root_shard in
      if contains s.finalizers cleanup_finalizer
      then elim fetched.1 [
        | none ↦ remove_finalizer s (finished (fetched.0 ∷ []))
        | some root_shard ↦ clean_up s root_shard
      ]
      else finished []

  -- The rest of reconcile once the finalizer is there.
  unfoldable pub reconcile_shard : Shard → Outcome Run
  unfolding reconcile_with fetch_root_shard
  reconcile_shard s =
      let fetched = fetch_root_shard C.root_shard s.spec.root_shard in
      elim fetched.1 [
        | none ↦ done (finished (fetched.0 ∷ []))
        | some root_shard ↦
            (get_root_shard_children C.shards root_shard >>= (λ children.
              done (with_condition fetched.0 (reconcile_with s root_shard children))))
      ]

  unfoldable pub reconcile : ShardObject → Outcome Run
  unfolding handle_deletion reconcile_shard
  reconcile s =
      let fs = L.sorted_set (s.finalizers ++ (cleanup_finalizer ∷ [])) in
      let rest = reconcile_shard s.object in
      if s.deleting
      then done (handle_deletion s)
      else (if contains s.finalizers cleanup_finalizer
          then rest
          else done (
              asking (patch_finalizers fs) (
                or_return [] (wrapped "failed to ensure cleanup finalizer" (C.patch_finalizers fs))
                  (finished []))))
