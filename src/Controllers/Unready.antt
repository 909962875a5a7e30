-- ===== src/Controllers/Unready.antt =====
-- The compiled shard that is published although its certificates could not be ensured
-- (pkg/controller/shard/controller.go).
use kcp_operator.Prelude.{
  ℕ, String, ◌≡◌, refl, Bool, true, false, ◌||◌, Option, none, some, is_some, List, [], ◌∷◌, ◌⊎◌,
  inl, inr, contains, if◌then◌else◌,
}
use kcp_operator.Api.Objects.{Shard, RootShard, CompiledShard}
use kcp_operator.Status.{certificate_revisions}
use kcp_operator.Children.{fetch_root_shard, get_root_shard_children}
use kcp_operator.Compile.{compiled_shard_reconciler, mutate_keys}
use kcp_operator.Render.Pods.{done}
use kcp_operator.Certificates.{CertificateLibrary}
use kcp_operator.Certificates.Shards.{server_certificate_reconciler}
use kcp_operator.Kubeconfigs.{KubeconfigFile, NamedSecretReconciler}
use kcp_operator.Bundles.Owners.{
  shard_merged_ca_bundle_reconciler, shard_merged_client_ca_bundle_reconciler,
}
use kcp_operator.Controllers.{
  Cluster, not_read, Run, or_note, with_condition, noting_secrets, reconcile_certificates,
}
use kcp_operator.Controllers.Shards.{
  ShardObject, cleanup_finalizer, certificate_reconcilers, kubeconfig_reconcilers, published,
  with_bundles, resolved, reconcile_with, reconcile_shard, reconcile,
}
use kcp_operator.Controllers.Publishing.{Publishes}

module _ (c : CompiledShard) where
  note_keeps : (e : Option String) (run : Run) → Publishes c run → Publishes c (or_note e run)
  note_keeps none run p = p
  note_keeps (some e) run p = p

  secrets_keep :
      (C : Cluster) (rs : List NamedSecretReconciler) (run : Run)
      → Publishes c run
      → Publishes c (noting_secrets C rs run)
  secrets_keep C rs run p = inr (note_keeps (C.secrets rs) run p)

  if_keeps :
      (C : Cluster) (b : Bool) (rs : List NamedSecretReconciler) (run : Run)
      → Publishes c run
      → Publishes c (if b then noting_secrets C rs run else run)
  if_keeps C true rs run p = secrets_keep C rs run p
  if_keeps C false rs run p = p

module _ (L : CertificateLibrary) (write : KubeconfigFile → List ℕ ⊎ String) (C : Cluster) where
  module _ (s : Shard) (r : RootShard) where
    bundles_keep :
        (c : CompiledShard) (run : Run)
        → Publishes c run
        → Publishes c (with_bundles L write C s r run)
    unfolding with_bundles
    bundles_keep c run p =
        let client = shard_merged_client_ca_bundle_reconciler C.secret s r ∷ [] in
        let has_client =
          is_some r.spec.client_ca_bundle_ref || is_some s.spec.client_ca_bundle_ref in
        if_keeps c C (is_some s.spec.ca_bundle_secret_ref)
          (shard_merged_ca_bundle_reconciler C.secret s ∷ [])
          (if has_client then noting_secrets C client run else run)
          (if_keeps c C has_client client run p)

    module _ (children : List Shard) where
      abbrev pub unlabelled : CompiledShard
      unlabelled = compiled_shard_reconciler s r none children []

      resolved-Publishes :
          s.spec.kcp_virtual_workspace ≡ none
          → Publishes unlabelled (resolved L write C s r (children, []) (some []))
      unfolding resolved published mutate_keys
      resolved-Publishes vw = rw vw (inl refl)

      none_captured :
          (e : String)
          → C.certificate (server_certificate_reconciler L s r) ≡ not_read e
          → (reconcile_certificates C.certificate (certificate_reconcilers L s r)).0 ≡ []
      unfolding certificate_reconcilers reconcile_certificates
      none_captured e failed = rw failed refl

      reconcile_with-Publishes :
          (e : String)
          → s.spec.kcp_virtual_workspace ≡ none
          → C.certificate (server_certificate_reconciler L s r) ≡ not_read e
          → Publishes unlabelled (reconcile_with L write C s r (children, []))
      unfolding reconcile_with certificate_revisions
      reconcile_with-Publishes e vw failed =
          let captured = reconcile_certificates C.certificate (certificate_reconcilers L s r) in
          let kubeconfigs = kubeconfig_reconcilers write s r in
          let last = resolved L write C s r (children, []) (certificate_revisions captured.0) in
          let p : Publishes unlabelled last = rw (none_captured e failed) (resolved-Publishes vw) in
          let bundles = with_bundles L write C s r last in
          inr (
            note_keeps unlabelled captured.1 (noting_secrets C kubeconfigs bundles)
              (secrets_keep unlabelled C kubeconfigs bundles (bundles_keep unlabelled last p)))

  -- Let a shard with the cleanup finalizer not be deleted, its root shard be found and its children be
  -- listed, and let it name no virtual workspace. If its server certificate cannot be read, then the
  -- reconciliation still publishes the compiled shard, with no revision of a certificate.
  pub reconcile-Publishes_unready :
      (s : ShardObject) (r : RootShard) (children : List Shard) (e : String)
      → s.deleting ≡ false
      → contains s.finalizers cleanup_finalizer ≡ true
      → (fetch_root_shard C.root_shard s.object.spec.root_shard).1 ≡ some r
      → get_root_shard_children C.shards r ≡ done (children, [])
      → s.object.spec.kcp_virtual_workspace ≡ none
      → C.certificate (server_certificate_reconciler L s.object r) ≡ not_read e
      → (run : Run) × (reconcile L write C s ≡ done run)
        × Publishes (compiled_shard_reconciler s.object r none children []) run
  unfolding reconcile reconcile_shard
  reconcile-Publishes_unready s r children e alive has found listed vw failed =
      let fetched = fetch_root_shard C.root_shard s.object.spec.root_shard in
      (
        with_condition fetched.0 (reconcile_with L write C s.object r (children, [])),
        rw (alive, has, found, listed, reconcile_shard) refl,
        reconcile_with-Publishes s.object r children e vw failed,
      )
