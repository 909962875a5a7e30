-- ===== src/Controllers/Made/Shards.antt =====
-- The Secrets that the reconciliation of a shard makes (pkg/controller/shard/controller.go).
use kcp_operator.Prelude.{
  ℕ, String, ◌<>◌, ◌≡◌, refl, sym, true, Option, some, is_some, List, [], ◌∷◌, map, ◌⊎◌, inl, inr,
  ◌||◌, Bool-cases, Member,
}
use kcp_operator.Api.Objects.{Shard, RootShard}
use kcp_operator.Certificates.{CertificateLibrary}
use kcp_operator.Certificates.Secrets.{
  secret_of, shard_server, shard_service_account, shard_client, shard_mounts_proxy, shard_admin,
  shard_external_admin,
}
use kcp_operator.Kubeconfigs.Shards.{
  root_shard_client_kubeconfig_reconciler, logical_cluster_admin_kubeconfig_reconciler,
  external_logical_cluster_admin_kubeconfig_reconciler,
}
use kcp_operator.Bundles.Owners.{
  shard_merged_ca_bundle_reconciler, shard_merged_client_ca_bundle_reconciler,
}
use kcp_operator.Status.{Certificate, certificate_revisions}
use kcp_operator.Kubeconfigs.{KubeconfigFile}
use kcp_operator.Controllers.{Cluster, Run, noting_secrets, reconcile_certificates, with_condition}
use kcp_operator.Controllers.Publishing.{done_injective}
use kcp_operator.Controllers.Shards
use kcp_operator.Children.{fetch_root_shard, get_root_shard_children}
use kcp_operator.Render.Pods.{Outcome, done, panic, ◌>>=◌}
use kcp_operator.Controllers.Made.{Made, Made-note, no_note, asked-Member}

module _ (L : CertificateLibrary) (write : KubeconfigFile → List ℕ ⊎ String) (C : Cluster) where
  module _ (s : Shard) (r : RootShard) (children : List Shard × List String) where
    abbrev pub MadeForShard : String → Type 0
    MadeForShard n = Made n (Shards.reconcile_with L write C s r children).requests

    abbrev captured : List Certificate × Option String
    captured = reconcile_certificates C.certificate (Shards.certificate_reconcilers L s r)

    abbrev bundles_run : Run
    bundles_run =
        Shards.with_bundles L write C s r
          (Shards.resolved L write C s r children (certificate_revisions captured.0))

    abbrev kubeconfigs_run : Run
    kubeconfigs_run = noting_secrets C (Shards.kubeconfig_reconcilers write s r) bundles_run

    abbrev pub ShardSucceeds : Type 0
    ShardSucceeds = (Shards.reconcile_with L write C s r children).errors ≡ []

    shard_cert :
        (n : String)
        → ShardSucceeds
        → Member n (map secret_of (Shards.certificate_reconcilers L s r))
        → MadeForShard n
    unfolding Shards.reconcile_with
    shard_cert n ok m = inl (
        asked-Member n C.certificate (Shards.certificate_reconcilers L s r)
          (no_note captured.1 kubeconfigs_run ok) m)

    shard_kubeconfig :
        (n : String)
        → Member n (map (λ k. k.name) (Shards.kubeconfig_reconcilers write s r))
        → MadeForShard n
    unfolding Shards.reconcile_with
    shard_kubeconfig n m = inr (Made-note n captured.1 kubeconfigs_run (inl m))

    shard_bundle :
        (n : String)
        → ((run : Run) → Made n (Shards.with_bundles L write C s r run).requests)
        → MadeForShard n
    unfolding Shards.reconcile_with
    shard_bundle n m = inr (
        Made-note n captured.1 kubeconfigs_run (
          inr (
            Made-note n (C.secrets (Shards.kubeconfig_reconcilers write s r)) bundles_run
              (m (Shards.resolved L write C s r children (certificate_revisions captured.0))))))

    client_bundle :
        (is_some r.spec.client_ca_bundle_ref || is_some s.spec.client_ca_bundle_ref) ≡ true
        → (run : Run)
        → Made (s.name <> "-merged-client-ca") (Shards.with_bundles L write C s r run).requests
    unfolding Shards.with_bundles shard_merged_client_ca_bundle_reconciler
    client_bundle h run =
        let name = s.name <> "-merged-client-ca" in
        let client = shard_merged_client_ca_bundle_reconciler C.secret s r ∷ [] in
        let bundle = shard_merged_ca_bundle_reconciler C.secret s ∷ [] in
        elim (Bool-cases (is_some s.spec.ca_bundle_secret_ref)) [
          | inl b ↦
              rw (b, h)
                (inr (
                  Made-note name (C.secrets bundle) (noting_secrets C client run) (inl (inl refl))))
          | inr b ↦ rw (b, h) (inl (inl refl))
        ]

    pub shard_merged_client_ca :
        (is_some r.spec.client_ca_bundle_ref || is_some s.spec.client_ca_bundle_ref) ≡ true
        → MadeForShard (s.name <> "-merged-client-ca")
    shard_merged_client_ca h = shard_bundle (s.name <> "-merged-client-ca") (client_bundle h)

    ca_bundle :
        is_some s.spec.ca_bundle_secret_ref ≡ true
        → (run : Run)
        → Made (s.name <> "-merged-ca-bundle") (Shards.with_bundles L write C s r run).requests
    unfolding Shards.with_bundles shard_merged_ca_bundle_reconciler
    ca_bundle h run = rw h (inl (inl refl))

    pub shard_merged_ca_bundle :
        is_some s.spec.ca_bundle_secret_ref ≡ true → MadeForShard (s.name <> "-merged-ca-bundle")
    shard_merged_ca_bundle h = shard_bundle (s.name <> "-merged-ca-bundle") (ca_bundle h)

    -- The certificates of a shard.
    pub shard_certs :
        ShardSucceeds
        → MadeForShard (s.name <> "-server")
          × MadeForShard (s.name <> "-service-account")
          × MadeForShard (s.name <> "-client")
          × MadeForShard (s.name <> "-mounts-proxy")
          × MadeForShard (s.name <> "-logical-cluster-admin")
          × MadeForShard (s.name <> "-external-logical-cluster-admin")
    unfolding Shards.certificate_reconcilers
    shard_certs ok = (
      shard_cert (s.name <> "-server") ok (inl (sym (shard_server L s r))),
      shard_cert (s.name <> "-service-account") ok (inr (inl (sym (shard_service_account L s r)))),
      shard_cert (s.name <> "-client") ok (inr (inr (inr (inl (sym (shard_client L s r)))))),
      shard_cert (s.name <> "-mounts-proxy") ok
          (inr (inr (inr (inr (inl (sym (shard_mounts_proxy L s r))))))),
      shard_cert (s.name <> "-logical-cluster-admin") ok
          (inr (inr (inr (inr (inr (inl (sym (shard_admin L s r)))))))),
      shard_cert (s.name <> "-external-logical-cluster-admin") ok
          (inr (inr (inr (inr (inr (inr (inl (sym (shard_external_admin L s r))))))))),
    )

    pub shard_kubeconfigs :
        MadeForShard (s.name <> "-client-kubeconfig")
        × MadeForShard (s.name <> "-logical-cluster-admin-kubeconfig")
        × MadeForShard (s.name <> "-external-logical-cluster-admin-kubeconfig")
    unfolding Shards.kubeconfig_reconcilers root_shard_client_kubeconfig_reconciler
        logical_cluster_admin_kubeconfig_reconciler
        external_logical_cluster_admin_kubeconfig_reconciler
    shard_kubeconfigs = (
      shard_kubeconfig (s.name <> "-client-kubeconfig") (inl refl),
      shard_kubeconfig (s.name <> "-logical-cluster-admin-kubeconfig") (inr (inl refl)),
      shard_kubeconfig (s.name <> "-external-logical-cluster-admin-kubeconfig")
          (inr (inr (inl refl))),
    )

  abbrev pub ShardRuns : Shard → RootShard → Run → Type 0
  ShardRuns s r run =
      (children : List Shard × List String) × (run
        ≡ with_condition (fetch_root_shard C.root_shard s.spec.root_shard).0
            (Shards.reconcile_with L write C s r children))

  with_children_runs :
      (s : Shard) (r : RootShard) (run : Run) (children : Outcome (List Shard × List String))
      → (children >>= (λ ch. done (
          with_condition
            (fetch_root_shard C.root_shard s.spec.root_shard).0
            (Shards.reconcile_with L write C s r ch))))
        ≡ done run
      → ShardRuns s r run
  with_children_runs s r run (panic m) ran = cc ran
  with_children_runs s r run (done children) ran = (children, sym (done_injective ran))

  -- A reconciliation that finds the root shard comes to the certificates.
  pub reconcile_shard_runs :
      (s : Shard) (r : RootShard) (run : Run)
      → (fetch_root_shard C.root_shard s.spec.root_shard).1 ≡ some r
      → Shards.reconcile_shard L write C s ≡ done run
      → ShardRuns s r run
  unfolding Shards.reconcile_shard
  reconcile_shard_runs s r run e ran =
      with_children_runs s r run (get_root_shard_children C.shards r)
        (rw (e, Shards.reconcile_shard) at ran)
