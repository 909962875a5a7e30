-- ===== src/Controllers/Readiness.antt =====
-- When the shard controller publishes a compiled shard (pkg/controller/shard/controller.go).
use kcp_operator.Prelude.{
  subst, ◌++◌, ℕ, String, ◌≡◌, refl, sym, Bool, true, false, not, ◌&&◌, Option, none, some, is_some,
  List, [], ◌∷◌, ◌⊎◌, ◌||◌, inl, inr, Bool-cases, Option-cases, All, contains, if◌then◌else◌,
}
use kcp_operator.Prelude.Maps.{Map}
use kcp_operator.Api.Objects.{Shard, RootShard, VirtualWorkspace, CompiledShard}
use kcp_operator.Status.{Condition, Certificate, certificate_revisions}
use kcp_operator.Status.Readiness.{revisions-IsReady}
use kcp_operator.Children.{fetch_root_shard, get_root_shard_children}
use kcp_operator.Render.Pods.{Outcome, done, panic, ◌>>=◌}
use kcp_operator.Certificates.{CertificateLibrary}
use kcp_operator.Kubeconfigs.{KubeconfigFile}
use kcp_operator.Bundles.Owners.{
  shard_merged_ca_bundle_reconciler, shard_merged_client_ca_bundle_reconciler,
}
use kcp_operator.Controllers.{
  with_condition, with_condition, Cluster, Run, or_note, noting_secrets, reconcile_certificates,
  wrapped, first_error,
}
use kcp_operator.Controllers.Shards.{
  ShardObject, cleanup_finalizer, virtual_workspace_of, certificate_reconcilers,
  kubeconfig_reconcilers, published, with_bundles, resolved, reconcile_with, reconcile_shard,
  reconcile,
}
use kcp_operator.Controllers.Publishing.{
  Publishes, EnsuredReady, done_injective, ensured_by, strip_note, strip_secrets, strip_if,
  patching_silent,
}
use kcp_operator.Controllers.Deletion.{handle_deletion_silent}

module _ (L : CertificateLibrary) (write : KubeconfigFile → List ℕ ⊎ String) (C : Cluster) where
  module _ (c : CompiledShard) (s : Shard) (r : RootShard) where
    strip_bundles :
        (run : Run)
        → (with_bundles L write C s r run).errors ≡ []
        → Publishes c (with_bundles L write C s r run)
        → (run.errors ≡ []) × Publishes c run
    unfolding with_bundles
    strip_bundles run ok p =
        let client = shard_merged_client_ca_bundle_reconciler C.secret s r ∷ [] in
        let has_client =
          is_some r.spec.client_ca_bundle_ref || is_some s.spec.client_ca_bundle_ref in
        let outer =
          strip_if c C (is_some s.spec.ca_bundle_secret_ref)
            (shard_merged_ca_bundle_reconciler C.secret s ∷ [])
            (if has_client then noting_secrets C client run else run) ok p in
        strip_if c C has_client client run outer.0 outer.1

    published_revisions :
        (vw : Option VirtualWorkspace) (shards : List Shard) (complete : Bool)
        (revisions : Option (Map String))
        → Publishes c (published L write C s r vw shards complete revisions)
        → (m : Map String) × (revisions ≡ some m)
    unfolding published
    published_revisions vw shards complete none p = elim p [ ]
    published_revisions vw shards complete (some m) p = (m, refl)

    resolved_revisions :
        (children : List Shard × List String) (revisions : Option (Map String))
        → (resolved L write C s r children revisions).errors ≡ []
        → Publishes c (resolved L write C s r children revisions)
        → (m : Map String) × (revisions ≡ some m)
    unfolding resolved
    resolved_revisions children revisions ok p =
        let vw = virtual_workspace_of C.virtual_workspace s.spec.kcp_virtual_workspace in
        let list_error = wrapped "failed to list shards" (first_error children.1) in
        let complete = not (is_some vw.1) && not (is_some list_error) in
        let last = published L write C s r vw.0 children.0 complete revisions in
        let first = strip_note c vw.1 (or_note list_error last) ok p in
        let second = strip_note c list_error last first.1 first.2 in
        published_revisions vw.0 children.0 complete revisions second.2

    abbrev captured : List Certificate × Option String
    captured = reconcile_certificates C.certificate (certificate_reconcilers L s r)

    reconcile_with_ready :
        (children : List Shard × List String)
        → (reconcile_with L write C s r children).errors ≡ []
        → Publishes c (reconcile_with L write C s r children)
        → All (EnsuredReady C.certificate) (certificate_reconcilers L s r)
    unfolding reconcile_with
    reconcile_with_ready children ok (inl e) = cc e
    reconcile_with_ready children ok (inr p) =
        let revisions = certificate_revisions captured.0 in
        let last = resolved L write C s r children revisions in
        let bundles = with_bundles L write C s r last in
        let kubeconfigs = kubeconfig_reconcilers write s r in
        let (certs_ok, ok1, p1) =
          strip_note c captured.1 (noting_secrets C kubeconfigs bundles) ok p in
        let (ok2, p2) = strip_secrets c C kubeconfigs bundles ok1 p1 in
        let (ok3, p3) = strip_bundles last ok2 p2 in
        let (m, found) = resolved_revisions children revisions ok3 p3 in
        ensured_by C.certificate (certificate_reconcilers L s r) certs_ok
          (revisions-IsReady captured.0 found)

  with_children_ready :
      (s : Shard) (c : CompiledShard) (r : RootShard) (cond : Condition) (run : Run)
      (children : Outcome (List Shard × List String))
      → (children >>= (λ ch. done (with_condition cond (reconcile_with L write C s r ch))))
        ≡ done run
      → run.errors ≡ []
      → Publishes c run
      → All (EnsuredReady C.certificate) (certificate_reconcilers L s r)
  with_children_ready s c r cond run (panic m) ran ok p = cc ran
  with_children_ready s c r cond run (done children) ran ok p =
      let same = done_injective ran in
      reconcile_with_ready c s r children (subst (λ x. x.errors ≡ []) (sym same) ok)
        (subst (Publishes c) (sym same) p)

  abbrev FoundReady : Shard → Type 0
  FoundReady s =
      (r : RootShard) × ((fetch_root_shard C.root_shard s.spec.root_shard).1 ≡ some r)
      × All (EnsuredReady C.certificate) (certificate_reconcilers L s r)

  reconcile_shard_ready :
      (s : Shard) (c : CompiledShard) (run : Run)
      → reconcile_shard L write C s ≡ done run
      → run.errors ≡ []
      → Publishes c run
      → FoundReady s
  unfolding reconcile_shard
  reconcile_shard_ready s c run ran ok p =
      let fetched = fetch_root_shard C.root_shard s.spec.root_shard in
      elim (Option-cases fetched.1) [
        | inl e ↦
            let same = done_injective (rw (e, reconcile_shard) at ran) in
            elim (subst (Publishes c) (sym same) p) [ ]
        | inr (r, e) ↦
            let ran2 = rw (e, reconcile_shard) at ran in
            let children = get_root_shard_children C.shards r in
            (r, e, with_children_ready s c r fetched.0 run children ran2 ok p)
      ]

  -- What holds when a compiled shard is published.
  abbrev pub PublishedReady : ShardObject → CompiledShard → Type 0
  PublishedReady s c =
      (s.deleting ≡ false)
      × (contains s.finalizers cleanup_finalizer ≡ true)
      × ((r : RootShard) × ((fetch_root_shard C.root_shard s.object.spec.root_shard).1 ≡ some r)
          × All (EnsuredReady C.certificate) (certificate_reconcilers L s.object r))

  -- Let a reconciliation of a shard return no error and publish a compiled shard. Then the shard is not
  -- being deleted, it has the cleanup finalizer, its root shard was found, and every certificate that
  -- the controller asks for was ensured and is ready.
  pub reconcile-PublishedReady :
      (s : ShardObject) (c : CompiledShard) (run : Run)
      → reconcile L write C s ≡ done run
      → run.errors ≡ []
      → Publishes c run
      → PublishedReady s c
  unfolding reconcile reconcile_shard
  reconcile-PublishedReady s c run ran ok p =
      let fs = L.sorted_set (s.finalizers ++ (cleanup_finalizer ∷ [])) in
      let e = wrapped "failed to ensure cleanup finalizer" (C.patch_finalizers fs) in
      elim (Bool-cases s.deleting) [
        | inl d ↦
            let same = done_injective (rw (d, reconcile) at ran) in
            elim (handle_deletion_silent L write C c s (subst (Publishes c) (sym same) p)) [ ]
        | inr d ↦ elim (Bool-cases (contains s.finalizers cleanup_finalizer)) [
          | inl b ↦
              let ran2 = rw (d, b, reconcile) at ran in
              (d, b, reconcile_shard_ready s.object c run ran2 ok p)
          | inr b ↦
              let same = done_injective (rw (d, b, reconcile) at ran) in
              elim (patching_silent c fs [] [] e (subst (Publishes c) (sym same) p)) [ ]
        ]
      ]
