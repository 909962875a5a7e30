-- ===== src/Controllers/Waiting.antt =====
-- When the virtual workspace controller publishes its compiled object
-- (pkg/controller/virtualworkspace/controller.go).
use kcp_operator.Prelude.{
  String, ◌≡◌, refl, true, Bool-cases, Option, none, some, is_some, List, [], ◌∷◌, inl, inr, ◌||◌,
  Member, All,
}
use kcp_operator.Prelude.Maps.{Map}
use kcp_operator.Api.Objects.{RootShard, Shard, VirtualWorkspace, CompiledVirtualWorkspace}
use kcp_operator.Status.{Condition, certificate_revisions}
use kcp_operator.Status.Readiness.{revisions-IsReady}
use kcp_operator.Certificates.{CertificateLibrary}
use kcp_operator.Kubeconfigs.{NamedSecretReconciler}
use kcp_operator.Bundles.Owners.{virtual_workspace_merged_client_ca_bundle_reconciler}
use kcp_operator.Bundles.Totality.{sum_cases}
use kcp_operator.Controllers.{
  Cluster, publish_virtual_workspace, secrets, asking, Run, or_return, reconcile_certificates,
  reference_condition,
}
use kcp_operator.Controllers.VirtualWorkspaces.{
  resolve, certificate_reconcilers, published, bundled, reconcile_with, reconcile,
}
use kcp_operator.Controllers.Publishing.{EnsuredReady, ensured_by}

module _ (c : CompiledVirtualWorkspace) where
  abbrev pub Publishes : Run → Type 0
  Publishes run = Member (publish_virtual_workspace c) run.requests

  asked-Publishes :
      (rs : List NamedSecretReconciler) (run : Run)
      → Publishes (asking (secrets rs) run)
      → Publishes run
  asked-Publishes rs run (inl e) = cc e
  asked-Publishes rs run (inr p) = p

  returned-Publishes :
      (conditions : List Condition) (e : Option String) (run : Run)
      → Publishes (or_return conditions e run)
      → (e ≡ none) × Publishes run
  returned-Publishes conditions none run p = (refl, p)
  returned-Publishes conditions (some e) run p = elim p [ ]

module _ (C : Cluster) (L : CertificateLibrary) (c : CompiledVirtualWorkspace)
    (vw : VirtualWorkspace) where
  -- The bundle is written if one of the specs asks for it.
  abbrev pub BundleWritten : RootShard → Type 0
  BundleWritten r =
      (is_some r.spec.client_ca_bundle_ref || is_some vw.spec.client_ca_bundle_ref) ≡ true
      → C.secrets (virtual_workspace_merged_client_ca_bundle_reconciler C.secret vw r ∷ []) ≡ none

  module _ (conditions : List Condition) (r : RootShard) (shard : Option Shard) where
    bundled-Publishes :
        (run : Run)
        → Publishes c (bundled C L vw conditions r run)
        → BundleWritten r × Publishes c run
    unfolding bundled
    bundled-Publishes run p =
        let bundle = virtual_workspace_merged_client_ca_bundle_reconciler C.secret vw r ∷ [] in
        elim (Bool-cases
          (is_some r.spec.client_ca_bundle_ref || is_some vw.spec.client_ca_bundle_ref)) [
            | inr b ↦ (λ asked. cc (asked, b), rw (b, bundled) at p)
            | inl b ↦
                let h = returned-Publishes c conditions (C.secrets bundle) run (
                  asked-Publishes c bundle (or_return conditions (C.secrets bundle) run)
                    (rw (b, bundled) at p)) in
                (λ asked. h.0, h.1)
          ]

    published_revisions :
        (revisions : Option (Map String))
        → Publishes c (published C L vw conditions r shard revisions)
        → (m : Map String) × (revisions ≡ some m)
    unfolding published
    published_revisions none p = elim p [ ]
    published_revisions (some m) p = (m, refl)

    reconcile_with_ready :
        Publishes c (reconcile_with C L vw conditions r shard)
        → BundleWritten r × All (EnsuredReady C.certificate) (certificate_reconcilers C L vw r)
    unfolding reconcile_with
    reconcile_with_ready (inl e) = cc e
    reconcile_with_ready (inr p) =
        let certs = certificate_reconcilers C L vw r in
        let captured = reconcile_certificates C.certificate certs in
        let last = published C L vw conditions r shard (certificate_revisions captured.0) in
        let (ok, p1) =
          returned-Publishes c conditions captured.1 (bundled C L vw conditions r last) p in
        let (written, p2) = bundled-Publishes last p1 in
        let (m, found) = published_revisions (certificate_revisions captured.0) p2 in
        (written, ensured_by C.certificate certs ok (revisions-IsReady captured.0 found))

  abbrev pub Waited : Type 0
  Waited =
      (r : RootShard) × (shard : Option Shard) × (resolve C vw ≡ inl (r, shard))
      × BundleWritten r
      × All (EnsuredReady C.certificate) (certificate_reconcilers C L vw r)

  -- Let a reconciliation publish a compiled virtual workspace, whatever errors it returns. Then the
  -- target was resolved to a root shard, the merged bundle of client authorities was written if the
  -- root shard or the virtual workspace asks for one, and every certificate that the controller asks
  -- for was ensured and is ready.
  pub reconcile-Waited : Publishes c (reconcile C L vw) → Waited
  unfolding reconcile
  reconcile-Waited p = elim (sum_cases (resolve C vw)) [
    | inr (m, e) ↦ elim (rw (e, reconcile) at p) [ ]
    | inl (found, e) ↦
        let h =
          reconcile_with_ready
            (reference_condition "True" "ReferenceValid" "Target reference is valid" ∷ []) found.0
            found.1 (rw (e, reconcile) at p) in
        (found.0, found.1, e, h.0, h.1)
  ]
