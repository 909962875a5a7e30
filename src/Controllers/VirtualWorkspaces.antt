-- ===== src/Controllers/VirtualWorkspaces.antt =====
-- pkg/controller/virtualworkspace/controller.go
use kcp_operator.Prelude.{
  String, ◌<>◌, Option, none, some, is_some, List, [], ◌∷◌, ◌⊎◌, inl, inr, ◌||◌, if◌then◌else◌,
}
use kcp_operator.Prelude.Maps.{Map}
use kcp_operator.Api.Objects.{RootShard, Shard, VirtualWorkspace}
use kcp_operator.Compile.{compiled_virtual_workspace_reconciler, mutate_keys}
use kcp_operator.Status.{Condition, certificate_revisions}
use kcp_operator.Certificates.{CertificateLibrary, NamedCertificateReconciler}
use kcp_operator.Certificates.VirtualWorkspaces.{
  client_certificate_reconciler, server_certificate_reconciler,
}
use kcp_operator.Bundles.Owners.{virtual_workspace_merged_client_ca_bundle_reconciler}
use kcp_operator.Controllers.{
  named, reference_condition, Cluster, certificates, secrets, publish_virtual_workspace, Run,
  finished, failed, asking, or_return, reconcile_certificates, asked_certificates,
}

module _ (C : Cluster) where
  abbrev at_root_shard : String → Option Shard → (RootShard × Option Shard) ⊎ String
  at_root_shard name shard = elim (C.root_shard name) [
    | inl r ↦ inl (r, shard)
    | inr e ↦ inr ("failed to get RootShard: " <> e)
  ]

  -- The switch over the target: its root shard, and the shard if it is one.
  unfoldable pub resolve : VirtualWorkspace → (RootShard × Option Shard) ⊎ String
  resolve vw = elim vw.spec.target.root_shard_ref [
    | some name ↦ at_root_shard name none
    | none ↦ elim vw.spec.target.shard_ref [
      | none ↦ inr "no valid target for VirtualWorkspace found"
      | some name ↦ elim (C.shard name) [
        | inr e ↦ inr ("failed to get Shard: " <> e)
        | inl s ↦ elim (named s.spec.root_shard) [
          | none ↦ inr "the Shard does not reference a (valid) RootShard"
          | some root ↦ at_root_shard root (some s)
        ]
      ]
    ]
  ]

  module _ (L : CertificateLibrary) where
    unfoldable pub certificate_reconcilers :
        VirtualWorkspace → RootShard → List NamedCertificateReconciler
    certificate_reconcilers vw root_shard =
        client_certificate_reconciler L vw root_shard
        ∷ server_certificate_reconciler L vw root_shard
        ∷ []

    module _ (vw : VirtualWorkspace) (conditions : List Condition) where
      unfoldable pub published : RootShard → Option Shard → Option (Map String) → Run
      unfolding mutate_keys
      published root_shard shard none = finished conditions
      published root_shard shard (some revisions) =
          let compiled =
            compiled_virtual_workspace_reconciler vw root_shard shard
              (mutate_keys revisions "cert-" "-revision") in
          asking (publish_virtual_workspace compiled)
            (or_return conditions (C.compiled_virtual_workspace compiled) (finished conditions))

      -- The bundle, if one of the specs asks for it, and what comes behind.
      unfoldable pub bundled : RootShard → Run → Run
      bundled root_shard run =
          let bundle =
            virtual_workspace_merged_client_ca_bundle_reconciler C.secret vw root_shard ∷ [] in
          if is_some root_shard.spec.client_ca_bundle_ref || is_some vw.spec.client_ca_bundle_ref
          then asking (secrets bundle) (or_return conditions (C.secrets bundle) run)
          else run

      unfoldable pub reconcile_with : RootShard → Option Shard → Run
      unfolding certificate_reconcilers published bundled reconcile_certificates asked_certificates
      reconcile_with root_shard shard =
          let certs = certificate_reconcilers vw root_shard in
          let captured = reconcile_certificates C.certificate certs in
          asking (certificates (asked_certificates C.certificate certs)) (
            or_return conditions captured.1
              (bundled root_shard (published root_shard shard (certificate_revisions captured.0))))

    unfoldable pub reconcile : VirtualWorkspace → Run
    unfolding resolve reconcile_with
    reconcile vw = elim (resolve vw) [
      | inr e ↦ failed (reference_condition "False" "ReferenceNotFound" e ∷ []) e
      | inl (root_shard, shard) ↦
          reconcile_with vw
            (reference_condition "True" "ReferenceValid" "Target reference is valid" ∷ [])
            root_shard shard
    ]
