-- ===== src/Tests/VirtualWorkspaces.antt =====
-- A reconciliation of a concrete virtual workspace, which targets a shard.
use kcp_operator.Prelude.{refl, some, inl, inr}
use kcp_operator.Api.Objects.{CompiledVirtualWorkspace}
use kcp_operator.Compile.{compiled_virtual_workspace_reconciler, mutate_keys}
use kcp_operator.Status.{certificate_ready, certificate_revisions}
use kcp_operator.Controllers.{reconcile_certificates}
use kcp_operator.Controllers.VirtualWorkspaces.{
  resolve, certificate_reconcilers, published, bundled, reconcile_with, reconcile,
}
use kcp_operator.Controllers.Waiting.{Publishes, Waited, reconcile-Waited}
use kcp_operator.Tests.Samples.{shard, root_shard, virtual_workspace}
use kcp_operator.Tests.Controllers.{cluster, ready, library, or_empty}

abbrev labelled : CompiledVirtualWorkspace
labelled =
    compiled_virtual_workspace_reconciler (virtual_workspace "vw") (root_shard "root")
      (some (shard "alpha"))
      (mutate_keys
        (or_empty (
          certificate_revisions
            (reconcile_certificates ready (
              certificate_reconcilers (cluster ready) library (virtual_workspace "vw")
                (root_shard "root"))).0))
        "cert-" "-revision")

vw_published : Publishes labelled (reconcile (cluster ready) library (virtual_workspace "vw"))
unfolding reconcile resolve reconcile_with reconcile_certificates certificate_reconcilers bundled
    published certificate_ready certificate_revisions
vw_published = inr (inl refl)

reconcile-Waited_example : Waited (cluster ready) library labelled (virtual_workspace "vw")
reconcile-Waited_example =
    reconcile-Waited (cluster ready) library labelled (virtual_workspace "vw") vw_published
