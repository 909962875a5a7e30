-- ===== src/Tests/Rendering.antt =====
-- Rendering of concrete shards.
use kcp_operator.Prelude.{ℕ, String, ◌≡◌, ◌≢◌, refl, Bool, Option, none, some, [], ◌∷◌, contains}
use kcp_operator.Prelude.Maps.{lookup, or_else}
use kcp_operator.Api.Pod.{Container, Deployment}
use kcp_operator.Api.Shard.{CommonShardSpec}
use kcp_operator.Render.Pods.{done}
use kcp_operator.Render.Resources.{Heap, merge_resources}
use kcp_operator.Render.Resources.Sharing.{refs_at, lookup-merge_resources}
use kcp_operator.Render.Extension.{Extension, IsClosed, extended}
use kcp_operator.Render.Authentication.{apply_auth_configuration}
use kcp_operator.Render.Templates.{apply_deployment_template, apply_deployment_spec_template}
use kcp_operator.Render.Templates.Laws.{selector_still_matches}
use kcp_operator.Render.Laws.{apply_auth_configuration-extended}
use kcp_operator.CompiledShard.Deployment.{deployment_reconciler}
use kcp_operator.CompiledShard.Args.{get_args}
use kcp_operator.CompiledShard.Laws.{IsComplete, has_mount_proxy, deployment_reconciler-IsComplete}
use kcp_operator.CompiledShard.SharedDefaults.{ExtraMountsResolve}
use kcp_operator.Tests.Samples.{
  compiled, empty_pod, common_spec, auth, defaults, empty_deployment, requirements, template,
  selected,
}

-- A stand-in for the version library: it reads no text as a version.
abbrev no_version : String → Option Bool
no_version tag = none

abbrev no_check : Bool → Bool
no_check v = v

mounts_resolve : ExtraMountsResolve (compiled "alpha" none)
unfolding contains
mounts_resolve = (refl, tt)

deployment_reconciler-IsComplete_example :
    (rendered : Deployment × Heap) × (main : Container) × (deployment_reconciler no_version no_check
        (compiled "alpha" none)
        (refs_at 0 1)
        empty_deployment
        defaults
      ≡ done rendered)
    × IsComplete
        (get_args
          (compiled "alpha" none)
          (has_mount_proxy no_version no_check (compiled "alpha" none)))
        main
        rendered.0
    × ((main.resources, rendered.1) ≡ merge_resources (refs_at 0 1) none defaults)
deployment_reconciler-IsComplete_example =
    deployment_reconciler-IsComplete no_version no_check (compiled "alpha" none) (refs_at 0 1)
      empty_deployment defaults mounts_resolve

different : ◌≢◌ {A = ℕ} 0 1
different e = cc e

abbrev container : Container
container = record {
  name = "kcp";
  image = "";
  command = [];
  args = "--v=2" ∷ [];
  ports = [];
  volume_mounts = [];
  resources = refs_at 0 1;
  security_context = none;
  startup_probe = none;
  readiness_probe = none;
  liveness_probe = none;
}

abbrev running : Deployment
running = record empty_deployment {
  spec = record empty_deployment.spec {
    template = record empty_deployment.spec.template {
      spec = record empty_pod { containers = container ∷ [] };
    };
  };
}

-- The spec sets the replicas, the tag and a pull secret.
abbrev own_spec : CommonShardSpec
own_spec = record (common_spec (some requirements)) {
  replicas = some 3;
  image = some (record { repository = ""; tag = "v0.33.0"; image_pull_secrets = "registry" ∷ [] });
}

apply_auth_configuration-extended_example :
    (e : Extension) × IsClosed e
    × (apply_auth_configuration running (some auth) "root" ("alpha" ∷ "beta" ∷ [])
        ≡ done (extended e container [] running))
apply_auth_configuration-extended_example =
    apply_auth_configuration-extended (some auth) "root" ("alpha" ∷ "beta" ∷ []) container []
      running refl

selector_still_matches_example :
    let after = apply_deployment_template selected (some template) in
    lookup "app" after.spec.template.metadata.labels ≡ some "kcp"
unfolding apply_deployment_template apply_deployment_spec_template lookup
selector_still_matches_example =
    selector_still_matches selected (some template) (λ k v h. h) "app" "kcp" refl

lookup-merge_resources_example :
    let after = (merge_resources (refs_at 0 1) (some requirements) defaults).1 in
    (lookup "cpu" (after.cell 0)
      ≡ or_else (lookup "cpu" requirements.limits) (lookup "cpu" (defaults.cell 0)))
    × (lookup "cpu" (after.cell 1)
        ≡ or_else (lookup "cpu" requirements.requests) (lookup "cpu" (defaults.cell 1)))
    × ((c : ℕ) → c ≢ 0 → c ≢ 1 → after.cell c ≡ defaults.cell c)
lookup-merge_resources_example = lookup-merge_resources 0 1 requirements defaults "cpu" different
