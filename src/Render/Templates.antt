-- ===== src/Render/Templates.antt =====
-- ApplyDeploymentTemplate of internal/resources/utils/deployments.go: the user's overrides.
pub mod Laws
use kcp_operator.Prelude.{String, Option, none, some, List, [], ◌∷◌}
use kcp_operator.Prelude.Maps.{Map, copy}
use kcp_operator.Api.Pod.{
  Metadata, PodSpec, PodTemplate, DeploymentSpec, Deployment, PodSpecTemplate, PodTemplateSpec,
  DeploymentSpecTemplate, DeploymentTemplate,
}

-- mergeMaps of certificates.go: the entries of the first map win.
unfoldable pub merge_maps : Map String → Map String → Map String
merge_maps existing [] = existing
merge_maps existing (e ∷ to_add) = copy (e ∷ to_add) existing

unfoldable pub merge_metadata : Metadata → Option Metadata → Metadata
unfolding merge_maps
merge_metadata meta none = meta
merge_metadata meta (some tpl) = record {
  annotations = merge_maps meta.annotations tpl.annotations;
  labels = merge_maps meta.labels tpl.labels;
}

unfoldable pub apply_pod_spec_template : PodSpec → Option PodSpecTemplate → PodSpec
apply_pod_spec_template spec none = spec
apply_pod_spec_template spec (some tpl) = record spec {
  affinity = tpl.affinity;
  node_selector = tpl.node_selector;
  tolerations = tpl.tolerations;
  host_aliases = tpl.host_aliases;
  image_pull_secrets = tpl.image_pull_secrets;
  topology_spread_constraints = tpl.topology_spread_constraints;
}

unfoldable pub apply_pod_template_spec : PodTemplate → Option PodTemplateSpec → PodTemplate
unfolding merge_metadata apply_pod_spec_template
apply_pod_template_spec template none = template
apply_pod_template_spec template (some tpl) = record {
  metadata = merge_metadata template.metadata tpl.metadata;
  spec = apply_pod_spec_template template.spec tpl.spec;
}

unfoldable pub apply_deployment_spec_template :
    DeploymentSpec → Option DeploymentSpecTemplate → DeploymentSpec
unfolding apply_pod_template_spec
apply_deployment_spec_template spec none = spec
apply_deployment_spec_template spec (some tpl) = record spec {
  template = apply_pod_template_spec spec.template tpl.template;
}

unfoldable pub apply_deployment_template : Deployment → Option DeploymentTemplate → Deployment
unfolding merge_metadata apply_deployment_spec_template
apply_deployment_template dep none = dep
apply_deployment_template dep (some tpl) = record {
  metadata = merge_metadata dep.metadata tpl.metadata;
  spec = apply_deployment_spec_template dep.spec tpl.spec;
}
