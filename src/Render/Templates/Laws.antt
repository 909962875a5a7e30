-- ===== src/Render/Templates/Laws.antt =====
-- Which of the operator's and the user's settings a template keeps.
use kcp_operator.Prelude.{String, ◌≡◌, refl, Option, none, some, [], ◌∷◌, arith}
use kcp_operator.Prelude.Maps.{Map, lookup, lookup-copy, or_else}
use kcp_operator.Api.Pod.{
  Metadata, PodTemplate, DeploymentSpec, Deployment, PodTemplateSpec, DeploymentSpecTemplate,
  DeploymentTemplate,
}
use kcp_operator.Render.Templates.{
  merge_maps, merge_metadata, apply_pod_template_spec, apply_deployment_spec_template,
  apply_deployment_template,
}

-- mergeMaps: the existing entry of a key wins, and the added one fills a gap.
pub lookup-merge_maps :
    (k : String) (existing to_add : Map String)
    → lookup k (merge_maps existing to_add) ≡ or_else (lookup k existing) (lookup k to_add)
unfolding merge_maps lookup
lookup-merge_maps k existing [] = ground arith
lookup-merge_maps k existing (e ∷ to_add) = lookup-copy k (e ∷ to_add) existing

kept :
    (k v : String) (existing to_add : Map String)
    → lookup k existing ≡ some v
    → lookup k (merge_maps existing to_add) ≡ some v
kept k v existing to_add h = rw (lookup-merge_maps k existing to_add) (rw h refl)

kept_label :
    (k v : String) (meta : Metadata) (tpl : Option Metadata)
    → lookup k meta.labels ≡ some v
    → lookup k (merge_metadata meta tpl).labels ≡ some v
unfolding merge_metadata
kept_label k v meta none h = h
kept_label k v meta (some tpl) h = kept k v meta.labels tpl.labels h

kept_pod_label :
    (k v : String) (template : PodTemplate) (tpl : Option PodTemplateSpec)
    → lookup k template.metadata.labels ≡ some v
    → lookup k (apply_pod_template_spec template tpl).metadata.labels ≡ some v
unfolding apply_pod_template_spec
kept_pod_label k v template none h = h
kept_pod_label k v template (some tpl) h = kept_label k v template.metadata tpl.metadata h

kept_spec_label :
    (k v : String) (spec : DeploymentSpec) (tpl : Option DeploymentSpecTemplate)
    → lookup k spec.template.metadata.labels ≡ some v
    → (lookup k (apply_deployment_spec_template spec tpl).template.metadata.labels ≡ some v)
      × ((apply_deployment_spec_template spec tpl).selector ≡ spec.selector)
unfolding apply_deployment_spec_template
kept_spec_label k v spec none h = (h, refl)
kept_spec_label k v spec (some tpl) h = (kept_pod_label k v spec.template tpl.template h, refl)

-- A user's template cannot break the selector of a Deployment: every label of the pod template keeps
-- its value, so a pod template that carries the selector's labels still does, and the selector stays
-- as it was.
pub selector_still_matches :
    (dep : Deployment) (tpl : Option DeploymentTemplate)
    → ((k v : String)
        → lookup k dep.spec.selector ≡ some v
        → lookup k dep.spec.template.metadata.labels ≡ some v)
    → let after = apply_deployment_template dep tpl in
      (k v : String)
      → lookup k after.spec.selector ≡ some v
      → lookup k after.spec.template.metadata.labels ≡ some v
unfolding apply_deployment_template
selector_still_matches dep none matches k v h = matches k v h
selector_still_matches dep (some tpl) matches k v h =
    (kept_spec_label k v dep.spec tpl.spec (matches k v (spec_selector dep.spec tpl.spec k v h))).0
  where
    spec_selector :
        (spec : DeploymentSpec) (t : Option DeploymentSpecTemplate) (k v : String)
        → lookup k (apply_deployment_spec_template spec t).selector ≡ some v
        → lookup k spec.selector ≡ some v
    spec_selector spec none k v h = h
    spec_selector spec (some t) k v h = h
