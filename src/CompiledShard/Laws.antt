-- ===== src/CompiledShard/Laws.antt =====
-- How complete the Deployment is that internal/resources/compiledshard/deployment.go renders.
use kcp_operator.Prelude.{
  String, ◌≡◌, refl, ◌∙◌, ap, sym, Bool, Option, List, [], ◌∷◌, ◌++◌, map, append_assoc, append-nil,
  contains, eq_refl, arith,
}
use kcp_operator.Api.Pod.{Volume, Container, ResourceRefs, Deployment, DeploymentTemplate}
use kcp_operator.Api.Shard.{CommonShardSpec}
use kcp_operator.Api.Objects.{CompiledShard}
use kcp_operator.Names.Defaults.{get_image_settings}
use kcp_operator.Render.Pods.{done}
use kcp_operator.Render.Mounts.{SecretMount, build_volume, build_mount}
use kcp_operator.Render.Resources.{Heap, merge_resources, apply_resources}
use kcp_operator.Render.Templates.{apply_deployment_template}
use kcp_operator.Render.Extension.{
  Extension, ◌⊕◌, extend_container, extended, first_containers, volume_names, Resolves, IsClosed,
  MountsResolve, ⊕-IsClosed, Resolves-append_right, extended-MountsResolve,
}
use kcp_operator.Render.Options.Shard.{extra}
use kcp_operator.Render.Laws.{
  settings_container, apply_auth_configuration-extended, common_shard_config_computed,
}
use kcp_operator.Render.ShardPod.{
  shard_container, shard_settings, set_containers, apply_common_shard_deployment_properties,
}
use kcp_operator.CompiledShard.Paths.{supports_mount_proxy}
use kcp_operator.CompiledShard.Args.{get_args}
use kcp_operator.CompiledShard.Deployment.{
  secret_mounts, shard_main_container, base_deployment, deployment_reconciler,
}

-- The volumes and mounts that a list of Secret mounts is built into.
build_Resolves :
    (mounts : List SecretMount)
    → Resolves (volume_names (map build_volume mounts)) (map build_mount mounts)
unfolding contains
build_Resolves [] = tt
build_Resolves (m ∷ mounts) = (
  rw eq_refl refl,
  Resolves-append_right (m.volume_name ∷ []) (volume_names (map build_volume mounts))
      (map build_mount mounts) (build_Resolves mounts),
)

abbrev pod_volumes : Deployment → List Volume
pod_volumes dep = dep.spec.template.spec.volumes

-- A template changes neither the containers nor the volumes.
containers-template :
    (dep : Deployment) (tpl : Option DeploymentTemplate)
    → (first_containers (apply_deployment_template dep tpl) ≡ first_containers dep)
      × (pod_volumes (apply_deployment_template dep tpl) ≡ pod_volumes dep)
unfolding apply_deployment_template
containers-template dep tpl = ground arith

-- What a rendered Deployment satisfies: it has one container, `main`, whose arguments begin with
-- `args`, and every mount of that container names a volume of the pod.
pub record IsComplete (args : List String) (main : Container) (dep : Deployment) : Type 0 where
  pub single : first_containers dep ≡ main ∷ []
  pub more_args : List String
  pub starts : main.args ≡ args ++ more_args
  pub resolved : MountsResolve main dep

-- A deployment with an extension still is complete.
extended-IsComplete :
    (args : List String) (main : Container) (e : Extension) (dep : Deployment)
    → IsComplete args main dep
    → IsClosed e
    → IsComplete args (extend_container e main) (extended e main [] dep)
extended-IsComplete args main e dep d closed = record {
  single = refl;
  more_args = d.more_args ++ e.args;
  starts = ap (λ (l : List String). l ++ e.args) d.starts ∙ append_assoc args d.more_args e.args;
  resolved = extended-MountsResolve e main [] dep closed d.resolved;
}

template-IsComplete :
    (args : List String) (main : Container) (tpl : Option DeploymentTemplate) (dep : Deployment)
    → IsComplete args main dep
    → IsComplete args main (apply_deployment_template dep tpl)
template-IsComplete args main tpl dep d = record {
  single = (containers-template dep tpl).0 ∙ d.single;
  more_args = d.more_args;
  starts = d.starts;
  resolved = rw (containers-template dep tpl).1 d.resolved;
}

settings_args :
    (spec : CommonShardSpec) (h : Heap) (c : Container)
    → ((settings_container c spec h).args ≡ c.args)
      × ((settings_container c spec h).volume_mounts ≡ c.volume_mounts)
unfolding apply_resources
settings_args spec h c = (refl, refl)

settings_resources :
    (main : Container) (spec : CommonShardSpec) (h : Heap) (dep : Deployment)
    → ((settings_container main spec h).resources, (shard_settings main [] dep spec h).1)
      ≡ merge_resources main.resources spec.resources h
unfolding shard_settings
settings_resources main spec h dep = refl

-- The Deployment with the settings of the spec is complete, if the one before was.
settings-IsComplete :
    (args : List String) (main : Container) (spec : CommonShardSpec) (h : Heap) (dep : Deployment)
    → IsComplete args main dep
    → IsComplete args (settings_container main spec h) (shard_settings main [] dep spec h).0
unfolding shard_settings
settings-IsComplete args main spec h dep d = record {
  single = refl;
  more_args = d.more_args;
  starts = (settings_args spec h main).0 ∙ d.starts;
  resolved = rw (settings_args spec h main).1 d.resolved;
}

module _ (shard : CompiledShard) (mount_proxy : Bool) (refs : ResourceRefs) (dep : Deployment) where
  abbrev main_container : Container
  main_container =
      shard_container
        (shard_main_container shard mount_proxy (secret_mounts shard mount_proxy) refs)

  abbrev started : Deployment
  started = set_containers (main_container ∷ []) (base_deployment shard mount_proxy refs dep)

  properties-started :
      apply_common_shard_deployment_properties (base_deployment shard mount_proxy refs dep)
      ≡ done started
  unfolding apply_common_shard_deployment_properties base_deployment
  properties-started = refl

  started-IsComplete : IsComplete (get_args shard mount_proxy) main_container started
  unfolding base_deployment shard_container shard_main_container
  started-IsComplete = record {
    single = refl;
    more_args = [];
    starts = sym (append-nil (get_args shard mount_proxy));
    resolved = build_Resolves (secret_mounts shard mount_proxy);
  }

module _ {V : Type 0} (new_version : String → Option V) (check : V → Bool) where
  abbrev pub has_mount_proxy : CompiledShard → Bool
  has_mount_proxy shard =
      supports_mount_proxy check (new_version (get_image_settings shard.spec.shard.image).2)

  -- If the extra mounts of a shard's spec name extra volumes of that spec, then rendering the shard
  -- never panics, whatever else it configures and whatever the Deployment in the cluster holds: the
  -- result has one container, whose arguments begin with those of getArgs, and every mount of that
  -- container names a volume of the pod. The resources of the spec are merged into the maps at `refs`.
  pub deployment_reconciler-IsComplete :
      (shard : CompiledShard) (refs : ResourceRefs) (dep : Deployment) (h : Heap)
      → Resolves (volume_names shard.spec.shard.extra_volumes) shard.spec.shard.extra_volume_mounts
      → (rendered : Deployment × Heap) × (main : Container) × (deployment_reconciler new_version
            check shard refs dep h
          ≡ done rendered)
        × IsComplete (get_args shard (has_mount_proxy shard)) main rendered.0
        × ((main.resources, rendered.1) ≡ merge_resources refs shard.spec.shard.resources h)
  unfolding deployment_reconciler shard_container shard_main_container
  deployment_reconciler-IsComplete shard refs dep h user =
      let spec = shard.spec.shard.common in
      let mount_proxy = has_mount_proxy shard in
      let args = get_args shard mount_proxy in
      let before = started shard mount_proxy refs dep in
      let c = main_container shard mount_proxy refs dep in
      let settings = shard_settings c [] before spec h in
      let (e, closed, ran) = common_shard_config_computed spec h c [] before refl in
      let added = e ⊕ extra spec.extra_volumes spec.extra_volume_mounts in
      let c1 = settings_container c spec h in
      let c2 = extend_container added c1 in
      let dep1 = extended added c1 [] settings.0 in
      let dep2 = apply_deployment_template dep1 spec.deployment_template in
      let configured =
        extended-IsComplete args c1 added settings.0
          (settings-IsComplete args c spec h before (started-IsComplete shard mount_proxy refs dep))
          (⊕-IsClosed e (extra spec.extra_volumes spec.extra_volume_mounts) closed user) in
      let overridden = template-IsComplete args c2 spec.deployment_template dep1 configured in
      let (auth, auth_closed, auth_ran) =
        apply_auth_configuration-extended spec.auth shard.spec.root_shard.name shard.spec.shards c2
          [] dep2 overridden.single in
      (
        (extended auth c2 [] dep2, settings.1),
        extend_container auth c2,
        rw (properties-started shard mount_proxy refs dep) (rw ran (rw auth_ran refl)),
        extended-IsComplete args c2 auth dep2 overridden auth_closed,
        settings_resources c spec h before,
      )
