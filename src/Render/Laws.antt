-- ===== src/Render/Laws.antt =====
-- What the options of a spec do to a Deployment, as a whole.
use kcp_operator.Prelude.{ℕ, String, ◌<>◌, ◌≡◌, refl, ◌∙◌, ap, List, [], ◌∷◌, some, none}
use kcp_operator.Api.Pod.{Container, Deployment}
use kcp_operator.Api.Shard.{AuthSpec, CommonShardSpec, ImageSpec}
use kcp_operator.Prelude.{Option}
use kcp_operator.Render.Pods.{Outcome, done, ◌>>=◌}
use kcp_operator.Render.Resources.{Heap, apply_resources}
use kcp_operator.Render.Extension.{
  Extension, ◌⊕◌, extend_container, extended, first_containers, extended-extended, IsClosed,
}
use kcp_operator.Render.Options.Authentication.{auth-IsExtension}
use kcp_operator.Render.Options.Shard.{
  extra, apply_extra_volumes-extended, shard_options-IsExtension,
}
use kcp_operator.Render.Authentication.{apply_auth_configuration}
use kcp_operator.Names.Defaults.{get_image_settings}
use kcp_operator.Render.ShardPod.{
  shard_settings, shard_options, common_shard_config, apply_extra_volumes,
  apply_common_shard_config,
}

-- Whatever is configured, ApplyAuthConfiguration returns a Deployment that has a container, keeps
-- all its arguments, mounts and volumes in place and only appends to them, and each mount that it
-- appends names a volume that it appends.
pub apply_auth_configuration-extended :
    (config : Option AuthSpec) (root_shard_name : String) (shard_names : List String)
    (c : Container) (cs : List Container) (dep : Deployment)
    → first_containers dep ≡ c ∷ cs
    → (e : Extension) × IsClosed e
      × (apply_auth_configuration dep config root_shard_name shard_names
          ≡ done (extended e c cs dep))
apply_auth_configuration-extended config root_shard_name shard_names c cs dep h =
    let x = auth-IsExtension config root_shard_name shard_names in
    (x.ext, x.closed, x.runs c cs dep h)

abbrev pub settings_container : Container → CommonShardSpec → Heap → Container
settings_container c spec h = record (apply_resources c spec.resources h).0 {
  image = (get_image_settings spec.image).0;
}

-- The options and the extra volumes, one after the other, on a Deployment with a container.
options_extended :
    {A : Type 0} (spec : CommonShardSpec) (c : Container) (cs : List Container) (dep : Deployment)
    (k : Deployment → Outcome A)
    → first_containers dep ≡ c ∷ cs
    → let x = shard_options-IsExtension spec in
      (do
        dep2 ← shard_options dep spec
        dep3 ← apply_extra_volumes dep2 spec.extra_volumes spec.extra_volume_mounts
        k dep3)
      ≡ k (extended (x.ext ⊕ extra spec.extra_volumes spec.extra_volume_mounts) c cs dep)
options_extended spec c cs dep k first =
    let x = shard_options-IsExtension spec in
    rw (x.runs c cs dep first) (
      rw
        (apply_extra_volumes-extended spec.extra_volumes spec.extra_volume_mounts
          (extend_container x.ext c) cs (extended x.ext c cs dep) refl)
        (ap k
          (extended-extended x.ext (extra spec.extra_volumes spec.extra_volume_mounts) c cs dep)))

-- The result is computed from the settings.
pub common_shard_config_computed :
    (spec : CommonShardSpec) (h : Heap) (c : Container) (cs : List Container) (dep : Deployment)
    → first_containers dep ≡ c ∷ cs
    → (e : Extension) × IsClosed e
      × (apply_common_shard_config dep spec h
          ≡ done (
            extended
                (e ⊕ extra spec.extra_volumes spec.extra_volume_mounts)
                (settings_container c spec h)
                cs
                (shard_settings c cs dep spec h).0,
            (shard_settings c cs dep spec h).1,
          ))
unfolding apply_common_shard_config
common_shard_config_computed spec h c cs dep first =
    let x = shard_options-IsExtension spec in
    (
      x.ext,
      x.closed,
      ap (λ (l : List Container). common_shard_config l dep spec h) first
          ∙ options_extended spec (settings_container c spec h) cs
              (shard_settings c cs dep spec h).0 (λ d. done (d, (shard_settings c cs dep spec h).1))
              refl,
    )

-- The replicas of a spec, of the Deployment that is there, and of the result.
pub data Replicas : Option ℕ → Option ℕ → ℕ → Type 0 where
  of_spec : {there : Option ℕ} {n : ℕ} → Replicas (some n) there n
  of_deployment : {n : ℕ} → Replicas none (some n) n
  two : Replicas none none 2

-- A text of a spec, and its default in place of the empty one.
pub data Or : String → String → String → Type 0 where
  given : {text default : String} → (text ≡ "" → ⊥) → Or text default text
  defaulted : {default : String} → Or "" default default

-- The image of a spec, and its pull secrets: without an image setting there are none.
pub data Image : Option ImageSpec → String → List String → Type 0 where
  default_image : Image none "ghcr.io/kcp-dev/kcp:v0.32.3" []
  own_image :
      {spec : ImageSpec} {repository tag : String}
      → Or spec.repository "ghcr.io/kcp-dev/kcp" repository
      → Or spec.tag "v0.32.3" tag
      → Image (some spec) (repository <> ":" <> tag) spec.image_pull_secrets

-- The Deployment with this number of replicas and these pull secrets.
abbrev pub with_replicas : ℕ → List String → Deployment → Deployment
with_replicas n pull_secrets dep = record dep {
  spec = record dep.spec {
    replicas = some n;
    template = record dep.spec.template {
      spec = record dep.spec.template.spec { image_pull_secrets = pull_secrets };
    };
  };
}
