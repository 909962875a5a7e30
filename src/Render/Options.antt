-- ===== src/Render/Options.antt =====
-- How the options of internal/resources/utils are seen as extensions of a pod, and how extensions are
-- put together.
pub mod Authentication
pub mod Shard
use kcp_operator.Prelude.{
  String, ◌<>◌, ◌≡◌, refl, ◌∙◌, ap, sym, subst, fun_ext, Bool, true, false, Option, none, some,
  List, [], ◌∷◌, ◌++◌, append-nil, append_assoc, contains, ◌==◌, eq_refl,
}
use kcp_operator.Api.Pod.{Container, PodSpec, Deployment}
use kcp_operator.Render.Pods.{
  Outcome, done, ◌>>=◌, append_args, with_pod, secret_volume, read_only_mount, config_secret_if,
  config_secret_arg_if, with_config_secret,
}
use kcp_operator.Render.Extension.{
  Extension, nothing, ◌⊕◌, extend_container, extend_pod, extended, first_containers,
  extended-extended, IsClosed, ⊕-IsClosed,
}

pub record IsExtension (f : Deployment → Outcome Deployment) : Type 0 where
  pub ext : Extension
  pub closed : IsClosed ext
  pub runs :
      (c : Container) (cs : List Container) (dep : Deployment)
      → first_containers dep ≡ c ∷ cs
      → f dep ≡ done (extended ext c cs dep)

bind-done :
    (m : Outcome Deployment) (f : Deployment → Outcome Deployment) {d : Deployment}
    → m ≡ done d
    → (m >>= f) ≡ f d
bind-done m f e = rw e

pub bind-IsExtension :
    (f g : Deployment → Outcome Deployment)
    → IsExtension f
    → IsExtension g
    → IsExtension (λ dep. f dep >>= g)
bind-IsExtension f g hf hg = record {
  ext = hf.ext ⊕ hg.ext;
  closed = ⊕-IsClosed hf.ext hg.ext hf.closed hg.closed;
  runs = λ c cs dep h.
      bind-done (f dep) g (hf.runs c cs dep h)
      ∙ hg.runs (extend_container hf.ext c) cs (extended hf.ext c cs dep) refl
      ∙ ap done (extended-extended hf.ext hg.ext c cs dep);
}

pub extended-nothing :
    (c : Container) (cs : List Container) (dep : Deployment)
    → first_containers dep ≡ c ∷ cs
    → dep ≡ extended nothing c cs dep
extended-nothing c cs dep h =
    cc (h, append-nil c.args, append-nil c.volume_mounts, append-nil dep.spec.template.spec.volumes)

pub done-IsExtension : IsExtension done
done-IsExtension = record {
  ext = nothing;
  closed = tt;
  runs = λ c cs dep h. ap done (extended-nothing c cs dep h);
}

-- A function that extends every pod whose first container is `c` gives an extension.
abbrev pub PodExtends : (PodSpec → Outcome PodSpec) → Extension → Type 0
PodExtends f e =
    (c : Container) (cs : List Container) (pod : PodSpec)
    → f (record pod { containers = c ∷ cs }) ≡ done (extend_pod e c cs pod)

pub with_pod-extended :
    (f : PodSpec → Outcome PodSpec) (e : Extension)
    → PodExtends f e
    → (c : Container) (cs : List Container) (dep : Deployment) → first_containers dep ≡ c ∷ cs
    → with_pod f dep ≡ done (extended e c cs dep)
with_pod-extended f e h c cs dep first =
    let pod = dep.spec.template.spec in
    let focus : pod ≡ record pod { containers = c ∷ cs } =
      λ i. record pod { containers = first i } in
    ap (λ (m : Outcome PodSpec). with_pod (λ _. m) dep) (ap f focus ∙ h c cs pod)

pub with_pod-IsExtension :
    (f : PodSpec → Outcome PodSpec) (e : Extension)
    → IsClosed e
    → PodExtends f e
    → IsExtension (with_pod f)
with_pod-IsExtension f e closed h = record {
  ext = e;
  closed = closed;
  runs = with_pod-extended f e h;
}

bind-done_pod :
    (m : Outcome PodSpec) (f : PodSpec → Outcome PodSpec) {pod : PodSpec}
    → m ≡ done pod
    → (m >>= f) ≡ f pod
bind-done_pod m f e = rw e

-- Two steps on a pod extend it by what each adds.
pub bind-PodExtends :
    (f g : PodSpec → Outcome PodSpec) (a b : Extension)
    → PodExtends f a
    → PodExtends g b
    → PodExtends (λ pod. f pod >>= g) (a ⊕ b)
bind-PodExtends f g a b hf hg c cs pod =
    bind-done_pod (f (record pod { containers = c ∷ cs })) g (hf c cs pod)
    ∙ hg (extend_container a c) cs (record pod { volumes = pod.volumes ++ a.volumes })
    ∙ ap done (
        cc (
          append_assoc c.args a.args b.args,
          append_assoc c.volume_mounts a.mounts b.mounts,
          append_assoc pod.volumes a.volumes b.volumes,
        ))

pub done-PodExtends : PodExtends done nothing
done-PodExtends c cs pod =
    ap done (cc (append-nil c.args, append-nil c.volume_mounts, append-nil pod.volumes))

pub append_args-PodExtends :
    (args : List String)
    → PodExtends (append_args args) (record { args = args; mounts = []; volumes = [] })
append_args-PodExtends args c cs pod =
    ap done (cc (append-nil c.volume_mounts, append-nil pod.volumes))

-- What an option adds if it names a config Secret.
abbrev pub config_extension_if : Bool → String → String → String → String → Extension
config_extension_if true val volume_name mount_path flag = nothing
config_extension_if false val volume_name mount_path flag = record {
  args = (flag <> mount_path <> "/kubeconfig") ∷ [];
  mounts = read_only_mount volume_name mount_path ∷ [];
  volumes = secret_volume volume_name val ∷ [];
}

config_secret_if_extends :
    (named : Bool) (args : List String) (val volume_name mount_path flag : String)
    → PodExtends
        (λ pod.
          config_secret_if named val volume_name mount_path pod
          >>= append_args (args ++ config_secret_arg_if named flag mount_path))
        (record { args = args; mounts = []; volumes = [] }
          ⊕ config_extension_if named val volume_name mount_path flag)
config_secret_if_extends true args val volume_name mount_path flag c cs pod =
    ap done (cc (append-nil c.volume_mounts, append-nil pod.volumes))
config_secret_if_extends false args val volume_name mount_path flag c cs pod = refl

config_extension_if-IsClosed :
    (named : Bool) (args : List String) (val volume_name mount_path flag : String)
    → IsClosed (
        record { args = args; mounts = []; volumes = [] }
        ⊕ config_extension_if named val volume_name mount_path flag)
unfolding contains
config_extension_if-IsClosed true args val volume_name mount_path flag = tt
config_extension_if-IsClosed false args val volume_name mount_path flag = (rw eq_refl, tt)

pub with_config_secret-IsExtension :
    (args : List String) (val volume_name mount_path flag : String)
    → IsExtension (with_pod (with_config_secret args val volume_name mount_path flag))
with_config_secret-IsExtension args val volume_name mount_path flag =
    with_pod-IsExtension _ _
      (config_extension_if-IsClosed (val == "") args val volume_name mount_path flag)
      (config_secret_if_extends (val == "") args val volume_name mount_path flag)
