-- ===== src/Render/Extension.antt =====
-- Extensions: what an option of internal/resources/utils may add to a Deployment, which is arguments and
-- mounts of its first container, and volumes of its pod.
use kcp_operator.Prelude.{
  String, ◌≡◌, refl, Bool, true, ◌||◌, List, [], ◌∷◌, ◌++◌, map, append_assoc, map-append, arith,
  contains, contains-append, All, All-append, All-map,
}
use kcp_operator.Api.Pod.{Volume, VolumeMount, Container, PodSpec, Deployment}

pub record Extension : Type 0 where
  pub args : List String
  pub mounts : List VolumeMount
  pub volumes : List Volume

abbrev pub nothing : Extension
nothing = record { args = []; mounts = []; volumes = [] }

infixl 65 ◌⊕◌
abbrev pub ◌⊕◌ : Extension → Extension → Extension
a ⊕ b = record {
  args = a.args ++ b.args;
  mounts = a.mounts ++ b.mounts;
  volumes = a.volumes ++ b.volumes;
}

abbrev pub extend_container : Extension → Container → Container
extend_container e c = record c {
  args = c.args ++ e.args;
  volume_mounts = c.volume_mounts ++ e.mounts;
}

abbrev pub extend_pod : Extension → Container → List Container → PodSpec → PodSpec
extend_pod e c cs pod = record pod {
  containers = extend_container e c ∷ cs;
  volumes = pod.volumes ++ e.volumes;
}

-- The Deployment with an extended pod, where `c` is its first container and `cs` are the others.
abbrev pub extended : Extension → Container → List Container → Deployment → Deployment
extended e c cs dep = record dep {
  spec = record dep.spec {
    template = record dep.spec.template { spec = extend_pod e c cs dep.spec.template.spec };
  };
}

abbrev pub first_containers : Deployment → List Container
first_containers dep = dep.spec.template.spec.containers

pub extended-extended :
    (a b : Extension) (c : Container) (cs : List Container) (dep : Deployment)
    → extended b (extend_container a c) cs (extended a c cs dep) ≡ extended (a ⊕ b) c cs dep
extended-extended a b c cs dep = cc (
  append_assoc c.args a.args b.args,
  append_assoc c.volume_mounts a.mounts b.mounts,
  append_assoc dep.spec.template.spec.volumes a.volumes b.volumes,
)

-- The names of some volumes.
abbrev pub volume_names : List Volume → List String
volume_names = map (λ v. v.name)

-- Every mount names one of the volumes.
abbrev pub Resolves : List String → List VolumeMount → Type 0
Resolves names = All (λ m. contains names m.name ≡ true)

-- An extension brings the volumes that it mounts.
abbrev pub IsClosed : Extension → Type 0
IsClosed e = Resolves (volume_names e.volumes) e.mounts

-- Kubernetes refuses a pod with a mount that names no volume.
abbrev pub MountsResolve : Container → Deployment → Type 0
MountsResolve c dep = Resolves (volume_names dep.spec.template.spec.volumes) c.volume_mounts

pub Resolves-append_left :
    (xs ys : List String) (ms : List VolumeMount) → Resolves xs ms → Resolves (xs ++ ys) ms
Resolves-append_left xs ys =
    All-map (λ m. contains xs m.name ≡ true) (λ m. contains (xs ++ ys) m.name ≡ true)
      (λ m h. rw contains-append (rw h refl))

or_true : (a b : Bool) → b ≡ true → (a || b) ≡ true
or_true a b h = ground arith

pub Resolves-append_right :
    (xs ys : List String) (ms : List VolumeMount) → Resolves ys ms → Resolves (xs ++ ys) ms
Resolves-append_right xs ys =
    All-map (λ m. contains ys m.name ≡ true) (λ m. contains (xs ++ ys) m.name ≡ true)
      (λ m h. rw contains-append (or_true (contains xs m.name) (contains ys m.name) h))

pub ⊕-IsClosed : (a b : Extension) → IsClosed a → IsClosed b → IsClosed (a ⊕ b)
⊕-IsClosed a b ha hb = rw map-append (
    All-append (λ m. contains (volume_names a.volumes ++ volume_names b.volumes) m.name ≡ true)
      a.mounts b.mounts
      (Resolves-append_left (volume_names a.volumes) (volume_names b.volumes) a.mounts ha)
      (Resolves-append_right (volume_names a.volumes) (volume_names b.volumes) b.mounts hb))

-- A closed extension keeps the mounts of a pod resolved.
pub extended-MountsResolve :
    (e : Extension) (c : Container) (cs : List Container) (dep : Deployment)
    → IsClosed e
    → MountsResolve c dep
    → MountsResolve (extend_container e c) (extended e c cs dep)
extended-MountsResolve e c cs dep he h =
    ⊕-IsClosed
      (record { args = []; mounts = c.volume_mounts; volumes = dep.spec.template.spec.volumes }) e h
      he
