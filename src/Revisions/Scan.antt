-- ===== src/Revisions/Scan.antt =====
-- The loops of pkg/reconciling/modifier/revision_labels.go come to exactly what a pod uses.
use kcp_operator.Prelude.{
  String, ◌≡◌, refl, sym, subst, ◌⊎◌, inl, inr, Bool, Option, none, some, List, [], ◌∷◌, ◌++◌,
  Member, Member-append_left, Member-append_right,
}
use kcp_operator.Api.Pod.{Volume, VolumeSource, secret, config_map, other_source}
use kcp_operator.Revisions.{
  Resource, a_secret, a_config_map, Reference, KeyRef, EnvSource, EnvContainer, EnvPodTemplate,
  key_reference, volume_reference, volume_references, env_references, container_references,
  references,
}
use kcp_operator.Revisions.Recorded.{In}
use kcp_operator.Revisions.Uses.{
  NamesKey, names_config_map, names_secret, Uses, by_secret_volume, by_config_map_volume,
  by_container, the_reference,
}

In-left : (r : Reference) (xs ys : List Reference) → In r xs → In r (xs ++ ys)
In-left r [] ys i = elim i [ ]
In-left r (x ∷ xs) ys (inl e) = inl e
In-left r (x ∷ xs) ys (inr i) = inr (In-left r xs ys i)

In-right : (r : Reference) (xs ys : List Reference) → In r ys → In r (xs ++ ys)
In-right r [] ys i = i
In-right r (x ∷ xs) ys i = inr (In-right r xs ys i)

In-split : (r : Reference) (xs ys : List Reference) → In r (xs ++ ys) → In r xs ⊎ In r ys
In-split r [] ys i = inr i
In-split r (x ∷ xs) ys (inl e) = inl (inl e)
In-split r (x ∷ xs) ys (inr i) = elim (In-split r xs ys i) [ inl j ↦ inl (inr j) | inr j ↦ inr j ]

Member-split :
    {A : Type 0} (x : A) (xs ys : List A) → Member x (xs ++ ys) → Member x xs ⊎ Member x ys
Member-split x [] ys m = inr m
Member-split x (y ∷ xs) ys (inl e) = inl (inl e)
Member-split x (y ∷ xs) ys (inr m) = elim (Member-split x xs ys m) [
  | inl j ↦ inl (inr j)
  | inr j ↦ inr j
]

In-key :
    (resource : Resource) (o : Option KeyRef) (key : KeyRef)
    → o ≡ some key
    → In (the_reference resource key.name key.optional) (key_reference resource o)
In-key resource none key e = cc e
In-key resource (some k) key e = inl (cc e)

In-source :
    (e : EnvSource) (resource : Resource) (key : KeyRef) (rest : List Reference)
    → NamesKey e resource key
    → In (the_reference resource key.name key.optional) (
        key_reference a_config_map e.config_map_ref
        ++ (key_reference a_secret e.secret_ref ++ rest))
In-source e resource key rest (names_config_map h) =
    In-left _ (key_reference a_config_map e.config_map_ref) _
      (In-key a_config_map e.config_map_ref key h)
In-source e resource key rest (names_secret h) =
    In-right _ (key_reference a_config_map e.config_map_ref) _
      (In-left _ (key_reference a_secret e.secret_ref) rest (In-key a_secret e.secret_ref key h))

In-env :
    (env : List EnvSource) (e : EnvSource) (resource : Resource) (key : KeyRef)
    → Member e env
    → NamesKey e resource key
    → In (the_reference resource key.name key.optional) (env_references env)
In-env [] e resource key m n = elim m [ ]
In-env (x ∷ env) e resource key (inl same) n =
    In-source x resource key (env_references env)
      (subst (λ (y : EnvSource). NamesKey y resource key) same n)
In-env (x ∷ env) e resource key (inr m) n =
    In-right _ (key_reference a_config_map x.config_map_ref) _
      (In-right _ (key_reference a_secret x.secret_ref) _ (In-env env e resource key m n))

In-container :
    (c : EnvContainer) (rest : List Reference) (e : EnvSource) (resource : Resource) (key : KeyRef)
    → Member e c.env ⊎ Member e c.env_from
    → NamesKey e resource key
    → In
        (the_reference resource key.name key.optional)
        (env_references c.env ++ (env_references c.env_from ++ rest))
In-container c rest e resource key (inl m) n =
    In-left _ (env_references c.env) _ (In-env c.env e resource key m n)
In-container c rest e resource key (inr m) n =
    In-right _ (env_references c.env) _
      (In-left _ (env_references c.env_from) rest (In-env c.env_from e resource key m n))

In-containers :
    (cs : List EnvContainer) (c : EnvContainer) (e : EnvSource) (resource : Resource) (key : KeyRef)
    → Member c cs
    → Member e c.env ⊎ Member e c.env_from
    → NamesKey e resource key
    → In (the_reference resource key.name key.optional) (container_references cs)
In-containers [] c e resource key m h n = elim m [ ]
In-containers (x ∷ cs) c e resource key (inl same) h n =
    subst
      (λ (y : EnvContainer).
        In (the_reference resource key.name key.optional)
          (env_references y.env ++ (env_references y.env_from ++ container_references cs)))
      same (In-container c (container_references cs) e resource key h n)
In-containers (x ∷ cs) c e resource key (inr m) h n =
    In-right _ (env_references x.env) _
      (In-right _ (env_references x.env_from) _ (In-containers cs c e resource key m h n))

In-volumes :
    (vs : List Volume) (v : Volume) (r : Reference)
    → Member v vs
    → In r (volume_reference v.source)
    → In r (volume_references vs)
In-volumes [] v r m i = elim m [ ]
In-volumes (x ∷ vs) v r (inl same) i =
    In-left r (volume_reference x.source) (volume_references vs)
      (subst (λ (y : Volume). In r (volume_reference y.source)) same i)
In-volumes (x ∷ vs) v r (inr m) i =
    In-right r (volume_reference x.source) (volume_references vs) (In-volumes vs v r m i)

Member-containers :
    (ps : EnvPodTemplate) (c : EnvContainer)
    → Member c ps.init_containers ⊎ Member c ps.containers
    → Member c (ps.init_containers ++ ps.containers)
Member-containers ps c (inl m) = Member-append_left c ps.init_containers ps.containers m
Member-containers ps c (inr m) = Member-append_right c ps.init_containers ps.containers m

-- The loops come to every use.
pub Uses-In :
    (ps : EnvPodTemplate) (resource : Resource) (name : String) (flag : Option Bool)
    → Uses ps resource name flag
    → In (the_reference resource name flag) (references ps)
Uses-In ps resource name flag (by_secret_volume v m e) =
    In-left _ (volume_references ps.volumes) _ (
      In-volumes ps.volumes v (the_reference a_secret name none) m (
        subst (λ (s : VolumeSource). In (the_reference a_secret name none) (volume_reference s))
          (sym e) (inl refl)))
Uses-In ps resource name flag (by_config_map_volume v m e) =
    In-left _ (volume_references ps.volumes) _ (
      In-volumes ps.volumes v (the_reference a_config_map name none) m (
        subst (λ (s : VolumeSource). In (the_reference a_config_map name none) (volume_reference s))
          (sym e) (inl refl)))
Uses-In ps resource name flag (by_container c e key m h n) =
    In-right _ (volume_references ps.volumes) _ (
      In-containers (ps.init_containers ++ ps.containers) c e resource key
        (Member-containers ps c m) h n)

-- A reference is that of a use.
abbrev pub IsUse : EnvPodTemplate → Reference → Type 0
IsUse ps r =
    (resource : Resource) × (name : String) × (flag : Option Bool) × Uses ps resource name flag
    × (r ≡ the_reference resource name flag)

abbrev FromSource : (EnvSource → Type 0) → Reference → Type 0
FromSource P r =
    (e : EnvSource) × (resource : Resource) × (key : KeyRef) × P e
    × NamesKey e resource key
    × (r ≡ the_reference resource key.name key.optional)

from_key :
    (resource : Resource) (o : Option KeyRef) (r : Reference)
    → In r (key_reference resource o)
    → (key : KeyRef) × (o ≡ some key) × (r ≡ the_reference resource key.name key.optional)
from_key resource none r i = elim i [ ]
from_key resource (some key) r (inl e) = (key, refl, e)
from_key resource (some key) r (inr i) = elim i [ ]

from_env :
    (env : List EnvSource) (r : Reference)
    → In r (env_references env)
    → FromSource (λ e. Member e env) r
from_env [] r i = elim i [ ]
from_env (x ∷ env) r i = elim (In-split r (key_reference a_config_map x.config_map_ref) _ i) [
  | inl j ↦
      let (key, o, e) = from_key a_config_map x.config_map_ref r j in
      (x, a_config_map, key, inl refl, names_config_map o, e)
  | inr j ↦ elim (In-split r (key_reference a_secret x.secret_ref) _ j) [
    | inl k ↦
        let (key, o, e) = from_key a_secret x.secret_ref r k in
        (x, a_secret, key, inl refl, names_secret o, e)
    | inr k ↦ let (y, resource, key, m, n, e) = from_env env r k in (y, resource, key, inr m, n, e)
  ]
]

from_containers :
    (cs : List EnvContainer) (r : Reference)
    → In r (container_references cs)
    → (c : EnvContainer) × Member c cs × FromSource (λ e. Member e c.env ⊎ Member e c.env_from) r
from_containers [] r i = elim i [ ]
from_containers (x ∷ cs) r i = elim (In-split r (env_references x.env) _ i) [
  | inl j ↦
      let (y, resource, key, m, n, e) = from_env x.env r j in
      (x, inl refl, (y, resource, key, inl m, n, e))
  | inr j ↦ elim (In-split r (env_references x.env_from) _ j) [
    | inl k ↦
        let (y, resource, key, m, n, e) = from_env x.env_from r k in
        (x, inl refl, (y, resource, key, inr m, n, e))
    | inr k ↦ let (c, m, rest) = from_containers cs r k in (c, inr m, rest)
  ]
]

from_volume :
    (ps : EnvPodTemplate) (v : Volume) (source : VolumeSource) (r : Reference)
    → Member v ps.volumes
    → v.source ≡ source
    → In r (volume_reference source)
    → IsUse ps r
from_volume ps v (secret name) r m s (inl e) = (a_secret, name, none, by_secret_volume v m s, e)
from_volume ps v (secret name) r m s (inr i) = elim i [ ]
from_volume ps v (config_map name) r m s (inl e) =
    (a_config_map, name, none, by_config_map_volume v m s, e)
from_volume ps v (config_map name) r m s (inr i) = elim i [ ]
from_volume ps v (other_source name) r m s i = elim i [ ]

from_volumes :
    (ps : EnvPodTemplate) (vs : List Volume) (r : Reference)
    → ((v : Volume) → Member v vs → Member v ps.volumes)
    → In r (volume_references vs)
    → IsUse ps r
from_volumes ps [] r within i = elim i [ ]
from_volumes ps (v ∷ vs) r within i = elim (In-split r (volume_reference v.source) _ i) [
  | inl j ↦ from_volume ps v v.source r (within v (inl refl)) refl j
  | inr j ↦ from_volumes ps vs r (λ x m. within x (inr m)) j
]

-- The loops come to nothing else.
pub In-Uses : (ps : EnvPodTemplate) (r : Reference) → In r (references ps) → IsUse ps r
In-Uses ps r i = elim (In-split r (volume_references ps.volumes) _ i) [
  | inl j ↦ from_volumes ps ps.volumes r (λ v m. m) j
  | inr j ↦
      let (c, m, (e, resource, key, h, n, same)) =
        from_containers (ps.init_containers ++ ps.containers) r j in
      (
        resource,
        key.name,
        key.optional,
        by_container c e key (Member-split c ps.init_containers ps.containers m) h n,
        same,
      )
]
