-- ===== src/Revisions/Uses.antt =====
-- What a pod uses of Secrets and ConfigMaps (pkg/reconciling/modifier/revision_labels.go), as rules that
-- do not depend on how the loops collect them.
use kcp_operator.Prelude.{String, ◌≡◌, ap, ◌⊎◌, Bool, true, Option, none, some, Member}
use kcp_operator.Api.Pod.{Volume, secret, config_map}
use kcp_operator.Revisions.{
  Resource, a_secret, a_config_map, Reference, KeyRef, EnvSource, EnvContainer, EnvPodTemplate,
  is_optional,
}

-- A source of an environment refers to a key of a ConfigMap or Secret.
pub data NamesKey (e : EnvSource) : Resource → KeyRef → Type 0 where
  names_config_map : {key : KeyRef} → e.config_map_ref ≡ some key → NamesKey e a_config_map key
  names_secret : {key : KeyRef} → e.secret_ref ≡ some key → NamesKey e a_secret key

-- A pod uses an object, and says of it whether it is optional, or does not say. An object of a volume is
-- never optional here: the code does not look at the flag of a Secret or ConfigMap volume.
pub data Uses (ps : EnvPodTemplate) : Resource → String → Option Bool → Type 0 where
  by_secret_volume :
      (v : Volume) {name : String}
      → Member v ps.volumes
      → v.source ≡ secret name
      → Uses ps a_secret name none
  by_config_map_volume :
      (v : Volume) {name : String}
      → Member v ps.volumes
      → v.source ≡ config_map name
      → Uses ps a_config_map name none
  by_container :
      (c : EnvContainer) (e : EnvSource) {resource : Resource} (key : KeyRef)
      → Member c ps.init_containers ⊎ Member c ps.containers
      → Member e c.env ⊎ Member e c.env_from
      → NamesKey e resource key
      → Uses ps resource key.name key.optional

-- The reference that the loops collect for a use.
abbrev pub the_reference : Resource → String → Option Bool → Reference
the_reference resource name flag = record {
  resource = resource;
  name = name;
  optional = is_optional flag;
}

pub is_optional-some : (flag : Option Bool) → is_optional flag ≡ true → flag ≡ some true
is_optional-some none e = cc e
is_optional-some (some b) e = ap some e
