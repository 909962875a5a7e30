-- ===== src/Revisions.antt =====
-- pkg/reconciling/modifier/revision_labels.go: labels of a pod template that hold the revisions of the
-- Secrets and ConfigMaps that its pods use, so that a change of one restarts the pods.
pub mod Recorded
pub mod Uses
pub mod Scan
pub mod Detected
use kcp_operator.Prelude.{
  String, ◌<>◌, Bool, true, false, Option, none, some, is_some, List, [], ◌∷◌, ◌++◌, if◌then◌else◌,
}
use kcp_operator.Prelude.Maps.{Map, lookup, insert, copy}
use kcp_operator.Api.Pod.{Volume, VolumeSource, secret, config_map, other_source}

pub data Resource : Type 0 where
  a_secret : Resource
  a_config_map : Resource

-- A use of a Secret or ConfigMap by a pod.
pub record Reference : Type 0 where
  pub resource : Resource
  pub name : String
  pub optional : Bool

pub record KeyRef : Type 0 where
  pub name : String
  pub optional : Option Bool

-- An environment variable, or a source of several, with what it refers to.
pub record EnvSource : Type 0 where
  pub config_map_ref : Option KeyRef
  pub secret_ref : Option KeyRef

-- `env` has the variables that take their value from somewhere.
pub record EnvContainer : Type 0 where
  pub env : List EnvSource
  pub env_from : List EnvSource

pub record EnvPodTemplate : Type 0 where
  pub labels : Map String
  pub volumes : List Volume
  pub init_containers : List EnvContainer
  pub containers : List EnvContainer

abbrev pub is_optional : Option Bool → Bool
is_optional none = false
is_optional (some b) = b

abbrev pub key_reference : Resource → Option KeyRef → List Reference
key_reference resource none = []
key_reference resource (some key) =
    record { resource = resource; name = key.name; optional = is_optional key.optional } ∷ []

abbrev pub required : Resource → String → List Reference
required resource name = record { resource = resource; name = name; optional = false } ∷ []

abbrev pub volume_reference : VolumeSource → List Reference
volume_reference (secret name) = required a_secret name
volume_reference (config_map name) = required a_config_map name
volume_reference (other_source name) = []

abbrev pub volume_references : List Volume → List Reference
volume_references [] = []
volume_references (v ∷ volumes) = volume_reference v.source ++ volume_references volumes

abbrev pub env_references : List EnvSource → List Reference
env_references [] = []
env_references (e ∷ env) =
    key_reference a_config_map e.config_map_ref
    ++ (key_reference a_secret e.secret_ref ++ env_references env)

abbrev pub container_references : List EnvContainer → List Reference
container_references [] = []
container_references (c ∷ containers) =
    env_references c.env ++ (env_references c.env_from ++ container_references containers)

-- Everything that the loops range over, in their order.
abbrev pub references : EnvPodTemplate → List Reference
references ps =
    volume_references ps.volumes ++ container_references (ps.init_containers ++ ps.containers)

-- What the client answers: the revision of the object, that there is none, or an error.
pub data Fetched : Type 0 where
  found : String → Fetched
  not_found : Fetched
  broken : String → Fetched

-- Labels, the error ErrMountNotFound, or another error.
pub data Loaded (A : Type 0) : Type 0 where
  loaded : A → Loaded A
  mount_not_found : Loaded A
  load_error : String → Loaded A

abbrev pub load_then : {A B : Type 0} → Loaded A → (A → Loaded B) → Loaded B
load_then (loaded a) f = f a
load_then mount_not_found f = mount_not_found
load_then (load_error e) f = load_error e

abbrev pub resource_text : Resource → String
resource_text a_secret = "secret"
resource_text a_config_map = "configmap"

-- `hash` gives the first 20 digits of the hash of a name.
module _ (hash : String → String) where
  abbrev pub get_label_name : Resource → String → String
  get_label_name resource object =
      "operator.kcp.io/" <> resource_text resource <> "-" <> hash object <> "-rev"

  abbrev pub reference_label : Reference → String
  reference_label r = get_label_name r.resource r.name

  module _ (fetch : Resource → String → Fetched) where
    abbrev pub label_fetched : Fetched → Reference → Map String → Loaded (Map String)
    label_fetched (found revision) r labels = loaded (insert (reference_label r) revision labels)
    label_fetched not_found r labels = if r.optional then loaded labels else mount_not_found
    label_fetched (broken e) r labels = load_error e

    -- loadSecret and loadConfigMap
    abbrev pub load : Reference → Map String → Loaded (Map String)
    load r labels =
        if is_some (lookup (reference_label r) labels)
        then loaded labels
        else label_fetched (fetch r.resource r.name) r labels

    abbrev pub load_all : List Reference → Map String → Loaded (Map String)
    load_all [] labels = loaded labels
    load_all (r ∷ rs) labels = load_then (load r labels) (load_all rs)

    unfoldable pub get_related_revision_labels : EnvPodTemplate → Loaded (Map String)
    get_related_revision_labels ps = load_all (references ps) []

    unfoldable pub add_revision_labels_to_pod_spec : EnvPodTemplate → Loaded EnvPodTemplate
    unfolding get_related_revision_labels
    add_revision_labels_to_pod_spec ps =
        load_then (get_related_revision_labels ps) (λ revision_labels.
          loaded (record ps { labels = copy (copy [] ps.labels) revision_labels }))
