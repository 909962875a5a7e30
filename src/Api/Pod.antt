-- ===== src/Api/Pod.antt =====
-- The parts of a Kubernetes Deployment that the operator fills in, and the templates with which a
-- user overrides them (sdk/apis/operator/v1alpha1/common.go).
use kcp_operator.Prelude.{ℕ, String, Bool, Option, List}
use kcp_operator.Prelude.Maps.{Map}

pub data VolumeSource : Type 0 where
  secret : String → VolumeSource
  config_map : String → VolumeSource
  other_source : String → VolumeSource

pub record Volume : Type 0 where
  pub name : String
  pub source : VolumeSource

pub record VolumeMount : Type 0 where
  pub name : String
  pub read_only : Bool
  pub mount_path : String

pub record ContainerPort : Type 0 where
  pub name : String
  pub container_port : ℕ
  pub protocol : String

pub record SecurityContext : Type 0 where
  pub seccomp_profile : String
  pub read_only_root_filesystem : Bool
  pub allow_privilege_escalation : Bool
  pub drop : List String

pub record Probe : Type 0 where
  pub failure_threshold : ℕ
  pub initial_delay_seconds : ℕ
  pub period_seconds : ℕ
  pub success_threshold : ℕ
  pub timeout_seconds : ℕ
  pub path : String
  pub port : String
  pub scheme : String

-- A `ResourceRequirements` value holds two Go maps, and a map is a reference: `none` is a nil map
-- and `some a` the map at the address `a` of the heap.
pub record ResourceRefs : Type 0 where
  pub limits : Option ℕ
  pub requests : Option ℕ

-- The resources in a spec, which the operator only reads.
pub record ResourceRequirements : Type 0 where
  pub limits : Map String
  pub requests : Map String

pub record Container : Type 0 where
  pub name : String
  pub image : String
  pub command : List String
  pub args : List String
  pub ports : List ContainerPort
  pub volume_mounts : List VolumeMount
  pub resources : ResourceRefs
  pub security_context : Option SecurityContext
  pub startup_probe : Option Probe
  pub readiness_probe : Option Probe
  pub liveness_probe : Option Probe

pub record PodSpec : Type 0 where
  pub containers : List Container
  pub volumes : List Volume
  pub image_pull_secrets : List String
  pub node_selector : Map String
  pub affinity : Option String
  pub tolerations : List String
  pub host_aliases : List String
  pub topology_spread_constraints : List String

-- The metadata that the operator sets on objects and templates.
pub record Metadata : Type 0 where
  pub annotations : Map String
  pub labels : Map String

pub record PodTemplate : Type 0 where
  pub metadata : Metadata
  pub spec : PodSpec

pub record DeploymentSpec : Type 0 where
  pub replicas : Option ℕ
  pub selector : Map String
  pub template : PodTemplate

pub record Deployment : Type 0 where
  pub metadata : Metadata
  pub spec : DeploymentSpec

-- User overrides.
pub record PodSpecTemplate : Type 0 where
  pub node_selector : Map String
  pub affinity : Option String
  pub tolerations : List String
  pub host_aliases : List String
  pub image_pull_secrets : List String
  pub topology_spread_constraints : List String

pub record PodTemplateSpec : Type 0 where
  pub metadata : Option Metadata
  pub spec : Option PodSpecTemplate

pub record DeploymentSpecTemplate : Type 0 where
  pub template : Option PodTemplateSpec

pub record DeploymentTemplate : Type 0 where
  pub metadata : Option Metadata
  pub spec : Option DeploymentSpecTemplate
