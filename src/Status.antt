-- ===== src/Status.antt =====
-- Conditions and phases in the status of objects: pkg/controller/util/util.go, and reconcileStatus of
-- the controllers in pkg/controller/shard, rootshard and frontproxy.
pub mod Phases
pub mod PhaseRules
pub mod Reported
pub mod Listing
pub mod Readiness
use kcp_operator.Prelude.{
  ℕ, String, ◌<>◌, ◌≡◌, Bool, true, false, not, ◌&&◌, ◌||◌, Option, none, some, List, [], ◌∷◌, ◌++◌,
  ◌==◌, eqb, if◌then◌else◌,
}
use kcp_operator.Prelude.Maps.{Map, insert}
use kcp_operator.Prelude.Decimal.{ℤ, pos, print_int}

-- `transition_time` is empty for the zero time.
pub record Condition : Type 0 where
  pub type_name : String
  pub status : String
  pub observed_generation : ℕ
  pub transition_time : String
  pub reason : String
  pub message : String

abbrev pub condition_type_available : String
condition_type_available = "Available"

abbrev pub condition_type_root_shard : String
condition_type_root_shard = "RootShard"

-- FindStatusCondition and SetStatusCondition of the API machinery, which keeps conditions by their
-- types, and the time at which it sets one.
pub record ConditionLibrary : Type 0 where
  pub now : String
  pub find : List Condition → String → Option Condition
  pub set : List Condition → Condition → List Condition

-- What setting a condition stores, by the condition of that type before: the transition time changes
-- only with the status, and is the current time where it is not given.
abbrev pub settled : String → Option Condition → Condition → Condition
settled now none c = if c.transition_time == "" then record c { transition_time = now } else c
settled now (some old) c =
    if old.status == c.status
    then record c { transition_time = old.transition_time }
    else (if c.transition_time == "" then record c { transition_time = now } else c)

pub record IsFaithful (L : ConditionLibrary) : Type 0 where
  pub find-nil : (t : String) → L.find [] t ≡ none
  pub find-type :
      (cs : List Condition) (t : String) (c : Condition) → L.find cs t ≡ some c → c.type_name ≡ t
  pub find-set :
      (cs : List Condition) (c : Condition) (t : String)
      → L.find (L.set cs c) t
        ≡ (if c.type_name == t then some (settled L.now (L.find cs c.type_name) c) else L.find cs t)

pub record CertificateCondition : Type 0 where
  pub type_name : String
  pub status : String

pub record Certificate : Type 0 where
  pub name : String
  pub revision : Option ℕ
  pub conditions : List CertificateCondition

abbrev ready_condition : List CertificateCondition → Bool
ready_condition [] = false
ready_condition (c ∷ cs) = if c.type_name == "Ready" then c.status == "True" else ready_condition cs

unfoldable pub certificate_ready : Certificate → Bool
certificate_ready cert = ready_condition cert.conditions

abbrev pub revision_text : Option ℕ → String
revision_text none = print_int (pos 0)
revision_text (some n) = print_int (pos n)

abbrev collect_revisions : List Certificate → Map String → Option (Map String)
collect_revisions [] revisions = some revisions
collect_revisions (cert ∷ certs) revisions =
    if not (certificate_ready cert)
    then none
    else collect_revisions certs (insert cert.name (revision_text cert.revision) revisions)

-- The revisions by the names of the certificates, or that one of them is not ready.
unfoldable pub certificate_revisions : List Certificate → Option (Map String)
unfolding certificate_ready
certificate_revisions certs = collect_revisions certs []

-- What the client answers to a request for an object.
pub data Answer (A : Type 0) : Type 0 where
  answer : A → Answer A
  missing : Answer A
  refused : String → Answer A

pub record DeploymentState : Type 0 where
  pub updated_replicas : ℕ
  pub ready_replicas : ℕ
  pub replicas : Option ℕ

abbrev or_zero : Option ℕ → ℕ
or_zero none = 0
or_zero (some n) = n

abbrev pub deployment_ready : DeploymentState → Bool
deployment_ready dep =
    eqb dep.updated_replicas dep.ready_replicas && eqb dep.ready_replicas (or_zero dep.replicas)

abbrev pub available_condition : String → String → String → Condition
available_condition status reason message = record {
  type_name = condition_type_available;
  status = status;
  observed_generation = 0;
  transition_time = "";
  reason = reason;
  message = message;
}

-- `key` is the namespace and the name, as the code prints them.
unfoldable pub get_deployment_available_condition :
    String → Answer DeploymentState → Answer Condition
get_deployment_available_condition key (answer dep) =
    if deployment_ready dep
    then answer (
        available_condition "True" "ReplicasUp"
          ("Deployment " <> key <> " is fully up and running."))
    else answer (
        available_condition "False" "ReplicasUnavailable"
          ("Deployment " <> key <> " is not in desired replica state."))
get_deployment_available_condition key missing = answer (
    available_condition "False" "DeploymentUnavailable"
      ("Deployment " <> key <> " does not exist."))
get_deployment_available_condition key (refused e) = refused e

abbrev copied_condition : String → Option Condition → Condition
copied_condition compiled_name none =
    available_condition "False" "DeploymentUnavailable"
      (compiled_name <> " has not been rendered yet.")
copied_condition compiled_name (some c) = record {
  type_name = c.type_name;
  status = c.status;
  observed_generation = 0;
  transition_time = "";
  reason = c.reason;
  message = c.message;
}

abbrev pub is_available : Option Condition → Bool
is_available none = false
is_available (some c) = c.status == "True"

module _ (L : ConditionLibrary) where
  unfoldable pub get_compiled_available_condition : List Condition → String → Condition
  get_compiled_available_condition conditions compiled_name =
      copied_condition compiled_name (L.find conditions condition_type_available)

  -- `now` is the time that UpdateCondition reads.
  abbrev pub changed : String → List Condition → Condition → Option Condition → List Condition
  changed now cs c none = L.set cs (record c { transition_time = now })
  changed now cs c (some old) =
      if not (eqb old.observed_generation c.observed_generation) || not (old.status == c.status)
      then L.set cs (record c {
        transition_time = if old.status == c.status then old.transition_time else now;
      })
      else cs

  unfoldable pub update_condition : String → List Condition → Condition → List Condition
  update_condition now cs c = changed now cs c (L.find cs c.type_name)

  -- The loop of reconcileStatus over the conditions.
  unfoldable pub update_conditions : String → ℕ → List Condition → List Condition → List Condition
  unfolding update_condition
  update_conditions now generation cs [] = cs
  update_conditions now generation cs (c ∷ new) =
      update_conditions now generation
        (update_condition now cs (record c { observed_generation = generation })) new
