-- ===== src/Api/Kubeconfig.antt =====
-- The Kubeconfig object of sdk/apis/operator/v1alpha1/kubeconfig_types.go, and the ClusterRoleBindings that
-- the RBAC controller manages.
use kcp_operator.Prelude.{◌<>◌, String, Bool, Option, none, some, List, ◌==◌, if◌then◌else◌}
use kcp_operator.Prelude.Maps.{Map}
use kcp_operator.Api.Certificates.{CertificateTemplate}

pub record KubeconfigClusterRoleBindings : Type 0 where
  pub cluster : String
  pub cluster_roles : List String

pub record KubeconfigAuthorization : Type 0 where
  pub cluster_role_bindings : KubeconfigClusterRoleBindings

pub record KubeconfigTarget : Type 0 where
  pub root_shard_ref : Option String
  pub shard_ref : Option String
  pub front_proxy_ref : Option String

-- `validity` is the text of a duration.
pub record KubeconfigSpec : Type 0 where
  pub target : KubeconfigTarget
  pub username : String
  pub groups : List String
  pub validity : String
  pub secret_ref : String
  pub certificate_template : Option CertificateTemplate
  pub target_workspace : String
  pub authorization : Option KubeconfigAuthorization

pub record KubeconfigAuthorizationStatus : Type 0 where
  pub provisioned_cluster : String

pub record KubeconfigStatus : Type 0 where
  pub authorization : Option KubeconfigAuthorizationStatus

-- `deleting` says that the deletion timestamp is set.
pub record Kubeconfig : Type 0 where
  pub name : String
  pub uid : String
  pub labels : Map String
  pub deleting : Bool
  pub finalizers : List String
  pub spec : KubeconfigSpec
  pub status : KubeconfigStatus

pub record RoleRef : Type 0 where
  pub api_group : String
  pub kind : String
  pub name : String

pub record Subject : Type 0 where
  pub api_group : String
  pub kind : String
  pub name : String

pub record ClusterRoleBinding : Type 0 where
  pub labels : Map String
  pub role_ref : RoleRef
  pub subjects : List Subject

-- The text of a configured workspace path: the client library makes a path of a text, and prints it.
or_deprecated_cluster : Option KubeconfigAuthorization → String
or_deprecated_cluster none = "root"
or_deprecated_cluster (some auth) =
    let cluster = auth.cluster_role_bindings.cluster in if cluster == "" then "root" else cluster

unfoldable pub get_rbac_target_workspace : Kubeconfig → String
unfolding or_deprecated_cluster
get_rbac_target_workspace kc =
    if kc.spec.target_workspace == ""
    then or_deprecated_cluster kc.spec.authorization
    else kc.spec.target_workspace

unfoldable pub get_target_workspace : Kubeconfig → String
get_target_workspace kc =
    if kc.spec.target_workspace == "" then "root" else kc.spec.target_workspace

unfoldable pub get_certificate_name : Kubeconfig → String
get_certificate_name kc = "kubeconfig-cert-" <> kc.name
