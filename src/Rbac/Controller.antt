-- ===== src/Rbac/Controller.antt =====
-- pkg/controller/kubeconfig-rbac/controller.go: how the controller provisions the bindings of a
-- kubeconfig in a workspace, and cleans them up. internal/resources/kubeconfig/rbac.go: the bindings.
use kcp_operator.Prelude.{
  String, ◌<>◌, Bool, true, false, not, ◌&&◌, Option, none, some, List, [], ◌∷◌, ◌==◌, contains,
  keep, if◌then◌else◌,
}
use kcp_operator.Prelude.Maps.{Map, copy}
use kcp_operator.Api.Kubeconfig.{
  Kubeconfig, KubeconfigAuthorizationStatus, KubeconfigAuthorization, ClusterRoleBinding, Subject,
  get_rbac_target_workspace,
}
use kcp_operator.Rbac.Server.{Server}

abbrev pub cleanup_finalizer : String
cleanup_finalizer = "operator.kcp.io/cleanup-rbac"

abbrev pub owner_labels : Kubeconfig → Map String
owner_labels kc = ("operator.kcp.io/kubeconfig", kc.uid) ∷ []

abbrev pub kubeconfig_group : Kubeconfig → String
kubeconfig_group kc = "kubeconfig:" <> kc.name

abbrev pub binding_name : Kubeconfig → String → String
binding_name kc role = kc.uid <> ":" <> role

abbrev pub cluster_role_binding_reconciler :
    Kubeconfig → String → Subject → ClusterRoleBinding → ClusterRoleBinding
cluster_role_binding_reconciler kc role subject crb = record {
  labels = copy crb.labels (owner_labels kc);
  role_ref = record { api_group = "rbac.authorization.k8s.io"; kind = "ClusterRole"; name = role };
  subjects = subject ∷ [];
}

abbrev pub group_subject : Kubeconfig → Subject
group_subject kc = record {
  api_group = "rbac.authorization.k8s.io";
  kind = "Group";
  name = kubeconfig_group kc;
}

-- How a part of a reconciliation ends: it returns no error, and says whether it changed the object,
-- with the object as it is in memory; it returns an error; it dereferences a nil pointer.
pub data Step (W : Type 0) : Type 0 where
  finished : Bool → Kubeconfig → W → Step W
  failed : W → Step W
  panicked : W → Step W

abbrev pub and_then : {W : Type 0} → Step W → (Bool → Kubeconfig → W → Step W) → Step W
and_then (finished u kc w) f = f u kc w
and_then (failed w) f = failed w
and_then (panicked w) f = panicked w

-- What `status.authorization.provisionedCluster` says, or nothing.
abbrev pub provisioned : Option KubeconfigAuthorizationStatus → String
provisioned none = ""
provisioned (some status) = status.provisioned_cluster

abbrev pub desired_roles : Option KubeconfigAuthorization → List String
desired_roles none = []
desired_roles (some auth) = auth.cluster_role_bindings.cluster_roles

-- The workspace that the spec asks for, or nothing.
abbrev pub wanted : Kubeconfig → String
wanted kc = elim kc.spec.authorization [ none ↦ "" | some auth ↦ get_rbac_target_workspace kc ]

-- Whether the stored status is the value already.
unfoldable pub is_provisioned : Option KubeconfigAuthorizationStatus → String → Bool
is_provisioned none cluster = false
is_provisioned (some status) cluster = status.provisioned_cluster == cluster

module _ (S : Server) where
  -- The object in memory is what the API answered, when a patch succeeds.
  abbrev pub answered : Bool × S.State → Step S.State
  answered (ok, w) = if ok then finished true (S.view w).kubeconfig w else failed w

  unfoldable pub patch_provisioned_cluster : Kubeconfig → String → S.State → Step S.State
  patch_provisioned_cluster kc cluster w =
      if is_provisioned kc.status.authorization cluster
      then finished false kc w
      else answered (S.patch_status w (some (record { provisioned_cluster = cluster })))

  unfoldable pub ensure_finalizer : Kubeconfig → S.State → Step S.State
  ensure_finalizer kc w =
      if contains kc.finalizers cleanup_finalizer
      then finished false kc w
      else answered (S.patch_finalizers w (S.sorted_set (cleanup_finalizer ∷ kc.finalizers)))

  unfoldable pub remove_finalizer : Kubeconfig → S.State → Step S.State
  remove_finalizer kc w =
      if not (contains kc.finalizers cleanup_finalizer)
      then finished false kc w
      else answered (
          S.patch_finalizers w
            (S.sorted_set (keep (λ f. not (f == cleanup_finalizer)) kc.finalizers)))

  -- The loops that delete: all the listed bindings that a test selects, one by one.
  unfoldable pub delete_bindings :
      (ClusterRoleBinding → Bool)
      → List (String × ClusterRoleBinding)
      → String
      → Kubeconfig
      → S.State
      → Step S.State
  delete_bindings obsolete [] ws kc w = finished false kc w
  delete_bindings obsolete ((name, crb) ∷ items) ws kc w =
      if obsolete crb
      then (let (ok, w1) = S.delete w ws name in
          elim ok [ true ↦ delete_bindings obsolete items ws kc w1 | false ↦ failed w1 ])
      else delete_bindings obsolete items ws kc w

  -- ReconcileClusterRoleBindings, for the bindings of a list of roles.
  unfoldable pub ensure_bindings : List String → String → Kubeconfig → S.State → Step S.State
  ensure_bindings [] ws kc w = finished false kc w
  ensure_bindings (role ∷ roles) ws kc w =
      let (ok, w1) =
        S.ensure w ws (binding_name kc role)
          (cluster_role_binding_reconciler kc role (group_subject kc)) in
      elim ok [ true ↦ ensure_bindings roles ws kc w1 | false ↦ failed w1 ]

  -- Connect, list the owned bindings, and go on with them.
  abbrev pub with_owned :
      String
      → Kubeconfig
      → S.State
      → (List (String × ClusterRoleBinding) → Step S.State)
      → Step S.State
  with_owned ws kc w next =
      if S.connects w kc ws
      then elim (S.list w ws (owner_labels kc)) [ none ↦ failed w | some items ↦ next items ]
      else failed w

  abbrev pub clean_up : Kubeconfig → String → S.State → Step S.State
  clean_up kc cluster w =
      if cluster == ""
      then finished false kc w
      else with_owned cluster kc w (λ items.
        and_then (delete_bindings (λ crb. true) items cluster kc w)
          (λ u kc1 w1. patch_provisioned_cluster kc1 "" w1))

  unfoldable pub unprovision_cluster : Kubeconfig → S.State → Step S.State
  unfolding patch_provisioned_cluster delete_bindings
  unprovision_cluster kc w = elim kc.status.authorization [
    | none ↦ panicked w
    | some status ↦ clean_up kc status.provisioned_cluster w
  ]

  unfoldable pub reconcile_bindings : Kubeconfig → S.State → Step S.State
  unfolding delete_bindings ensure_bindings
  reconcile_bindings kc w =
      let ws = get_rbac_target_workspace kc in
      let desired = desired_roles kc.spec.authorization in
      with_owned ws kc w (λ items.
        and_then (delete_bindings (λ crb. not (contains desired crb.role_ref.name)) items ws kc w)
          (λ u kc1 w1. ensure_bindings (S.sorted_set desired) ws kc1 w1))

  unfoldable pub handle_deletion : Kubeconfig → S.State → Step S.State
  unfolding unprovision_cluster remove_finalizer
  handle_deletion kc w =
      if not (contains kc.finalizers cleanup_finalizer)
      then finished false kc w
      else and_then (unprovision_cluster kc w) (λ u kc1 w1. remove_finalizer kc1 w1)

  -- The part after the checks of what is provisioned.
  abbrev pub provision : Kubeconfig → S.State → Step S.State
  provision kc w = and_then (ensure_finalizer kc w) (λ added kc1 w1.
      if added
      then finished true kc1 w1
      else and_then (patch_provisioned_cluster kc1 (wanted kc) w1)
          (λ patched kc2 w2. if patched then finished true kc2 w2 else reconcile_bindings kc2 w2))

  unfoldable pub reconcile : Kubeconfig → S.State → Step S.State
  unfolding handle_deletion unprovision_cluster remove_finalizer ensure_finalizer
      patch_provisioned_cluster reconcile_bindings
  reconcile kc w =
      let old_cluster = provisioned kc.status.authorization in
      let new_cluster = wanted kc in
      if kc.deleting
      then handle_deletion kc w
      else (if not (old_cluster == "") && not (new_cluster == old_cluster)
          then unprovision_cluster kc w
          else (if new_cluster == "" then remove_finalizer kc w else provision kc w))
