-- ===== src/Rbac/Aborting.antt =====
-- How a reconciliation of the RBAC controller can end otherwise than by success.
use kcp_operator.Prelude.{
  String, ◌≡◌, refl, ◌∙◌, Bool, true, false, not, ◌&&◌, Option, none, some, is_some, List, ◌==◌,
  arith, if◌then◌else◌, contains,
}
use kcp_operator.Api.Kubeconfig.{
  Kubeconfig, KubeconfigAuthorizationStatus, ClusterRoleBinding, get_rbac_target_workspace,
}
use kcp_operator.Rbac.Server.{Server}
use kcp_operator.Rbac.Controller.{
  finished, panicked, and_then, cleanup_finalizer, provisioned, desired_roles,
  patch_provisioned_cluster, ensure_finalizer, remove_finalizer, delete_bindings, ensure_bindings,
  with_owned, clean_up, unprovision_cluster, reconcile_bindings, handle_deletion, wanted, provision,
  reconcile,
}
use kcp_operator.Rbac.Aborts.{
  aborts, Counts, and_then-aborts, if-aborts, if-never, patch_provisioned_cluster-aborts,
  remove_finalizer-aborts, ensure_finalizer-aborts, delete_bindings-aborts, ensure_bindings-aborts,
  with_owned-aborts,
}

module _ (S : Server) (strict : Bool) (counts : Counts S strict) where
  clean_up-aborts :
      (kc : Kubeconfig) (cluster : String) (w : S.State)
      → aborts strict (clean_up S kc cluster w) ≡ false
  clean_up-aborts kc cluster w =
      let next = λ (items : List (String × ClusterRoleBinding)).
        and_then (delete_bindings S (λ crb. true) items cluster kc w)
          (λ u kc1 w1. patch_provisioned_cluster S kc1 "" w1) in
      if-never strict (cluster == "") (finished false kc w) (with_owned S cluster kc w next) refl (
        with_owned-aborts S strict counts cluster kc w next (λ items.
          and_then-aborts strict (delete_bindings S (λ crb. true) items cluster kc w)
            (λ u kc1 w1. patch_provisioned_cluster S kc1 "" w1)
            (λ u kc1 w1. patch_provisioned_cluster-aborts S strict counts kc1 "" w1)
          ∙ delete_bindings-aborts S strict counts (λ crb. true) items cluster kc w))

  reconcile_bindings-aborts :
      (kc : Kubeconfig) (w : S.State) → aborts strict (reconcile_bindings S kc w) ≡ false
  unfolding reconcile_bindings
  reconcile_bindings-aborts kc w =
      let ws = get_rbac_target_workspace kc in
      let desired = desired_roles kc.spec.authorization in
      let obsolete = λ (crb : ClusterRoleBinding). not (contains desired crb.role_ref.name) in
      with_owned-aborts S strict counts ws kc w
        (λ items.
          and_then (delete_bindings S obsolete items ws kc w)
            (λ u kc1 w1. ensure_bindings S (S.sorted_set desired) ws kc1 w1))
        (λ items.
          and_then-aborts strict (delete_bindings S obsolete items ws kc w)
            (λ u kc1 w1. ensure_bindings S (S.sorted_set desired) ws kc1 w1)
            (λ u kc1 w1. ensure_bindings-aborts S strict counts (S.sorted_set desired) ws kc1 w1)
          ∙ delete_bindings-aborts S strict counts obsolete items ws kc w)

  unprovision-aborts :
      (o : Option KubeconfigAuthorizationStatus) (kc : Kubeconfig) (w : S.State)
      → aborts strict
          (elim o [ none ↦ panicked w | some status ↦ clean_up S kc status.provisioned_cluster w ])
        ≡ not (is_some o)
  unprovision-aborts none kc w = refl
  unprovision-aborts (some status) kc w = clean_up-aborts kc status.provisioned_cluster w

  unprovision_cluster-aborts :
      (kc : Kubeconfig) (w : S.State)
      → aborts strict (unprovision_cluster S kc w) ≡ not (is_some kc.status.authorization)
  unfolding unprovision_cluster
  unprovision_cluster-aborts kc w = unprovision-aborts kc.status.authorization kc w

  provision-aborts : (kc : Kubeconfig) (w : S.State) → aborts strict (provision S kc w) ≡ false
  provision-aborts kc w =
      let last = λ (u : Bool) (kc2 : Kubeconfig) (w2 : S.State).
        if u then finished true kc2 w2 else reconcile_bindings S kc2 w2 in
      let next = λ (u : Bool) (kc1 : Kubeconfig) (w1 : S.State).
        if u
        then finished true kc1 w1
        else and_then (patch_provisioned_cluster S kc1 (wanted kc) w1) last in
      and_then-aborts strict (ensure_finalizer S kc w) next (λ u kc1 w1.
        if-never strict u (finished true kc1 w1)
          (and_then (patch_provisioned_cluster S kc1 (wanted kc) w1) last) refl
          (and_then-aborts strict (patch_provisioned_cluster S kc1 (wanted kc) w1) last (λ v kc2 w2.
              if-never strict v (finished true kc2 w2) (reconcile_bindings S kc2 w2) refl
                (reconcile_bindings-aborts kc2 w2))
            ∙ patch_provisioned_cluster-aborts S strict counts kc1 (wanted kc) w1))
      ∙ ensure_finalizer-aborts S strict counts kc w

  handle_deletion-aborts :
      (kc : Kubeconfig) (w : S.State)
      → aborts strict (handle_deletion S kc w)
        ≡ (contains kc.finalizers cleanup_finalizer && not (is_some kc.status.authorization))
  unfolding handle_deletion
  handle_deletion-aborts kc w =
      let remove = λ (u : Bool) (kc1 : Kubeconfig) (w1 : S.State). remove_finalizer S kc1 w1 in
      let here =
        if-aborts strict (not (contains kc.finalizers cleanup_finalizer)) (finished false kc w)
          (and_then (unprovision_cluster S kc w) remove) false
          (not (is_some kc.status.authorization)) (λ e. refl)
          (λ e.
            and_then-aborts strict (unprovision_cluster S kc w) remove
              (λ u kc1 w1. remove_finalizer-aborts S strict counts kc1 w1)
            ∙ unprovision_cluster-aborts kc w) in
      ground (arith, here)

  recorded :
      (o : Option KubeconfigAuthorizationStatus) (b : Bool)
      → (not (provisioned o == "") && b) ≡ true
      → not (is_some o) ≡ false
  recorded none b e = cc e
  recorded (some status) b e = refl

  -- Errors, where they count, do not occur, and a panic occurs exactly in one case.
  pub reconcile-aborts :
      (kc : Kubeconfig) (w : S.State)
      → aborts strict (reconcile S kc w) ≡ (
          kc.deleting
          && contains kc.finalizers cleanup_finalizer
          && not (is_some kc.status.authorization))
  unfolding reconcile
  reconcile-aborts kc w =
      let old = provisioned kc.status.authorization in
      let moved = not (old == "") && not (wanted kc == old) in
      let rest = if wanted kc == "" then remove_finalizer S kc w else provision S kc w in
      let here =
        if-aborts strict kc.deleting (handle_deletion S kc w)
          (if moved then unprovision_cluster S kc w else rest)
          (contains kc.finalizers cleanup_finalizer && not (is_some kc.status.authorization)) false
          (λ e. handle_deletion-aborts kc w)
          (λ e.
            if-aborts strict moved (unprovision_cluster S kc w) rest false false
              (λ m.
                unprovision_cluster-aborts kc w
                ∙ recorded kc.status.authorization (not (wanted kc == old)) m)
              (λ m.
                if-never strict (wanted kc == "") (remove_finalizer S kc w) (provision S kc w)
                  (remove_finalizer-aborts S strict counts kc w) (provision-aborts kc w))
            ∙ ground arith) in
      here ∙ ground arith
