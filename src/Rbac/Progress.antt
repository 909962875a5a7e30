-- ===== src/Rbac/Progress.antt =====
-- The steps that a kubeconfig goes through until its bindings are reconciled
-- (pkg/controller/kubeconfig-rbac/controller.go).
use kcp_operator.Prelude.{
  String, ◌≡◌, ◌≢◌, refl, ◌∙◌, inl, inr, Bool, true, false, not, ◌&&◌, Option, some, List, ◌∷◌,
  ◌==◌, eq_iff, eq_refl, arith, if_false, if◌then◌else◌, contains,
}
use kcp_operator.Api.Kubeconfig.{
  Kubeconfig, KubeconfigAuthorizationStatus, get_rbac_target_workspace,
}
use kcp_operator.Rbac.Server.{Server, View, Takes}
use kcp_operator.Rbac.Controller.{
  Step, finished, and_then, answered, cleanup_finalizer, provisioned, is_provisioned,
  remove_finalizer, unprovision_cluster, wanted, provision, reconcile,
}
use kcp_operator.Rbac.Ends.{world}
use kcp_operator.Rbac.Reconcile.{IsIdle}

-- The object is the given one but for its status and its finalizers.
abbrev pub IsSame : Kubeconfig → Kubeconfig → Type 0
IsSame k k0 =
    (k.deleting ≡ k0.deleting)
    × (k.spec ≡ k0.spec)
    × (k.uid ≡ k0.uid)
    × (k.name ≡ k0.name)
    × (k.labels ≡ k0.labels)

-- It asks for bindings, and no other workspace is provisioned.
abbrev pub Asks : Kubeconfig → Type 0
Asks k = (k.deleting ≡ false) × (wanted k ≢ "") × IsIdle k

abbrev pub HasFinalizer : Kubeconfig → Type 0
HasFinalizer k = contains k.finalizers cleanup_finalizer ≡ true

abbrev pub IsRecorded : Kubeconfig → Type 0
IsRecorded k = is_provisioned k.status.authorization (wanted k) ≡ true

pub idle-unmoved :
    (k : Kubeconfig)
    → IsIdle k
    → (not (provisioned k.status.authorization == "")
        && not (wanted k == provisioned k.status.authorization))
      ≡ false
idle-unmoved k (inl e) = ground (arith, e, eq_iff (provisioned k.status.authorization) "")
idle-unmoved k (inr e) = ground (arith, e, eq_iff (wanted k) (provisioned k.status.authorization))

pub false-true : false ≡ true → ⊥
false-true e = cc e

module _ (S : Server) where
  pub reconcile-provision :
      (k : Kubeconfig) (w : S.State) → Asks k → reconcile S k w ≡ provision S k w
  unfolding reconcile
  reconcile-provision k w a =
      let old = provisioned k.status.authorization in
      let moved = not (old == "") && not (wanted k == old) in
      let rest = if wanted k == "" then remove_finalizer S k w else provision S k w in
      if_false k.deleting _ _ a.0
      ∙ if_false moved (unprovision_cluster S k w) rest (idle-unmoved k a.2)
      ∙ if_false (wanted k == "") (remove_finalizer S k w) (provision S k w)
          (ground (arith, a.1, eq_iff (wanted k) ""))

  pub world-answered :
      (r : Bool × S.State) (f : Kubeconfig → S.State → Step S.State)
      → r.0 ≡ true
      → world (and_then (answered S r) (λ u k w. if u then finished true k w else f k w)) ≡ r.1
  world-answered (true, w) f e = refl
  world-answered (false, w) f e = elim (false-true e) [ ]

  pub taken :
      (r : Bool × S.State) (w : S.State) (v : View) → Takes S r w v → r.0 ≡ true → S.view r.1 ≡ v
  taken r w v (inl e) ok = e
  taken r w v (inr e) ok = cc (e.0, ok)

-- The state after a reconciliation of the stored object.
abbrev pub after : (S : Server) → S.State → S.State
after S w = world (reconcile S (S.view w).kubeconfig w)

pub IsSame-refl : (k : Kubeconfig) → IsSame k k
IsSame-refl k = (refl, refl, refl, refl, refl)

pub IsSame-trans : (a b c : Kubeconfig) → IsSame a b → IsSame b c → IsSame a c
IsSame-trans a b c h g = (h.0 ∙ g.0, h.1 ∙ g.1, h.2 ∙ g.2, h.3 ∙ g.3, h.4 ∙ g.4)

-- What a kubeconfig has become after a step.
abbrev pub Reached : Kubeconfig → (Kubeconfig → Type 0) → Kubeconfig → Type 0
Reached k Q k1 = IsSame k1 k × Asks k1 × HasFinalizer k1 × Q k1

abbrev pub recorded_status : String → Option KubeconfigAuthorizationStatus
recorded_status cluster = some (record { provisioned_cluster = cluster })

pub first_contained : (x : String) (xs : List String) → contains (x ∷ xs) x ≡ true
unfolding contains
first_contained x xs = ground (arith, eq_refl x)

pub put_status-Reached :
    (k : Kubeconfig)
    → Asks k
    → HasFinalizer k
    → Reached k IsRecorded
        (record k { status = record { authorization = recorded_status (wanted k) } })
unfolding get_rbac_target_workspace is_provisioned
put_status-Reached k a f =
    ((refl, refl, refl, refl, refl), (a.0, a.1, inr refl), f, eq_refl (wanted k))

pub put_finalizers-Reached :
    (k : Kubeconfig) (fs : List String)
    → Asks k
    → contains fs cleanup_finalizer ≡ true
    → Reached k (λ x. Unit) (record k { finalizers = fs })
unfolding get_rbac_target_workspace
put_finalizers-Reached k fs a c = ((refl, refl, refl, refl, refl), (a.0, a.1, a.2), c, tt)
