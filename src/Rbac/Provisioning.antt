-- ===== src/Rbac/Provisioning.antt =====
-- How many reconciliations it takes until the bindings of a kubeconfig are there, when every request
-- succeeds (pkg/controller/kubeconfig-rbac/controller.go).
use kcp_operator.Prelude.{
  ◌≡◌, refl, sym, ◌∙◌, ap, subst, inl, inr, Bool, true, false, some, Bool-cases, ◌∷◌, arith,
  if◌then◌else◌, contains,
}
use kcp_operator.Api.Kubeconfig.{Kubeconfig, get_rbac_target_workspace}
use kcp_operator.Rbac.Server.{Server, View, IsLawful, Answers, put_finalizers, put_status}
use kcp_operator.Rbac.Controller.{
  Step, finished, and_then, answered, cleanup_finalizer, desired_roles, is_provisioned,
  patch_provisioned_cluster, ensure_finalizer, reconcile_bindings, wanted, provision, reconcile,
}
use kcp_operator.Rbac.Ends.{world, Ends, Ends-map, world-Ends}
use kcp_operator.Rbac.Matches.{Matches, Stays, Provisions, reconcile_bindings-Matches}
use kcp_operator.Rbac.Aborting.{reconcile-aborts}
use kcp_operator.Rbac.Panics.{finishes}
use kcp_operator.Rbac.Progress.{
  IsSame, Asks, HasFinalizer, IsRecorded, reconcile-provision, world-answered, taken, after,
  IsSame-refl, IsSame-trans, Reached, recorded_status, first_contained, put_status-Reached,
  put_finalizers-Reached,
}

module _ (S : Server) (L : IsLawful S) (A : Answers S) where
  -- A step keeps what the object is, and brings it further.
  abbrev Leads : (Kubeconfig → Type 0) → S.State → S.State → Type 0
  Leads Q w w' =
      IsSame (S.view w').kubeconfig (S.view w).kubeconfig
      × Asks (S.view w').kubeconfig
      × HasFinalizer (S.view w').kubeconfig
      × Q (S.view w').kubeconfig

  abbrev Anything : Kubeconfig → Type 0
  Anything k = Unit

  -- With the finalizer and the status there, the bindings are reconciled.
  provision-bindings :
      (k : Kubeconfig) (w : S.State)
      → HasFinalizer k
      → IsRecorded k
      → provision S k w ≡ reconcile_bindings S k w
  unfolding ensure_finalizer patch_provisioned_cluster
  provision-bindings k w f r = rw (f, r) refl

  Leads-by :
      (Q : Kubeconfig → Type 0) (w : S.State) (x : Kubeconfig)
      → (S.view (after S w)).kubeconfig ≡ x
      → Reached (S.view w).kubeconfig Q x
      → Leads Q w (after S w)
  Leads-by Q w x e h = subst (λ (y : Kubeconfig). Reached (S.view w).kubeconfig Q y) (sym e) h

  stays-Ends :
      (k : Kubeconfig) (w : S.State)
      → k ≡ (S.view w).kubeconfig
      → Ends (Provisions S L k w) (λ w'. (S.view w').kubeconfig ≡ k) (reconcile_bindings S k w)
  stays-Ends k w fresh =
      Ends-map (Provisions S L k w) (Provisions S L k w) (Stays S L k w)
        (λ w'. (S.view w').kubeconfig ≡ k) (reconcile_bindings S k w) (λ u k' w' h. h)
        (λ w' h. h.0 ∙ sym fresh) (reconcile_bindings-Matches S L k w)

  -- With the finalizer there, the status is patched.
  patched-world :
      (k : Kubeconfig) (w : S.State)
      → HasFinalizer k
      → is_provisioned k.status.authorization (wanted k) ≡ false
      → world (provision S k w)
        ≡ world (
            and_then
              (answered S (S.patch_status w (some (record { provisioned_cluster = wanted k }))))
              (λ u kc2 w2. if u then finished true kc2 w2 else reconcile_bindings S kc2 w2))
  unfolding ensure_finalizer patch_provisioned_cluster
  patched-world k w f e = rw (f, e) refl

  finalized-world :
      (k : Kubeconfig) (w : S.State)
      → contains k.finalizers cleanup_finalizer ≡ false
      → world (provision S k w)
        ≡ world (
            and_then
              (answered S (S.patch_finalizers w (S.sorted_set (cleanup_finalizer ∷ k.finalizers))))
              (λ u kc1 w1.
                if u
                then finished true kc1 w1
                else and_then
                    (patch_provisioned_cluster S kc1 (wanted k) w1)
                    (λ u kc2 w2. if u then finished true kc2 w2 else reconcile_bindings S kc2 w2)))
  unfolding ensure_finalizer
  finalized-world k w e = rw e refl

  bindings-Leads :
      (w : S.State)
      → Asks (S.view w).kubeconfig
      → HasFinalizer (S.view w).kubeconfig
      → IsRecorded (S.view w).kubeconfig
      → Leads IsRecorded w (after S w)
  bindings-Leads w a f r =
      let k = (S.view w).kubeconfig in
      let same = ap world (reconcile-provision S k w a ∙ provision-bindings k w f r) in
      let kept =
        world-Ends (Provisions S L k w) (λ w'. (S.view w').kubeconfig ≡ k)
          (reconcile_bindings S k w) (λ u k' w' h. h.0.0) (stays-Ends k w refl) in
      subst (λ (x : Kubeconfig). Reached k IsRecorded x)
        (sym (ap (λ (x : S.State). (S.view x).kubeconfig) same ∙ kept)) (IsSame-refl k, a, f, r)

  status-Leads :
      (w : S.State)
      → Asks (S.view w).kubeconfig
      → HasFinalizer (S.view w).kubeconfig
      → Leads IsRecorded w (after S w)
  unfolding ensure_finalizer patch_provisioned_cluster
  status-Leads w a f =
      let k = (S.view w).kubeconfig in
      let status = recorded_status (wanted k) in
      let r = S.patch_status w status in
      elim (Bool-cases (is_provisioned k.status.authorization (wanted k))) [
        | inl e ↦ bindings-Leads w a f e
        | inr e ↦
            let patched =
              ap world (reconcile-provision S k w a)
              ∙ patched-world k w f e
              ∙ world-answered S r (λ kc2 w2. reconcile_bindings S kc2 w2)
                  (A.patches_status w status) in
            Leads-by IsRecorded w (put_status status (S.view w)).kubeconfig
              (ap (λ (x : S.State). (S.view x).kubeconfig) patched
                ∙ ap (λ (v : View). v.kubeconfig)
                    (taken S r w (put_status status (S.view w)) (L.view-patch_status w status)
                      (A.patches_status w status)))
              (put_status-Reached k a f)
      ]

  finalizer-Leads : (w : S.State) → Asks (S.view w).kubeconfig → Leads Anything w (after S w)
  unfolding ensure_finalizer contains
  finalizer-Leads w a =
      let k = (S.view w).kubeconfig in
      let fs = S.sorted_set (cleanup_finalizer ∷ k.finalizers) in
      let r = S.patch_finalizers w fs in
      elim (Bool-cases (contains k.finalizers cleanup_finalizer)) [
        | inl e ↦ let h = status-Leads w a e in (h.0, h.1, h.2, tt)
        | inr e ↦
            let patched =
              ap world (reconcile-provision S k w a)
              ∙ finalized-world k w e
              ∙ world-answered S r
                  (λ kc1 w1.
                    and_then (patch_provisioned_cluster S kc1 (wanted k) w1)
                      (λ u kc2 w2. if u then finished true kc2 w2 else reconcile_bindings S kc2 w2))
                  (A.patches_finalizers w fs) in
            Leads-by Anything w (put_finalizers fs (S.view w)).kubeconfig
              (ap (λ (x : S.State). (S.view x).kubeconfig) patched
                ∙ ap (λ (v : View). v.kubeconfig)
                    (taken S r w (put_finalizers fs (S.view w)) (L.view-patch_finalizers w fs)
                      (A.patches_finalizers w fs)))
              (put_finalizers-Reached k fs a (
                L.contains-sorted_set (cleanup_finalizer ∷ k.finalizers) cleanup_finalizer
                ∙ first_contained cleanup_finalizer k.finalizers))
      ]

  -- Let every request succeed, and let a kubeconfig that is not being deleted ask for bindings while no other
  -- workspace is provisioned. Then the third reconciliation of the stored object returns without an
  -- error, the object is the same but for its status and finalizers, and the bindings of its
  -- workspace match its spec.
  pub provisioning_completes :
      (w : S.State)
      → Asks (S.view w).kubeconfig
      → let w2 = after S (after S w) in
        let k = (S.view w2).kubeconfig in
        IsSame k (S.view w).kubeconfig
        × ((u : Bool) × (k3 : Kubeconfig) × (w3 : S.State) × (reconcile S k w2 ≡ finished u k3 w3)
            × Matches
                (desired_roles k.spec.authorization)
                (get_rbac_target_workspace k)
                k
                (S.view w3))
  provisioning_completes w a =
      let w1 = after S w in
      let w2 = after S w1 in
      let k = (S.view w2).kubeconfig in
      let one = finalizer-Leads w a in
      let two = status-Leads w1 one.1 one.2 in
      let same = reconcile-provision S k w2 two.1 ∙ provision-bindings k w2 two.2 two.3 in
      let (u, k3, w3, e) =
        finishes S L (reconcile S k w2)
          (reconcile-aborts S true (inr A) k w2 ∙ ground (arith, two.1.0)) in
      let ends =
        subst (λ (s : Step S.State). Ends (Provisions S L k w2) (Stays S L k w2) s) (sym same ∙ e)
          (reconcile_bindings-Matches S L k w2) in
      (
        IsSame-trans k (S.view w1).kubeconfig (S.view w).kubeconfig two.0 one.0,
        (u, k3, w3, e, ends.1),
      )
