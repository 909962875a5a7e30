-- ===== src/Rbac/Panics.antt =====
-- When the RBAC controller dereferences a nil pointer, and when a deletion completes.
use kcp_operator.Prelude.{
  if_true, if_false, String, ◌≡◌, ◌≢◌, refl, eq_iff, eq_refl, sym, ◌∙◌, subst, inl, inr, Bool, true,
  false, not, ◌&&◌, Option, none, some, is_some, List, ◌∷◌, ◌==◌, arith, if◌then◌else◌, contains,
}
use kcp_operator.Api.Kubeconfig.{Kubeconfig, KubeconfigAuthorizationStatus}
use kcp_operator.Rbac.Server.{Server, View, IsLawful, Answers, Takes, put_finalizers}
use kcp_operator.Rbac.Controller.{
  Step, finished, failed, panicked, cleanup_finalizer, provisioned, ensure_finalizer,
  remove_finalizer, unprovision_cluster, handle_deletion, wanted, provision, reconcile,
}
use kcp_operator.Rbac.Ends.{Ends}
use kcp_operator.Rbac.Views.{IsAccounted, HasNone}
use kcp_operator.Rbac.Safety.{Released, handle_deletion-Released}
use kcp_operator.Rbac.Aborts.{aborts}
use kcp_operator.Rbac.Aborting.{reconcile-aborts}

abbrev pub panics : {W : Type 0} → Step W → Bool
panics = aborts false

-- A reconciliation dereferences a nil pointer exactly if the object is being deleted, has the cleanup
-- finalizer, and has no authorization status.
pub reconcile-panics :
    (S : Server) (kc : Kubeconfig) (w : S.State)
    → panics (reconcile S kc w) ≡ (
        kc.deleting
        && contains kc.finalizers cleanup_finalizer
        && not (is_some kc.status.authorization))
reconcile-panics S kc w = reconcile-aborts S false (inl refl) kc w

contains-first : (x : String) (xs : List String) → contains (x ∷ xs) x ≡ true
unfolding contains
contains-first x xs = ground (arith, eq_refl x)

is_some-none : (o : Option KubeconfigAuthorizationStatus) → o ≡ none → is_some o ≡ false
is_some-none none e = refl
is_some-none (some a) e = cc e

is_some-some :
    (o : Option KubeconfigAuthorizationStatus) (a : KubeconfigAuthorizationStatus)
    → o ≡ some a
    → is_some o ≡ true
is_some-some none a e = cc e
is_some-some (some b) a e = refl

reconcile_deleting :
    (S : Server) (kc : Kubeconfig) (w : S.State)
    → kc.deleting ≡ true
    → reconcile S kc w ≡ handle_deletion S kc w
unfolding reconcile
reconcile_deleting S kc w d = if_true kc.deleting _ _ d

provisioned-none : (o : Option KubeconfigAuthorizationStatus) → o ≡ none → provisioned o ≡ ""
provisioned-none none e = refl
provisioned-none (some a) e = cc e

first_reconcile :
    (S : Server) (kc : Kubeconfig) (w : S.State)
    → kc.deleting ≡ false
    → kc.status.authorization ≡ none
    → wanted kc ≢ ""
    → contains kc.finalizers cleanup_finalizer ≡ false
    → (S.patch_finalizers w (S.sorted_set (cleanup_finalizer ∷ kc.finalizers))).0 ≡ true
    → reconcile S kc w
      ≡ finished true
          (S.view
            (S.patch_finalizers w (S.sorted_set (cleanup_finalizer ∷ kc.finalizers))).1).kubeconfig
          (S.patch_finalizers w (S.sorted_set (cleanup_finalizer ∷ kc.finalizers))).1
unfolding reconcile ensure_finalizer
first_reconcile S kc w d n ne f ok =
    let old = provisioned kc.status.authorization in
    let moved = not (old == "") && not (wanted kc == old) in
    let rest = if wanted kc == "" then remove_finalizer S kc w else provision S kc w in
    let empty = provisioned-none kc.status.authorization n in
    if_false kc.deleting _ _ d
    ∙ if_false moved (unprovision_cluster S kc w) rest (ground (arith, empty, eq_iff old ""))
    ∙ if_false (wanted kc == "") (remove_finalizer S kc w) (provision S kc w)
        (ground (arith, ne, eq_iff (wanted kc) ""))
    ∙ rw (f, ok) refl

module _ (S : Server) (L : IsLawful S) where
  finalizer-Unrecorded :
      (r : Bool × S.State) (w : S.State) (fs : List String)
      → Takes S r w (put_finalizers fs (S.view w))
      → r.0 ≡ true
      → contains fs cleanup_finalizer ≡ true
      → (S.view w).kubeconfig.status.authorization ≡ none
      → ((S.view r.1).kubeconfig.status.authorization ≡ none)
        × (contains (S.view r.1).kubeconfig.finalizers cleanup_finalizer ≡ true)
  finalizer-Unrecorded r w fs (inl e) ok c n = (
    subst (λ (v : View). v.kubeconfig.status.authorization ≡ none) (sym e) n,
    subst (λ (v : View). contains v.kubeconfig.finalizers cleanup_finalizer ≡ true) (sym e) c,
  )
  finalizer-Unrecorded r w fs (inr e) ok c n = cc (e.0, ok)

  -- Let a kubeconfig that asks for bindings be reconciled for the first time, and its patch succeed: this
  -- adds the finalizer and returns. If the object is deleted before it is reconciled again, then that
  -- reconciliation dereferences a nil pointer, whatever is stored then.
  pub first_deletion_panics :
      (w : S.State)
      → (S.view w).kubeconfig.deleting ≡ false
      → (S.view w).kubeconfig.status.authorization ≡ none
      → wanted (S.view w).kubeconfig ≢ ""
      → contains (S.view w).kubeconfig.finalizers cleanup_finalizer ≡ false
      → (S.patch_finalizers w
          (S.sorted_set (cleanup_finalizer ∷ (S.view w).kubeconfig.finalizers))).0
        ≡ true
      → (kc1 : Kubeconfig) × (w1 : S.State) × (reconcile S (S.view w).kubeconfig w
          ≡ finished true kc1 w1)
        × ((w2 : S.State) → panics (reconcile S (record kc1 { deleting = true }) w2) ≡ true)
  first_deletion_panics w d n ne f ok =
      let kc = (S.view w).kubeconfig in
      let fs = S.sorted_set (cleanup_finalizer ∷ kc.finalizers) in
      let r = S.patch_finalizers w fs in
      let kc1 = (S.view r.1).kubeconfig in
      let facts =
        finalizer-Unrecorded r w fs (L.view-patch_finalizers w fs) ok
          (L.contains-sorted_set (cleanup_finalizer ∷ kc.finalizers) cleanup_finalizer
            ∙ contains-first cleanup_finalizer kc.finalizers)
          n in
      (
        kc1,
        r.1,
        first_reconcile S kc w d n ne f ok,
        λ w2.
            reconcile-panics S (record kc1 { deleting = true }) w2
            ∙ ground (arith, facts.0, facts.1, is_some-none kc1.status.authorization facts.0),
      )

  pub finishes :
      (s : Step S.State)
      → aborts true s ≡ false
      → (u : Bool) × (kc : Kubeconfig) × (w : S.State) × (s ≡ finished u kc w)
  finishes (finished u kc w) e = (u, kc, w, refl)
  finishes (failed w) e = cc e
  finishes (panicked w) e = cc e

  -- Let the bindings of a kubeconfig that is being deleted be accounted for, and its status record its
  -- authorization. If every request succeeds, then the reconciliation returns without an error, and
  -- leaves no binding that carries the kubeconfig's label and no cleanup finalizer.
  pub deletion_completes :
      (w : S.State) (status : KubeconfigAuthorizationStatus)
      → Answers S
      → IsAccounted (S.view w)
      → (S.view w).kubeconfig.deleting ≡ true
      → (S.view w).kubeconfig.status.authorization ≡ some status
      → (u : Bool) × (kc1 : Kubeconfig) × (w1 : S.State) × (reconcile S (S.view w).kubeconfig w
          ≡ finished u kc1 w1)
        × HasNone (S.view w1)
        × (contains (S.view w1).kubeconfig.finalizers cleanup_finalizer ≡ false)
  deletion_completes w status answers accounted d st =
      let kc = (S.view w).kubeconfig in
      let no_abort =
        reconcile-aborts S true (inr answers) kc w
        ∙ ground (arith, is_some-some kc.status.authorization status st) in
      let (u, kc1, w1, e) = finishes (reconcile S kc w) no_abort in
      let deletion = reconcile_deleting S kc w d in
      let ends =
        subst (λ (s : Step S.State). Ends (Released S L) (λ x. IsAccounted (S.view x)) s)
          (sym deletion ∙ e) (handle_deletion-Released S L w accounted) in
      (u, kc1, w1, e, ends.0, ends.1)
