-- ===== src/Rbac/Safety.antt =====
-- What unprovisioning and a deletion by pkg/controller/kubeconfig-rbac leave behind.
use kcp_operator.Prelude.{
  String, ◌≡◌, refl, sym, ◌∙◌, ap, subst, inl, inr, Bool, true, false, not, Option, none, some,
  List, [], ◌∷◌, ◌==◌, eq_iff, arith, Bool-cases, contains, keep,
}
use kcp_operator.Api.Kubeconfig.{Kubeconfig, KubeconfigAuthorizationStatus, ClusterRoleBinding}
use kcp_operator.Rbac.Server.{Server, View, IsLawful, put_status, put_finalizers}
use kcp_operator.Rbac.Controller.{
  panicked, and_then, cleanup_finalizer, owner_labels, provisioned, is_provisioned, answered,
  patch_provisioned_cluster, remove_finalizer, delete_bindings, clean_up, unprovision_cluster,
  handle_deletion,
}
use kcp_operator.Rbac.Ends.{Ends, and_then-Ends, Ends-map, answered-Ends, with_owned-Ends}
use kcp_operator.Rbac.Views.{
  Owns, IsAccounted, HasNone, IsAccounted-HasNone, HasNone-unprovisioned, Below, Below-Owns,
  Below-IsAccounted, HasNone-put_status, HasNone-put_finalizers,
}
use kcp_operator.Rbac.Loops.{delete_bindings-Ends, Gone, Deleted}

contains-removed :
    (xs : List String) (a : String) → contains (keep (λ x. not (x == a)) xs) a ≡ false
unfolding contains
contains-removed [] a = refl
contains-removed (x ∷ xs) a = ground (arith, contains-removed xs a)

module _ (S : Server) (L : IsLawful S) where
  abbrev pub Accounted : S.State → Type 0
  Accounted w = IsAccounted (S.view w)

  -- It finishes with the stored object in memory and without any binding.
  abbrev pub Cleaned : Bool → Kubeconfig → S.State → Type 0
  Cleaned u kc w = (kc ≡ (S.view w).kubeconfig) × HasNone (S.view w)

  -- It finishes without any binding and without the finalizer.
  abbrev pub Released : Bool → Kubeconfig → S.State → Type 0
  Released u kc w =
      HasNone (S.view w) × (contains (S.view w).kubeconfig.finalizers cleanup_finalizer ≡ false)

  patch-Cleaned :
      (kc : Kubeconfig) (cluster : String) (w : S.State)
      → Cleaned true kc w
      → Ends Cleaned Accounted (patch_provisioned_cluster S kc cluster w)
  unfolding patch_provisioned_cluster
  patch-Cleaned kc cluster w c =
      let status = some (record { provisioned_cluster = cluster }) in
      elim (Bool-cases (is_provisioned kc.status.authorization cluster)) [
        | inl e ↦ rw e c
        | inr e ↦ rw e (
            Ends-map
              (λ u kc' w'.
                (u ≡ true)
                × (kc' ≡ (S.view w').kubeconfig)
                × (S.view w' ≡ put_status status (S.view w)))
              Cleaned Accounted Accounted (answered S (S.patch_status w status))
              (λ u kc' w' h.
                (h.1, subst HasNone (sym h.2) (HasNone-put_status status (S.view w) c.1)))
              (λ w' h. h)
              (answered-Ends S IsAccounted (S.patch_status w status) w
                (put_status status (S.view w)) (L.view-patch_status w status)
                (IsAccounted-HasNone (put_status status (S.view w))
                  (HasNone-put_status status (S.view w) c.1))
                (IsAccounted-HasNone (S.view w) c.1)))
      ]

  -- All the listed bindings of the remembered workspace are gone, so there are none.
  HasNone-Gone :
      (cluster : String) (items : List (String × ClusterRoleBinding)) (w w' : S.State)
      → Accounted w
      → provisioned (S.view w).kubeconfig.status.authorization ≡ cluster
      → S.list w cluster (owner_labels (S.view w).kubeconfig) ≡ some items
      → Below (S.view w') (S.view w)
      → Gone S L (λ crb. true) items cluster (S.view w')
      → HasNone (S.view w')
  HasNone-Gone cluster items w w' a p l below gone ws n b o =
      let before = Below-Owns (S.view w) (S.view w') below ws n b o in
      let here = sym (a ws n b before).1 ∙ p in
      let there = subst (λ (x : String). Owns (S.view w) x n b) here before in
      let nothing =
        gone n b
          (L.listed-list w cluster (owner_labels (S.view w).kubeconfig) items l n b there, refl) in
      cc (nothing, here, o.0)

  deleted-Cleaned :
      (kc : Kubeconfig) (cluster : String) (items : List (String × ClusterRoleBinding))
      (w : S.State)
      → kc ≡ (S.view w).kubeconfig
      → provisioned (S.view w).kubeconfig.status.authorization ≡ cluster
      → Accounted w
      → S.list w cluster (owner_labels kc) ≡ some items
      → Ends Cleaned Accounted (delete_bindings S (λ crb. true) items cluster kc w)
  deleted-Cleaned kc cluster items w fresh p a l =
      let listing =
        subst (λ (k : Kubeconfig). S.list w cluster (owner_labels k) ≡ some items) fresh l in
      Ends-map
        (λ u kc' w'.
          (kc' ≡ kc) × Deleted S L cluster w' w × Gone S L (λ crb. true) items cluster (S.view w'))
        Cleaned (λ w'. Deleted S L cluster w' w) Accounted
        (delete_bindings S (λ crb. true) items cluster kc w)
        (λ u kc' w' h.
          (h.0 ∙ fresh ∙ sym h.1.1.0, HasNone-Gone cluster items w w' a p listing h.1.1 h.2))
        (λ w' h. Below-IsAccounted (S.view w) (S.view w') h.1 a)
        (delete_bindings-Ends S L (λ crb. true) items cluster kc w)

  clean_up-Cleaned :
      (kc : Kubeconfig) (cluster : String) (w : S.State)
      → kc ≡ (S.view w).kubeconfig
      → provisioned kc.status.authorization ≡ cluster
      → Accounted w
      → Ends Cleaned Accounted (clean_up S kc cluster w)
  clean_up-Cleaned kc cluster w fresh p a =
      let stored =
        subst (λ (k : Kubeconfig). provisioned k.status.authorization ≡ cluster) fresh p in
      elim (Bool-cases (cluster == "")) [
        | inl e ↦
            rw e (fresh, HasNone-unprovisioned (S.view w) a (stored ∙ (eq_iff cluster "").0 e))
        | inr e ↦ rw e (
            with_owned-Ends S Cleaned Accounted cluster kc w
              (λ items.
                and_then (delete_bindings S (λ crb. true) items cluster kc w)
                  (λ u kc1 w1. patch_provisioned_cluster S kc1 "" w1))
              a
              (λ items l.
                and_then-Ends Cleaned Cleaned Accounted
                  (delete_bindings S (λ crb. true) items cluster kc w)
                  (λ u kc1 w1. patch_provisioned_cluster S kc1 "" w1)
                  (deleted-Cleaned kc cluster items w fresh stored a l)
                  (λ u kc1 w1 c. patch-Cleaned kc1 "" w1 c)))
      ]

  unprovision-Cleaned :
      (w : S.State) (o : Option KubeconfigAuthorizationStatus)
      → Accounted w
      → (S.view w).kubeconfig.status.authorization ≡ o
      → Ends Cleaned Accounted (elim o [
        | none ↦ panicked w
        | some status ↦ clean_up S (S.view w).kubeconfig status.provisioned_cluster w
      ])
  unprovision-Cleaned w none a e = a
  unprovision-Cleaned w (some status) a e =
      clean_up-Cleaned (S.view w).kubeconfig status.provisioned_cluster w refl (ap provisioned e) a

  pub unprovision_cluster-Cleaned :
      (w : S.State)
      → Accounted w
      → Ends Cleaned Accounted (unprovision_cluster S (S.view w).kubeconfig w)
  unfolding unprovision_cluster
  unprovision_cluster-Cleaned w a =
      unprovision-Cleaned w (S.view w).kubeconfig.status.authorization a refl

  pub remove_finalizer-Cleaned :
      (kc : Kubeconfig) (w : S.State)
      → Cleaned true kc w
      → Ends Released Accounted (remove_finalizer S kc w)
  unfolding remove_finalizer
  remove_finalizer-Cleaned kc w c =
      let kept = S.sorted_set (keep (λ f. not (f == cleanup_finalizer)) kc.finalizers) in
      let without =
        L.contains-sorted_set (keep (λ f. not (f == cleanup_finalizer)) kc.finalizers)
          cleanup_finalizer
        ∙ contains-removed kc.finalizers cleanup_finalizer in
      let after = HasNone-put_finalizers kept (S.view w) c.1 in
      elim (Bool-cases (contains kc.finalizers cleanup_finalizer)) [
        | inr e ↦
            rw e (
              c.1,
              subst (λ (k : Kubeconfig). contains k.finalizers cleanup_finalizer ≡ false) c.0 e,
            )
        | inl e ↦ rw e (
            Ends-map
              (λ u kc' w'.
                (u ≡ true)
                × (kc' ≡ (S.view w').kubeconfig)
                × (S.view w' ≡ put_finalizers kept (S.view w)))
              Released Accounted Accounted (answered S (S.patch_finalizers w kept))
              (λ u kc' w' h.
                subst
                  (λ (v : View).
                    HasNone v × (contains v.kubeconfig.finalizers cleanup_finalizer ≡ false))
                  (sym h.2) (after, without))
              (λ w' h. h)
              (answered-Ends S IsAccounted (S.patch_finalizers w kept) w
                (put_finalizers kept (S.view w)) (L.view-patch_finalizers w kept)
                (IsAccounted-HasNone (put_finalizers kept (S.view w)) after)
                (IsAccounted-HasNone (S.view w) c.1)))
      ]

  pub handle_deletion-Released :
      (w : S.State)
      → Accounted w
      → Ends Released Accounted (handle_deletion S (S.view w).kubeconfig w)
  unfolding handle_deletion
  handle_deletion-Released w a =
      let kc = (S.view w).kubeconfig in
      elim (Bool-cases (contains kc.finalizers cleanup_finalizer)) [
        | inl e ↦ rw e (
            and_then-Ends Cleaned Released Accounted (unprovision_cluster S kc w)
              (λ u kc1 w1. remove_finalizer S kc1 w1) (unprovision_cluster-Cleaned w a)
              (λ u kc1 w1 c. remove_finalizer-Cleaned kc1 w1 c))
        | inr e ↦ rw e ((λ ws n b o. cc (e, (a ws n b o).2)), e)
      ]
