-- ===== src/Rbac/Reconcile.antt =====
-- The properties of a whole reconciliation of the RBAC controller.
use kcp_operator.Prelude.{
  String, ◌≡◌, ◌≢◌, refl, sym, ◌∙◌, subst, ◌⊎◌, inl, inr, Bool, true, false, not, ◌&&◌, Option,
  none, some, Option-cases, ◌∷◌, ◌==◌, eq_iff, arith, Bool-cases, if◌then◌else◌, contains,
}
use kcp_operator.Api.Kubeconfig.{
  Kubeconfig, KubeconfigAuthorizationStatus, get_rbac_target_workspace,
}
use kcp_operator.Rbac.Server.{Server, View, IsLawful, Takes, put_status, put_finalizers}
use kcp_operator.Rbac.Controller.{
  Step, finished, and_then, cleanup_finalizer, provisioned, is_provisioned, answered,
  patch_provisioned_cluster, ensure_finalizer, remove_finalizer, unprovision_cluster,
  reconcile_bindings, handle_deletion, wanted, provision, reconcile,
}
use kcp_operator.Rbac.Ends.{world, Ends, Ends-map, world-Ends, Takes-either}
use kcp_operator.Rbac.Views.{
  Remembered, IsAccounted, IsAccounted-HasNone, HasNone-unprovisioned, Within-IsAccounted,
  HasNone-put_status, IsAccounted-put_finalizers,
}
use kcp_operator.Rbac.Safety.{
  Accounted, Cleaned, Released, unprovision_cluster-Cleaned, remove_finalizer-Cleaned,
  handle_deletion-Released,
}
use kcp_operator.Rbac.Matches.{Stays, Provisions, reconcile_bindings-Matches}

pub is_provisioned-eq :
    (o : Option KubeconfigAuthorizationStatus) (c : String)
    → is_provisioned o c ≡ true
    → provisioned o ≡ c
unfolding is_provisioned
is_provisioned-eq none c e = cc e
is_provisioned-eq (some status) c e = (eq_iff status.provisioned_cluster c).0 e

-- Nothing is provisioned but what is wanted.
abbrev pub IsIdle : Kubeconfig → Type 0
IsIdle kc =
    (provisioned kc.status.authorization ≡ "") ⊎ (wanted kc ≡ provisioned kc.status.authorization)

unequal :
    (o : Option KubeconfigAuthorizationStatus) (c : String)
    → c ≢ ""
    → c ≡ provisioned o
    → is_provisioned o c ≡ false
    → ⊥
unfolding is_provisioned
unequal none c ne e n = ne e
unequal (some status) c ne e n = cc (n, (eq_iff status.provisioned_cluster c).1 (sym e))

idle_provisioned :
    (kc : Kubeconfig)
    → wanted kc ≢ ""
    → IsIdle kc
    → is_provisioned kc.status.authorization (wanted kc) ≡ false
    → provisioned kc.status.authorization ≡ ""
idle_provisioned kc ne (inl e) n = e
idle_provisioned kc ne (inr e) n = elim (unequal kc.status.authorization (wanted kc) ne e n) [ ]

wanted-target : (kc : Kubeconfig) → wanted kc ≢ "" → wanted kc ≡ get_rbac_target_workspace kc
wanted-target kc ne = elim (Option-cases kc.spec.authorization) [
  | inl e ↦ elim (ne (rw e refl)) [ ]
  | inr e ↦ rw e.1 refl
]

remembered :
    (kc : Kubeconfig)
    → wanted kc ≢ ""
    → provisioned kc.status.authorization ≡ wanted kc
    → contains kc.finalizers cleanup_finalizer ≡ true
    → Remembered kc (get_rbac_target_workspace kc)
remembered kc ne p f = subst (λ (ws : String). Remembered kc ws) (wanted-target kc ne) (ne, p, f)

wanted-ne : (kc : Kubeconfig) → (wanted kc == "") ≡ false → wanted kc ≢ ""
wanted-ne kc n e = cc (n, (eq_iff (wanted kc) "").1 e)

idle :
    (kc : Kubeconfig)
    → (not (provisioned kc.status.authorization == "")
        && not (wanted kc == provisioned kc.status.authorization))
      ≡ false
    → IsIdle kc
idle kc m = ground (
  arith,
  m,
  eq_iff (provisioned kc.status.authorization) "",
  eq_iff (wanted kc) (provisioned kc.status.authorization),
)

unwanted :
    (kc : Kubeconfig)
    → (not (provisioned kc.status.authorization == "")
        && not (wanted kc == provisioned kc.status.authorization))
      ≡ false
    → (wanted kc == "") ≡ true
    → provisioned kc.status.authorization ≡ ""
unwanted kc m n = elim (idle kc m) [ inl e ↦ e | inr e ↦ sym e ∙ (eq_iff (wanted kc) "").0 n ]

module _ (S : Server) (L : IsLawful S) where
  abbrev Accounts : Step S.State → Type 0
  Accounts = Ends (λ u kc w. IsAccounted (S.view w)) (λ w. IsAccounted (S.view w))

  -- A patch that keeps the invariant, and what follows it.
  patched-Accounts :
      (r : Bool × S.State) (w : S.State) (v : View) (f : Kubeconfig → S.State → Step S.State)
      → Takes S r w v
      → IsAccounted v
      → IsAccounted (S.view w)
      → Accounts
          (and_then (answered S r) (λ u kc1 w1. if u then finished true kc1 w1 else f kc1 w1))
  patched-Accounts (true, w1) w v f takes after before =
      Takes-either S IsAccounted (true, w1) w v takes after before
  patched-Accounts (false, w1) w v f takes after before =
      Takes-either S IsAccounted (false, w1) w v takes after before

  reconcile_bindings-Accounts :
      (w : S.State)
      → IsAccounted (S.view w)
      → Remembered (S.view w).kubeconfig (get_rbac_target_workspace (S.view w).kubeconfig)
      → Accounts (reconcile_bindings S (S.view w).kubeconfig w)
  reconcile_bindings-Accounts w a r =
      let kc = (S.view w).kubeconfig in
      let ws = get_rbac_target_workspace kc in
      Ends-map (Provisions S L kc w) (λ u kc' w'. IsAccounted (S.view w')) (Stays S L kc w)
        (λ w'. IsAccounted (S.view w')) (reconcile_bindings S kc w)
        (λ u kc' w' h. Within-IsAccounted ws (S.view w) (S.view w') h.0 r a)
        (λ w' h. Within-IsAccounted ws (S.view w) (S.view w') h r a)
        (reconcile_bindings-Matches S L kc w)

  remember-Accounts :
      (w : S.State)
      → IsAccounted (S.view w)
      → wanted (S.view w).kubeconfig ≢ ""
      → IsIdle (S.view w).kubeconfig
      → contains (S.view w).kubeconfig.finalizers cleanup_finalizer ≡ true
      → Accounts (
          and_then
            (patch_provisioned_cluster S (S.view w).kubeconfig (wanted (S.view w).kubeconfig) w)
            (λ patched kc2 w2.
              if patched then finished true kc2 w2 else reconcile_bindings S kc2 w2))
  unfolding patch_provisioned_cluster
  remember-Accounts w a ne idle f =
      let kc = (S.view w).kubeconfig in
      let status = some (record { provisioned_cluster = wanted kc }) in
      elim (Bool-cases (is_provisioned kc.status.authorization (wanted kc))) [
        | inl e ↦ rw e (
            reconcile_bindings-Accounts w a
              (remembered kc ne (is_provisioned-eq kc.status.authorization (wanted kc) e) f))
        | inr e ↦ rw e (
            patched-Accounts (S.patch_status w status) w (put_status status (S.view w))
              (λ kc2 w2. reconcile_bindings S kc2 w2) (L.view-patch_status w status)
              (IsAccounted-HasNone (put_status status (S.view w)) (
                HasNone-put_status status (S.view w)
                  (HasNone-unprovisioned (S.view w) a (idle_provisioned kc ne idle e))))
              a)
      ]

  provision-Accounts :
      (w : S.State)
      → IsAccounted (S.view w)
      → wanted (S.view w).kubeconfig ≢ ""
      → IsIdle (S.view w).kubeconfig
      → Accounts (provision S (S.view w).kubeconfig w)
  unfolding ensure_finalizer contains
  provision-Accounts w a ne idle =
      let kc = (S.view w).kubeconfig in
      let fs = S.sorted_set (cleanup_finalizer ∷ kc.finalizers) in
      elim (Bool-cases (contains kc.finalizers cleanup_finalizer)) [
        | inl e ↦ rw e (remember-Accounts w a ne idle e)
        | inr e ↦ rw e (
            patched-Accounts (S.patch_finalizers w fs) w (put_finalizers fs (S.view w))
              (λ kc1 w1.
                and_then (patch_provisioned_cluster S kc1 (wanted kc) w1) (λ patched kc2 w2.
                  if patched then finished true kc2 w2 else reconcile_bindings S kc2 w2))
              (L.view-patch_finalizers w fs)
              (IsAccounted-put_finalizers fs (S.view w)
                (L.contains-sorted_set (cleanup_finalizer ∷ kc.finalizers) cleanup_finalizer) a)
              a)
      ]

  if-Accounts :
      (b : Bool) (x y : Step S.State)
      → (b ≡ true → Accounts x)
      → (b ≡ false → Accounts y)
      → Accounts (if b then x else y)
  if-Accounts true x y h g = h refl
  if-Accounts false x y h g = g refl

  Cleaned-Accounts : (s : Step S.State) → Ends (Cleaned S L) (Accounted S L) s → Accounts s
  Cleaned-Accounts s h =
      Ends-map (Cleaned S L) (λ u kc w. IsAccounted (S.view w)) (Accounted S L)
        (λ w. IsAccounted (S.view w)) s (λ u kc w c. IsAccounted-HasNone (S.view w) c.1) (λ w a. a)
        h

  Released-Accounts : (s : Step S.State) → Ends (Released S L) (Accounted S L) s → Accounts s
  Released-Accounts s h =
      Ends-map (Released S L) (λ u kc w. IsAccounted (S.view w)) (Accounted S L)
        (λ w. IsAccounted (S.view w)) s (λ u kc w c. IsAccounted-HasNone (S.view w) c.0) (λ w a. a)
        h

  -- Whatever requests of a reconciliation fail, and whether they had their effect or not: if every
  -- binding that carries the kubeconfig's label is in the workspace that the status names, and the
  -- finalizer is there if there is any, then this is so afterwards.
  pub reconcile-IsAccounted :
      (w : S.State)
      → IsAccounted (S.view w)
      → IsAccounted (S.view (world (reconcile S (S.view w).kubeconfig w)))
  unfolding reconcile
  reconcile-IsAccounted w a =
      let kc = (S.view w).kubeconfig in
      let old = provisioned kc.status.authorization in
      world-Ends (λ u kc' w'. IsAccounted (S.view w')) (λ w'. IsAccounted (S.view w'))
        (reconcile S kc w) (λ u kc' w' h. h)
        (if-Accounts kc.deleting (handle_deletion S kc w)
          (if not (old == "") && not (wanted kc == old)
            then unprovision_cluster S kc w
            else (if wanted kc == "" then remove_finalizer S kc w else provision S kc w))
          (λ d. Released-Accounts (handle_deletion S kc w) (handle_deletion-Released S L w a))
          (λ d.
            if-Accounts (not (old == "") && not (wanted kc == old)) (unprovision_cluster S kc w)
              (if wanted kc == "" then remove_finalizer S kc w else provision S kc w)
              (λ m.
                Cleaned-Accounts (unprovision_cluster S kc w) (unprovision_cluster-Cleaned S L w a))
              (λ m.
                if-Accounts (wanted kc == "") (remove_finalizer S kc w) (provision S kc w)
                  (λ n. Released-Accounts (remove_finalizer S kc w) (
                    remove_finalizer-Cleaned S L kc w
                      (refl, HasNone-unprovisioned (S.view w) a (unwanted kc m n))))
                  (λ n. provision-Accounts w a (wanted-ne kc n) (idle kc m)))))
