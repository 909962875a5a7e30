-- ===== src/Rbac/Matches.antt =====
-- What reconcileBindings of the RBAC controller makes of the bindings of a workspace.
use kcp_operator.Prelude.{
  String, ◌<>◌, ◌≡◌, refl, sym, ◌∙◌, ap, subst, inl, inr, Bool, true, not, some, List, Bool-cases,
  contains,
}
use kcp_operator.Api.Kubeconfig.{Kubeconfig, ClusterRoleBinding, RoleRef, get_rbac_target_workspace}
use kcp_operator.Rbac.Server.{Server, View, IsLawful, Carries}
use kcp_operator.Rbac.Controller.{
  and_then, owner_labels, desired_roles, delete_bindings, ensure_bindings, reconcile_bindings,
}
use kcp_operator.Rbac.Ends.{Ends, and_then-Ends, Ends-map, with_owned-Ends}
use kcp_operator.Rbac.Views.{Within, Within-trans}
use kcp_operator.Rbac.Loops.{delete_bindings-Ends, Within-refl, Gone, Deleted}
use kcp_operator.Rbac.Ensures.{ensure_bindings-Ends, Grants, Ensured}

granted :
    (desired : List String) (ws : String) (kc : Kubeconfig) (v : View) (role n : String)
    (b : ClusterRoleBinding)
    → n ≡ kc.uid <> ":" <> role
    → v.bindings ws n ≡ some b
    → Grants kc role (v.bindings ws (kc.uid <> ":" <> role))
    → contains desired role ≡ true
    → contains desired b.role_ref.name ≡ true
granted desired ws kc v role n b e o g c = cc (e, o, g.1, ap (λ (r : RoleRef). r.name) g.2, c)

-- Every binding of the workspace that carries the kubeconfig's label is for a configured role, and
-- every configured role is granted to the kubeconfig's group.
abbrev pub Matches : List String → String → Kubeconfig → View → Type 0
Matches roles ws kc v =
    ((role : String)
      → contains roles role ≡ true
      → Grants kc role (v.bindings ws (kc.uid <> ":" <> role)))
    × ((n : String) (b : ClusterRoleBinding)
        → (v.bindings ws n ≡ some b) × Carries (owner_labels kc) b
        → contains roles b.role_ref.name ≡ true)

module _ (S : Server) (L : IsLawful S) where
  abbrev obsolete_role : List String → ClusterRoleBinding → Bool
  obsolete_role desired crb = not (contains desired crb.role_ref.name)

  abbrev pub Stays : Kubeconfig → S.State → S.State → Type 0
  Stays kc w w' = Within (get_rbac_target_workspace kc) (S.view w') (S.view w)

  abbrev pub Provisions : Kubeconfig → S.State → Bool → Kubeconfig → S.State → Type 0
  Provisions kc w u kc' w' =
      Stays kc w w'
      × Matches (desired_roles kc.spec.authorization) (get_rbac_target_workspace kc) kc (S.view w')

  -- What the first loop leaves to the second.
  abbrev Prepared :
      Kubeconfig
      → List (String × ClusterRoleBinding)
      → S.State
      → Bool
      → Kubeconfig
      → S.State
      → Type 0
  Prepared kc items w u kc1 w1 =
      (kc1 ≡ kc)
      × Deleted S L (get_rbac_target_workspace kc) w1 w
      × Gone S L (obsolete_role (desired_roles kc.spec.authorization)) items
          (get_rbac_target_workspace kc) (S.view w1)

  -- A binding that was there before is for a configured role, unless it was deleted.
  left_over :
      (kc : Kubeconfig) (items : List (String × ClusterRoleBinding)) (w w1 : S.State) (u : Bool)
      (n : String) (b : ClusterRoleBinding)
      → S.list w (get_rbac_target_workspace kc) (owner_labels kc) ≡ some items
      → Prepared kc items w u kc w1
      → (S.view w1).bindings (get_rbac_target_workspace kc) n ≡ some b
      → Carries (owner_labels kc) b
      → contains (desired_roles kc.spec.authorization) b.role_ref.name ≡ true
  left_over kc items w w1 u n b l h there owned =
      let ws = get_rbac_target_workspace kc in
      elim (h.1.1.1 ws n) [
        | inr f ↦ cc (f, there)
        | inl f ↦
            elim (Bool-cases (contains (desired_roles kc.spec.authorization) b.role_ref.name)) [
              | inl c ↦ c
              | inr c ↦
                  let gone = h.2 n b (
                    L.listed-list w ws (owner_labels kc) items l n b (sym f ∙ there, owned),
                    ap not c,
                  ) in
                  cc (gone, there)
            ]
      ]

  Ensured-Matches :
      (kc : Kubeconfig) (items : List (String × ClusterRoleBinding)) (w w1 w2 : S.State) (u : Bool)
      → S.list w (get_rbac_target_workspace kc) (owner_labels kc) ≡ some items
      → Prepared kc items w u kc w1
      → Ensured
          (S.sorted_set (desired_roles kc.spec.authorization))
          (get_rbac_target_workspace kc)
          kc
          (S.view w2)
          (S.view w1)
      → Matches (desired_roles kc.spec.authorization) (get_rbac_target_workspace kc) kc (S.view w2)
  Ensured-Matches kc items w w1 w2 u l h g =
      let desired = desired_roles kc.spec.authorization in
      let ws = get_rbac_target_workspace kc in
      (
        λ role c. g.0 role (L.contains-sorted_set desired role ∙ c),
        λ n b o. elim (g.1 n) [
          | inl e ↦ left_over kc items w w1 u n b l h (sym e ∙ o.0) o.1
          | inr e ↦
              granted desired ws kc (S.view w2) e.0 n b e.1 o.0 (g.0 e.0 e.2)
                (sym (L.contains-sorted_set desired e.0) ∙ e.2)
        ],
      )

  Prepared-Provisions :
      (kc kc1 : Kubeconfig) (items : List (String × ClusterRoleBinding)) (w w1 : S.State)
      → S.list w (get_rbac_target_workspace kc) (owner_labels kc) ≡ some items
      → Prepared kc items w true kc1 w1
      → Ends (Provisions kc w) (Stays kc w) (
          ensure_bindings S
            (S.sorted_set (desired_roles kc.spec.authorization))
            (get_rbac_target_workspace kc)
            kc1
            w1)
  Prepared-Provisions kc kc1 items w w1 l h =
      let desired = S.sorted_set (desired_roles kc.spec.authorization) in
      let ws = get_rbac_target_workspace kc in
      subst
        (λ (k : Kubeconfig).
          Ends (Provisions kc w) (Stays kc w) (ensure_bindings S desired ws k w1))
        (sym h.0)
        (Ends-map
          (λ u kc' w'.
            (kc' ≡ kc)
            × Within ws (S.view w') (S.view w1)
            × Ensured desired ws kc (S.view w') (S.view w1))
          (Provisions kc w) (λ w'. Within ws (S.view w') (S.view w1)) (Stays kc w)
          (ensure_bindings S desired ws kc w1)
          (λ u kc' w' g. (
            Within-trans ws (S.view w') (S.view w1) (S.view w) g.1 h.1.0,
            Ensured-Matches kc items w w1 w' u l (refl, h.1, h.2) g.2,
          ))
          (λ w' g. Within-trans ws (S.view w') (S.view w1) (S.view w) g h.1.0)
          (ensure_bindings-Ends S L desired ws kc w1))

  -- Reconciling the bindings touches one workspace, and a run without an error makes them match.
  pub reconcile_bindings-Matches :
      (kc : Kubeconfig) (w : S.State)
      → Ends
          (λ u kc' w'.
            Within (get_rbac_target_workspace kc) (S.view w') (S.view w)
            × Matches
                (desired_roles kc.spec.authorization)
                (get_rbac_target_workspace kc)
                kc
                (S.view w'))
          (λ w'. Within (get_rbac_target_workspace kc) (S.view w') (S.view w))
          (reconcile_bindings S kc w)
  unfolding reconcile_bindings
  reconcile_bindings-Matches kc w =
      let ws = get_rbac_target_workspace kc in
      let desired = desired_roles kc.spec.authorization in
      with_owned-Ends S (Provisions kc w) (Stays kc w) ws kc w
        (λ items.
          and_then (delete_bindings S (obsolete_role desired) items ws kc w)
            (λ u kc1 w1. ensure_bindings S (S.sorted_set desired) ws kc1 w1))
        (Within-refl ws (S.view w))
        (λ items l.
          and_then-Ends (Prepared kc items w) (Provisions kc w) (Stays kc w)
            (delete_bindings S (obsolete_role desired) items ws kc w)
            (λ u kc1 w1. ensure_bindings S (S.sorted_set desired) ws kc1 w1)
            (Ends-map (Prepared kc items w) (Prepared kc items w) (λ w'. Deleted S L ws w' w)
              (Stays kc w) (delete_bindings S (obsolete_role desired) items ws kc w)
              (λ u kc1 w1 h. h) (λ w' h. h.0)
              (delete_bindings-Ends S L (obsolete_role desired) items ws kc w))
            (λ u kc1 w1 h. Prepared-Provisions kc kc1 items w w1 l h))
