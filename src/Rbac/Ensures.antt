-- ===== src/Rbac/Ensures.antt =====
-- The loop of the RBAC controller that creates and updates the bindings of the configured roles.
use text.Mathlib.TextLemmas.{append_cancel_left}
use kcp_operator.Prelude.{
  String, ◌<>◌, ◌≡◌, refl, sym, ◌∙◌, subst, ◌⊎◌, inl, inr, Bool, true, false, Option, some, List,
  [], ◌∷◌, ◌==◌, eq_iff, eq_refl, arith, Bool-cases, if◌then◌else◌, ◌&&◌, contains,
}
use kcp_operator.Prelude.Maps.{lookup, lookup-copy}
use kcp_operator.Api.Kubeconfig.{Kubeconfig, ClusterRoleBinding}
use kcp_operator.Rbac.Server.{Server, View, IsLawful, put_binding, Takes, Carries, or_empty}
use kcp_operator.Rbac.Controller.{
  Step, failed, ensure_bindings, binding_name, owner_labels, cluster_role_binding_reconciler,
  group_subject,
}
use kcp_operator.Rbac.Ends.{Ends, Ends-map, Takes-either}
use kcp_operator.Rbac.Views.{Within, Within-trans}
use kcp_operator.Rbac.Loops.{Within-put_binding, Within-refl}

-- A stored binding grants one cluster role to the kubeconfig's group, and carries its label.
abbrev pub Grants : Kubeconfig → String → Option ClusterRoleBinding → Type 0
Grants kc role o =
    (b : ClusterRoleBinding) × (o ≡ some b)
    × (b.role_ref
        ≡ record { api_group = "rbac.authorization.k8s.io"; kind = "ClusterRole"; name = role })
    × (b.subjects ≡ group_subject kc ∷ [])
    × Carries (owner_labels kc) b

Grants-reconciler :
    (kc : Kubeconfig) (role : String) (b : ClusterRoleBinding)
    → Grants kc role (some (cluster_role_binding_reconciler kc role (group_subject kc) b))
unfolding Carries lookup
Grants-reconciler kc role b = (
  cluster_role_binding_reconciler kc role (group_subject kc) b,
  refl,
  refl,
  refl,
  (lookup-copy "operator.kcp.io/kubeconfig" b.labels (owner_labels kc), tt),
)

binding_name-injective :
    (kc : Kubeconfig) (a b : String) → binding_name kc a ≡ binding_name kc b → a ≡ b
binding_name-injective kc a b e =
    append_cancel_left ":" a b (append_cancel_left kc.uid (":" <> a) (":" <> b) e)

if_same :
    (ws n : String) (a b : Option ClusterRoleBinding) → (if ws == ws && n == n then a else b) ≡ a
if_same ws n a b = ground (arith, eq_refl ws, eq_refl n)

-- Each role has its binding, and every other binding of the workspace is what it was.
abbrev pub Ensured : List String → String → Kubeconfig → View → View → Type 0
Ensured roles ws kc v' v =
    ((role : String)
      → contains roles role ≡ true
      → Grants kc role (v'.bindings ws (binding_name kc role)))
    × ((n : String)
        → (v'.bindings ws n ≡ v.bindings ws n)
          ⊎ ((role : String) × (n ≡ binding_name kc role) × (contains roles role ≡ true)))

module _ (S : Server) (L : IsLawful S) where
  abbrev Ensures : List String → String → Kubeconfig → S.State → Step S.State → Type 0
  Ensures roles ws kc w =
      Ends
        (λ u kc' w'.
          (kc' ≡ kc)
          × Within ws (S.view w') (S.view w)
          × Ensured roles ws kc (S.view w') (S.view w))
        (λ w'. Within ws (S.view w') (S.view w))

  abbrev ensured : Kubeconfig → String → String → View → View
  ensured kc role ws v =
      put_binding ws (binding_name kc role)
        (some (
          cluster_role_binding_reconciler kc role (group_subject kc)
            (or_empty (v.bindings ws (binding_name kc role)))))
        v

  ensured-there :
      (kc : Kubeconfig) (role ws : String) (v : View)
      → Grants kc role ((ensured kc role ws v).bindings ws (binding_name kc role))
  ensured-there kc role ws v =
      let name = binding_name kc role in
      let made =
        cluster_role_binding_reconciler kc role (group_subject kc)
          (or_empty (v.bindings ws name)) in
      subst (λ (o : Option ClusterRoleBinding). Grants kc role o)
        (sym (if_same ws name (some made) (v.bindings ws name)))
        (Grants-reconciler kc role (or_empty (v.bindings ws name)))

  ensured-elsewhere :
      (kc : Kubeconfig) (role ws n : String) (v : View)
      → ((ensured kc role ws v).bindings ws n ≡ v.bindings ws n) ⊎ (n ≡ binding_name kc role)
  ensured-elsewhere kc role ws n v = ground (arith, eq_refl ws, eq_iff n (binding_name kc role))

  -- The role that was ensured first keeps its binding.
  first_stays :
      (role : String) (roles : List String) (ws : String) (kc : Kubeconfig) (v v' : View)
      → Ensured roles ws kc v' (ensured kc role ws v)
      → Grants kc role (v'.bindings ws (binding_name kc role))
  first_stays role roles ws kc v v' h = elim (h.1 (binding_name kc role)) [
    | inl e ↦
        subst (λ (o : Option ClusterRoleBinding). Grants kc role o) (sym e)
          (ensured-there kc role ws v)
    | inr e ↦
        subst (λ (r : String). Grants kc r (v'.bindings ws (binding_name kc r)))
          (sym (binding_name-injective kc role e.0 e.1)) (h.0 e.0 e.2)
  ]

  Ensured-cons :
      (role : String) (roles : List String) (ws : String) (kc : Kubeconfig) (v v' : View)
      → Ensured roles ws kc v' (ensured kc role ws v)
      → Ensured (role ∷ roles) ws kc v' v
  unfolding contains
  Ensured-cons role roles ws kc v v' h = (
    λ r i. elim (Bool-cases (contains roles r)) [
      | inl c ↦ h.0 r c
      | inr c ↦
          subst (λ (x : String). Grants kc x (v'.bindings ws (binding_name kc x)))
            ((eq_iff role r).0 (ground (arith, i, c))) (first_stays role roles ws kc v v' h)
    ],
    λ n. elim (h.1 n) [
      | inl e ↦ elim (ensured-elsewhere kc role ws n v) [
        | inl f ↦ inl (e ∙ f)
        | inr f ↦ inr (role, f, ground (arith, eq_refl role))
      ]
      | inr e ↦ inr (e.0, e.1, ground (arith, e.2))
    ],
  )

  after_ensure :
      (role : String) (roles : List String) (ws : String) (kc : Kubeconfig) (w : S.State)
      (r : Bool × S.State)
      → Takes S r w (ensured kc role ws (S.view w))
      → Within ws (S.view r.1) (S.view w)
      → Ensures roles ws kc r.1 (ensure_bindings S roles ws kc r.1)
      → Ensures
          (role ∷ roles)
          ws
          kc
          w
          (elim r.0 [ true ↦ ensure_bindings S roles ws kc r.1 | false ↦ failed r.1 ])
  after_ensure role roles ws kc w (true, w1) (inl e) d rest =
      Ends-map
        (λ u kc' w'.
          (kc' ≡ kc)
          × Within ws (S.view w') (S.view w1)
          × Ensured roles ws kc (S.view w') (S.view w1))
        (λ u kc' w'.
          (kc' ≡ kc)
          × Within ws (S.view w') (S.view w)
          × Ensured (role ∷ roles) ws kc (S.view w') (S.view w))
        (λ w'. Within ws (S.view w') (S.view w1)) (λ w'. Within ws (S.view w') (S.view w))
        (ensure_bindings S roles ws kc w1)
        (λ u kc' w' h. (
          h.0,
          Within-trans ws (S.view w') (S.view w1) (S.view w) h.1 d,
          Ensured-cons role roles ws kc (S.view w) (S.view w')
              (subst (λ (v : View). Ensured roles ws kc (S.view w') v) e h.2),
        ))
        (λ w' h. Within-trans ws (S.view w') (S.view w1) (S.view w) h d) rest
  after_ensure role roles ws kc w (true, w1) (inr e) d rest = cc (e.0)
  after_ensure role roles ws kc w (false, w1) takes d rest = d

  pub ensure_bindings-Ends :
      (roles : List String) (ws : String) (kc : Kubeconfig) (w : S.State)
      → Ensures roles ws kc w (ensure_bindings S roles ws kc w)
  unfolding ensure_bindings contains
  ensure_bindings-Ends [] ws kc w =
      (refl, Within-refl ws (S.view w), (λ role h. cc h, λ n. inl refl))
  ensure_bindings-Ends (role ∷ roles) ws kc w =
      let f = cluster_role_binding_reconciler kc role (group_subject kc) in
      let r = S.ensure w ws (binding_name kc role) f in
      let takes = L.view-ensure w ws (binding_name kc role) f in
      after_ensure role roles ws kc w r takes
        (Takes-either S (λ v. Within ws v (S.view w)) r w (ensured kc role ws (S.view w)) takes
          (Within-put_binding ws (binding_name kc role)
            (some (f (or_empty ((S.view w).bindings ws (binding_name kc role))))) (S.view w))
          (Within-refl ws (S.view w)))
        (ensure_bindings-Ends roles ws kc r.1)
