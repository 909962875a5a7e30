-- ===== src/Rbac/Loops.antt =====
-- The two loops of the RBAC controller: what deleting and ensuring bindings of a workspace changes.
use kcp_operator.Prelude.{
  String, ◌≡◌, refl, sym, ◌∙◌, subst, ◌⊎◌, inl, inr, Bool, true, false, Option, none, some, List,
  [], ◌∷◌, ◌==◌, eq_iff, eq_refl, arith, Bool-cases, if◌then◌else◌, ◌&&◌,
}
use kcp_operator.Api.Kubeconfig.{Kubeconfig, ClusterRoleBinding}
use kcp_operator.Rbac.Server.{Server, View, IsLawful, put_binding, listed, Takes}
use kcp_operator.Rbac.Controller.{Step, failed, delete_bindings}
use kcp_operator.Rbac.Ends.{Ends, Ends-map, Takes-either}
use kcp_operator.Rbac.Views.{Within, Below, Within-trans, Below-trans}

pub Within-put_binding :
    (ws n : String) (b : Option ClusterRoleBinding) (v : View) → Within ws (put_binding ws n b v) v
Within-put_binding ws n b v = (refl, λ x m. ground (arith, eq_iff x ws))

either : {A : Type 0} (c : Bool) (a b : A) → ((if c then a else b) ≡ b) ⊎ ((if c then a else b) ≡ a)
either true a b = inr refl
either false a b = inl refl

Below-put_binding : (ws n : String) (v : View) → Below (put_binding ws n none v) v
Below-put_binding ws n v = (refl, λ x m. either (x == ws && m == n) none (v.bindings x m))

pub Within-refl : (ws : String) (v : View) → Within ws v v
Within-refl ws v = (refl, λ x n. inl refl)

Below-refl : (v : View) → Below v v
Below-refl v = (refl, λ x n. inl refl)

-- The binding that a loop just deleted is gone, and stays so.
put_binding-same : (ws n : String) (v : View) → (put_binding ws n none v).bindings ws n ≡ none
put_binding-same ws n v = ground (arith, eq_refl ws, eq_refl n)

module _ (S : Server) (L : IsLawful S) where
  -- What the deletions of a loop have done to the stored objects.
  abbrev pub Deleted : String → S.State → S.State → Type 0
  Deleted ws w' w = Within ws (S.view w') (S.view w) × Below (S.view w') (S.view w)

  Deleted-one : (ws n : String) (w : S.State) → Deleted ws (S.delete w ws n).1 w
  Deleted-one ws n w =
      let takes = L.view-delete w ws n in
      let after = put_binding ws n none (S.view w) in
      (
        Takes-either S (λ v. Within ws v (S.view w)) (S.delete w ws n) w after takes
            (Within-put_binding ws n none (S.view w)) (Within-refl ws (S.view w)),
        Takes-either S (λ v. Below v (S.view w)) (S.delete w ws n) w after takes
            (Below-put_binding ws n (S.view w)) (Below-refl (S.view w)),
      )

  -- The obsolete bindings of a listing are gone.
  abbrev pub Gone :
      (ClusterRoleBinding → Bool) → List (String × ClusterRoleBinding) → String → View → Type 0
  Gone obsolete items ws v =
      (n : String) (b : ClusterRoleBinding)
      → (listed items n ≡ some b) × (obsolete b ≡ true)
      → v.bindings ws n ≡ none

  -- What is gone stays gone.
  none-Below :
      (v v' : View) (x n : String) → Below v' v → v.bindings x n ≡ none → v'.bindings x n ≡ none
  none-Below v v' x n h e = elim (h.1 x n) [ inl f ↦ f ∙ e | inr f ↦ f ]

  abbrev Finishes :
      (ClusterRoleBinding → Bool)
      → List (String × ClusterRoleBinding)
      → String
      → Kubeconfig
      → S.State
      → Step S.State
      → Type 0
  Finishes obsolete items ws kc w =
      Ends (λ u kc' w'. (kc' ≡ kc) × Deleted ws w' w × Gone obsolete items ws (S.view w'))
        (λ w'. Deleted ws w' w)

  Deleted-trans : (ws : String) (a b c : S.State) → Deleted ws a b → Deleted ws b c → Deleted ws a c
  Deleted-trans ws a b c h k = (
    Within-trans ws (S.view a) (S.view b) (S.view c) h.0 k.0,
    Below-trans (S.view a) (S.view b) (S.view c) h.1 k.1,
  )

  first_obsolete :
      (name n : String) (crb b : ClusterRoleBinding) (items : List (String × ClusterRoleBinding))
      (obsolete : ClusterRoleBinding → Bool)
      → (name == n) ≡ true
      → (listed ((name, crb) ∷ items) n ≡ some b) × (obsolete b ≡ true)
      → obsolete crb ≡ true
  unfolding listed
  first_obsolete name n crb b items obsolete e h = ground (arith, e, h.0, h.1)

  Gone-cons :
      (obsolete : ClusterRoleBinding → Bool) (name : String) (crb : ClusterRoleBinding)
      (items : List (String × ClusterRoleBinding)) (ws : String) (v : View)
      → (obsolete crb ≡ true → v.bindings ws name ≡ none)
      → Gone obsolete items ws v
      → Gone obsolete ((name, crb) ∷ items) ws v
  unfolding listed
  Gone-cons obsolete name crb items ws v first rest n b h = elim (Bool-cases (name == n)) [
    | inl e ↦
        subst (λ (m : String). v.bindings ws m ≡ none) ((eq_iff name n).0 e)
          (first (first_obsolete name n crb b items obsolete e h))
    | inr e ↦ rest n b (ground (arith, e, h.0), h.1)
  ]

  deleted_name :
      (ws name : String) (w w1 : S.State)
      → Takes S (true, w1) w (put_binding ws name none (S.view w))
      → (S.view w1).bindings ws name ≡ none
  deleted_name ws name w w1 (inl e) =
      subst (λ (v : View). v.bindings ws name ≡ none) (sym e) (put_binding-same ws name (S.view w))
  deleted_name ws name w w1 (inr e) = cc (e.0)

  after_delete :
      (obsolete : ClusterRoleBinding → Bool) (name : String) (crb : ClusterRoleBinding)
      (items : List (String × ClusterRoleBinding)) (ws : String) (kc : Kubeconfig) (w : S.State)
      (r : Bool × S.State)
      → Takes S r w (put_binding ws name none (S.view w))
      → Deleted ws r.1 w
      → Finishes obsolete items ws kc r.1 (delete_bindings S obsolete items ws kc r.1)
      → Finishes obsolete
          ((name, crb) ∷ items)
          ws
          kc
          w
          (elim r.0 [ true ↦ delete_bindings S obsolete items ws kc r.1 | false ↦ failed r.1 ])
  after_delete obsolete name crb items ws kc w (true, w1) takes d rest =
      Ends-map (λ u kc' w'. (kc' ≡ kc) × Deleted ws w' w1 × Gone obsolete items ws (S.view w'))
        (λ u kc' w'.
          (kc' ≡ kc) × Deleted ws w' w × Gone obsolete ((name, crb) ∷ items) ws (S.view w'))
        (λ w'. Deleted ws w' w1) (λ w'. Deleted ws w' w) (delete_bindings S obsolete items ws kc w1)
        (λ u kc' w' h. (
          h.0,
          Deleted-trans ws w' w1 w h.1 d,
          Gone-cons obsolete name crb items ws (S.view w')
              (λ t.
                none-Below (S.view w1) (S.view w') ws name h.1.1 (deleted_name ws name w w1 takes))
              h.2,
        ))
        (λ w' h. Deleted-trans ws w' w1 w h d) rest
  after_delete obsolete name crb items ws kc w (false, w1) takes d rest = d

  pub delete_bindings-Ends :
      (obsolete : ClusterRoleBinding → Bool) (items : List (String × ClusterRoleBinding))
      (ws : String) (kc : Kubeconfig) (w : S.State)
      → Finishes obsolete items ws kc w (delete_bindings S obsolete items ws kc w)
  unfolding delete_bindings listed
  delete_bindings-Ends obsolete [] ws kc w =
      (refl, (Within-refl ws (S.view w), Below-refl (S.view w)), λ n b h. cc (h.0))
  delete_bindings-Ends obsolete ((name, crb) ∷ items) ws kc w = elim (Bool-cases (obsolete crb)) [
    | inl e ↦ rw e (
        after_delete obsolete name crb items ws kc w (S.delete w ws name) (L.view-delete w ws name)
          (Deleted-one ws name w)
          (delete_bindings-Ends obsolete items ws kc (S.delete w ws name).1))
    | inr e ↦ rw e (
        Ends-map (λ u kc' w'. (kc' ≡ kc) × Deleted ws w' w × Gone obsolete items ws (S.view w'))
          (λ u kc' w'.
            (kc' ≡ kc) × Deleted ws w' w × Gone obsolete ((name, crb) ∷ items) ws (S.view w'))
          (λ w'. Deleted ws w' w) (λ w'. Deleted ws w' w) (delete_bindings S obsolete items ws kc w)
          (λ u kc' w' h.
            (h.0, h.1, Gone-cons obsolete name crb items ws (S.view w') (λ t. cc (t, e)) h.2))
          (λ w' h. h) (delete_bindings-Ends obsolete items ws kc w))
  ]
