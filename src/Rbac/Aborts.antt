-- ===== src/Rbac/Aborts.antt =====
-- Whether parts of a reconciliation of the RBAC controller end with an error or a panic.
use kcp_operator.Prelude.{
  keep, String, ◌≡◌, refl, ◌⊎◌, inl, inr, Bool, true, false, not, some, Option-cases, List, [], ◌∷◌,
  ◌==◌, Bool-cases, if◌then◌else◌, contains,
}
use kcp_operator.Api.Kubeconfig.{Kubeconfig, ClusterRoleBinding}
use kcp_operator.Rbac.Server.{Server, Answers}
use kcp_operator.Rbac.Controller.{
  cluster_role_binding_reconciler, group_subject, binding_name, Step, finished, failed, panicked,
  and_then, cleanup_finalizer, owner_labels, answered, is_provisioned, patch_provisioned_cluster,
  ensure_finalizer, remove_finalizer, delete_bindings, ensure_bindings, with_owned,
}

-- Whether it ends with a panic, or, when `strict` is true, with a panic or an error.
abbrev pub aborts : {W : Type 0} → Bool → Step W → Bool
aborts strict (finished u kc w) = false
aborts strict (failed w) = strict
aborts strict (panicked w) = true

pub and_then-aborts :
    {W : Type 0} (strict : Bool) (s : Step W) (f : Bool → Kubeconfig → W → Step W)
    → ((u : Bool) (kc : Kubeconfig) (w : W) → aborts strict (f u kc w) ≡ false)
    → aborts strict (and_then s f) ≡ aborts strict s
and_then-aborts strict (finished u kc w) f h = h u kc w
and_then-aborts strict (failed w) f h = refl
and_then-aborts strict (panicked w) f h = refl

pub if-aborts :
    {W : Type 0} (strict b : Bool) (x y : Step W) (p q : Bool)
    → (b ≡ true → aborts strict x ≡ p)
    → (b ≡ false → aborts strict y ≡ q)
    → aborts strict (if b then x else y) ≡ (if b then p else q)
if-aborts strict true x y p q e f = e refl
if-aborts strict false x y p q e f = f refl

pub if-never :
    {W : Type 0} (strict b : Bool) (x y : Step W)
    → aborts strict x ≡ false
    → aborts strict y ≡ false
    → aborts strict (if b then x else y) ≡ false
if-never strict true x y e f = e
if-never strict false x y e f = f

-- Errors count only where every request is answered.
abbrev pub Counts : Server → Bool → Type 0
Counts S strict = (strict ≡ false) ⊎ Answers S

module _ (S : Server) (strict : Bool) (counts : Counts S strict) where
  unanswered : (Answers S → ⊥) → strict ≡ false
  unanswered h = elim counts [ inl f ↦ f | inr a ↦ elim (h a) [ ] ]

  -- A reply that is a success, where errors count.
  abbrev Replies : Bool → Type 0
  Replies ok = (strict ≡ false) ⊎ (ok ≡ true)

  replies : (ok : Bool) → (Answers S → ok ≡ true) → Replies ok
  replies ok h = elim counts [ inl f ↦ inl f | inr a ↦ inr (h a) ]

  answered-aborts : (r : Bool × S.State) → Replies r.0 → aborts strict (answered S r) ≡ false
  answered-aborts (true, w) h = refl
  answered-aborts (false, w) (inl f) = f
  answered-aborts (false, w) (inr e) = cc e

  checked-aborts :
      (b : Bool) (kc : Kubeconfig) (w : S.State) (r : Bool × S.State)
      → Replies r.0
      → aborts strict (if b then finished false kc w else answered S r) ≡ false
  checked-aborts true kc w r h = refl
  checked-aborts false kc w r h = answered-aborts r h

  pub patch_provisioned_cluster-aborts :
      (kc : Kubeconfig) (c : String) (w : S.State)
      → aborts strict (patch_provisioned_cluster S kc c w) ≡ false
  unfolding patch_provisioned_cluster
  patch_provisioned_cluster-aborts kc c w =
      let status = some (record { provisioned_cluster = c }) in
      checked-aborts (is_provisioned kc.status.authorization c) kc w (S.patch_status w status)
        (replies (S.patch_status w status).0 (λ a. a.patches_status w status))

  pub remove_finalizer-aborts :
      (kc : Kubeconfig) (w : S.State) → aborts strict (remove_finalizer S kc w) ≡ false
  unfolding remove_finalizer
  remove_finalizer-aborts kc w =
      let fs = S.sorted_set (keep (λ f. not (f == cleanup_finalizer)) kc.finalizers) in
      checked-aborts (not (contains kc.finalizers cleanup_finalizer)) kc w (S.patch_finalizers w fs)
        (replies (S.patch_finalizers w fs).0 (λ a. a.patches_finalizers w fs))

  pub ensure_finalizer-aborts :
      (kc : Kubeconfig) (w : S.State) → aborts strict (ensure_finalizer S kc w) ≡ false
  unfolding ensure_finalizer
  ensure_finalizer-aborts kc w =
      let fs = S.sorted_set (cleanup_finalizer ∷ kc.finalizers) in
      checked-aborts (contains kc.finalizers cleanup_finalizer) kc w (S.patch_finalizers w fs)
        (replies (S.patch_finalizers w fs).0 (λ a. a.patches_finalizers w fs))

  elim-aborts :
      (r : Bool × S.State) (f : S.State → Step S.State)
      → Replies r.0
      → ((w : S.State) → aborts strict (f w) ≡ false)
      → aborts strict (elim r.0 [ true ↦ f r.1 | false ↦ failed r.1 ]) ≡ false
  elim-aborts (true, w) f ok h = h w
  elim-aborts (false, w) f (inl e) h = e
  elim-aborts (false, w) f (inr e) h = cc e

  pub delete_bindings-aborts :
      (obsolete : ClusterRoleBinding → Bool) (items : List (String × ClusterRoleBinding))
      (ws : String) (kc : Kubeconfig) (w : S.State)
      → aborts strict (delete_bindings S obsolete items ws kc w) ≡ false
  unfolding delete_bindings
  delete_bindings-aborts obsolete [] ws kc w = refl
  delete_bindings-aborts obsolete ((n, b) ∷ items) ws kc w =
      if-never strict (obsolete b)
        (elim (S.delete w ws n).0 [
          | true ↦ delete_bindings S obsolete items ws kc (S.delete w ws n).1
          | false ↦ failed (S.delete w ws n).1
        ])
        (delete_bindings S obsolete items ws kc w)
        (elim-aborts (S.delete w ws n) (λ w1. delete_bindings S obsolete items ws kc w1)
          (replies (S.delete w ws n).0 (λ a. a.deletes w ws n))
          (λ w1. delete_bindings-aborts obsolete items ws kc w1))
        (delete_bindings-aborts obsolete items ws kc w)

  pub ensure_bindings-aborts :
      (roles : List String) (ws : String) (kc : Kubeconfig) (w : S.State)
      → aborts strict (ensure_bindings S roles ws kc w) ≡ false
  unfolding ensure_bindings
  ensure_bindings-aborts [] ws kc w = refl
  ensure_bindings-aborts (role ∷ roles) ws kc w =
      let f = cluster_role_binding_reconciler kc role (group_subject kc) in
      let r = S.ensure w ws (binding_name kc role) f in
      elim-aborts r (λ w1. ensure_bindings S roles ws kc w1)
        (replies r.0 (λ a. a.ensures w ws (binding_name kc role) f))
        (λ w1. ensure_bindings-aborts roles ws kc w1)

  pub with_owned-aborts :
      (ws : String) (kc : Kubeconfig) (w : S.State)
      (next : List (String × ClusterRoleBinding) → Step S.State)
      → ((items : List (String × ClusterRoleBinding)) → aborts strict (next items) ≡ false)
      → aborts strict (with_owned S ws kc w next) ≡ false
  with_owned-aborts ws kc w next h = elim (Bool-cases (S.connects w kc ws)) [
    | inr e ↦ rw e (unanswered (λ a. cc (e, a.connects w kc ws)))
    | inl e ↦ elim (Option-cases (S.list w ws (owner_labels kc))) [
      | inl l ↦ rw (e, l) (unanswered (λ a. cc (l, (a.lists w ws (owner_labels kc)).1)))
      | inr l ↦ rw (e, l.1) (h l.0)
    ]
  ]
