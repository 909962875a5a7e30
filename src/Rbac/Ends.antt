-- ===== src/Rbac/Ends.antt =====
-- Reasoning about the ends of a reconciliation: what holds when it finishes, and what holds of the
-- stored objects when it fails or panics.
use kcp_operator.Prelude.{
  Bool, true, false, ◌≡◌, refl, inl, inr, subst, sym, String, some, Option-cases, Bool-cases, List,
}
use kcp_operator.Api.Kubeconfig.{Kubeconfig, ClusterRoleBinding}
use kcp_operator.Rbac.Server.{Server, View, Takes}
use kcp_operator.Rbac.Controller.{
  Step, finished, failed, panicked, and_then, answered, owner_labels, with_owned,
}

-- The state that a reconciliation leaves.
abbrev pub world : {W : Type 0} → Step W → W
world (finished u kc w) = w
world (failed w) = w
world (panicked w) = w

abbrev pub Ends : {W : Type 0} → (Bool → Kubeconfig → W → Type 0) → (W → Type 0) → Step W → Type 0
Ends Q P (finished u kc w) = Q u kc w
Ends Q P (failed w) = P w
Ends Q P (panicked w) = P w

pub and_then-Ends :
    {W : Type 0} (Q R : Bool → Kubeconfig → W → Type 0) (P : W → Type 0) (s : Step W)
    (f : Bool → Kubeconfig → W → Step W)
    → Ends Q P s
    → ((u : Bool) (kc : Kubeconfig) (w : W) → Q u kc w → Ends R P (f u kc w))
    → Ends R P (and_then s f)
and_then-Ends Q R P (finished u kc w) f h g = g u kc w h
and_then-Ends Q R P (failed w) f h g = h
and_then-Ends Q R P (panicked w) f h g = h

pub Ends-map :
    {W : Type 0} (Q R : Bool → Kubeconfig → W → Type 0) (P O : W → Type 0) (s : Step W)
    → ((u : Bool) (kc : Kubeconfig) (w : W) → Q u kc w → R u kc w)
    → ((w : W) → P w → O w)
    → Ends Q P s
    → Ends R O s
Ends-map Q R P O (finished u kc w) f g h = f u kc w h
Ends-map Q R P O (failed w) f g h = g w h
Ends-map Q R P O (panicked w) f g h = g w h

-- What holds however it ends holds of the state that is left.
pub world-Ends :
    {W : Type 0} (Q : Bool → Kubeconfig → W → Type 0) (P : W → Type 0) (s : Step W)
    → ((u : Bool) (kc : Kubeconfig) (w : W) → Q u kc w → P w)
    → Ends Q P s
    → P (world s)
world-Ends Q P (finished u kc w) f h = f u kc w h
world-Ends Q P (failed w) f h = h
world-Ends Q P (panicked w) f h = h

module _ (S : Server) where
  pub Takes-either :
      (P : View → Type 0) (r : Bool × S.State) (s : S.State) (applied : View)
      → Takes S r s applied
      → P applied
      → P (S.view s)
      → P (S.view r.1)
  Takes-either P r s applied (inl e) pa pb = subst P (sym e) pa
  Takes-either P r s applied (inr e) pa pb = subst P (sym e.1) pb

  -- After a patch the object in memory is the stored one, and the patch had its effect.
  pub answered-Ends :
      (P : View → Type 0) (r : Bool × S.State) (s : S.State) (applied : View)
      → Takes S r s applied
      → P applied
      → P (S.view s)
      → Ends
          (λ u kc w. (u ≡ true) × (kc ≡ (S.view w).kubeconfig) × (S.view w ≡ applied))
          (λ w. P (S.view w))
          (answered S r)
  answered-Ends P (true, w) s applied (inl e) pa pb = (refl, refl, e)
  answered-Ends P (true, w) s applied (inr e) pa pb = cc (e.0)
  answered-Ends P (false, w) s applied t pa pb = Takes-either P (false, w) s applied t pa pb

  -- Connecting and listing changes nothing.
  pub with_owned-Ends :
      (Q : Bool → Kubeconfig → S.State → Type 0) (P : S.State → Type 0) (ws : String)
      (kc : Kubeconfig) (w : S.State) (next : List (String × ClusterRoleBinding) → Step S.State)
      → P w
      → ((items : List (String × ClusterRoleBinding))
          → S.list w ws (owner_labels kc) ≡ some items
          → Ends Q P (next items))
      → Ends Q P (with_owned S ws kc w next)
  with_owned-Ends Q P ws kc w next p h = elim (Bool-cases (S.connects w kc ws)) [
    | inr e ↦ rw e p
    | inl e ↦ elim (Option-cases (S.list w ws (owner_labels kc))) [
      | inl l ↦ rw (e, l) p
      | inr l ↦ rw (e, l.1) (h l.0 l.1)
    ]
  ]
