-- ===== src/Rbac/Views.antt =====
-- The invariant of the RBAC controller, and the changes of the stored objects that keep it.
use kcp_operator.Prelude.{
  String, ◌≡◌, ◌≢◌, sym, ◌∙◌, subst, ◌⊎◌, inl, inr, true, Option, none, some, List, contains,
}
use kcp_operator.Api.Kubeconfig.{Kubeconfig, KubeconfigAuthorizationStatus, ClusterRoleBinding}
use kcp_operator.Rbac.Server.{View, Carries, put_status, put_finalizers}
use kcp_operator.Rbac.Controller.{owner_labels, provisioned, cleanup_finalizer}

-- A binding of a workspace carries the kubeconfig's label.
abbrev pub Owns : View → String → String → ClusterRoleBinding → Type 0
Owns v ws n b = (v.bindings ws n ≡ some b) × Carries (owner_labels v.kubeconfig) b

-- A workspace in which the kubeconfig may have bindings: the status names it, and the finalizer is
-- there.
abbrev pub Remembered : Kubeconfig → String → Type 0
Remembered kc ws =
    (ws ≢ "")
    × (provisioned kc.status.authorization ≡ ws)
    × (contains kc.finalizers cleanup_finalizer ≡ true)

-- Every binding that carries the kubeconfig's label is in a remembered workspace: nothing can leak.
abbrev pub IsAccounted : View → Type 0
IsAccounted v =
    (ws n : String) (b : ClusterRoleBinding) → Owns v ws n b → Remembered v.kubeconfig ws

-- The kubeconfig has no binding anywhere.
abbrev pub HasNone : View → Type 0
HasNone v = (ws n : String) (b : ClusterRoleBinding) → Owns v ws n b → ⊥

pub IsAccounted-HasNone : (v : View) → HasNone v → IsAccounted v
IsAccounted-HasNone v h ws n b o = elim (h ws n b o) [ ]

-- Without a remembered workspace there are no bindings.
pub HasNone-unprovisioned :
    (v : View) → IsAccounted v → provisioned v.kubeconfig.status.authorization ≡ "" → HasNone v
HasNone-unprovisioned v h e ws n b o = let r = h ws n b o in r.0 (sym r.1 ∙ e)

-- Only bindings of one workspace change.
abbrev pub Within : String → View → View → Type 0
Within ws v' v =
    (v'.kubeconfig ≡ v.kubeconfig)
    × ((x n : String) → (v'.bindings x n ≡ v.bindings x n) ⊎ (x ≡ ws))

-- Bindings are only deleted.
abbrev pub Below : View → View → Type 0
Below v' v =
    (v'.kubeconfig ≡ v.kubeconfig)
    × ((x n : String) → (v'.bindings x n ≡ v.bindings x n) ⊎ (v'.bindings x n ≡ none))

pub Within-trans : (ws : String) (a b c : View) → Within ws a b → Within ws b c → Within ws a c
Within-trans ws a b c h k = (
  h.0 ∙ k.0,
  λ x n. elim (h.1 x n) [
    | inl e ↦ elim (k.1 x n) [ inl f ↦ inl (e ∙ f) | inr f ↦ inr f ]
    | inr e ↦ inr e
  ],
)

pub Below-trans : (a b c : View) → Below a b → Below b c → Below a c
Below-trans a b c h k = (
  h.0 ∙ k.0,
  λ x n. elim (h.1 x n) [
    | inl e ↦ elim (k.1 x n) [ inl f ↦ inl (e ∙ f) | inr f ↦ inr (e ∙ f) ]
    | inr e ↦ inr e
  ],
)

Owns-same :
    (v v' : View) (x n : String) (b : ClusterRoleBinding)
    → v'.kubeconfig ≡ v.kubeconfig
    → v'.bindings x n ≡ v.bindings x n
    → Owns v' x n b
    → Owns v x n b
Owns-same v v' x n b ek eb o =
    (sym eb ∙ o.0, subst (λ (kc : Kubeconfig). Carries (owner_labels kc) b) ek o.1)

pub Below-Owns :
    (v v' : View)
    → Below v' v
    → (x n : String) (b : ClusterRoleBinding) → Owns v' x n b
    → Owns v x n b
Below-Owns v v' h x n b o = elim (h.1 x n) [
  | inl e ↦ Owns-same v v' x n b h.0 e o
  | inr e ↦ cc (e, o.0)
]

pub Below-IsAccounted : (v v' : View) → Below v' v → IsAccounted v → IsAccounted v'
Below-IsAccounted v v' h a x n b o =
    subst (λ (kc : Kubeconfig). Remembered kc x) (sym h.0) (a x n b (Below-Owns v v' h x n b o))

-- What happens in the remembered workspace keeps the invariant.
pub Within-IsAccounted :
    (ws : String) (v v' : View)
    → Within ws v' v
    → Remembered v.kubeconfig ws
    → IsAccounted v
    → IsAccounted v'
Within-IsAccounted ws v v' h r a x n b o =
    subst (λ (kc : Kubeconfig). Remembered kc x) (sym h.0)
      (elim (h.1 x n) [
        | inl e ↦ a x n b (Owns-same v v' x n b h.0 e o)
        | inr e ↦ subst (λ (y : String). Remembered v.kubeconfig y) (sym e) r
      ])

-- Status and finalizers may change freely while there are no bindings.
pub HasNone-put_status :
    (a : Option KubeconfigAuthorizationStatus) (v : View) → HasNone v → HasNone (put_status a v)
HasNone-put_status a v h = h

pub HasNone-put_finalizers :
    (fs : List String) (v : View) → HasNone v → HasNone (put_finalizers fs v)
HasNone-put_finalizers fs v h = h

-- A finalizer that is added is remembered.
pub IsAccounted-put_finalizers :
    (fs : List String) (v : View)
    → contains fs cleanup_finalizer ≡ true
    → IsAccounted v
    → IsAccounted (put_finalizers fs v)
IsAccounted-put_finalizers fs v h a x n b o = let r = a x n b o in (r.0, r.1, h)
