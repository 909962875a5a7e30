-- ===== src/Rbac/Server.antt =====
-- The Kubernetes API as the RBAC controller uses it: what is stored, and the requests that read and
-- change it. The client libraries are not part of the repository, so the requests are a parameter with
-- the behaviour that they document.
use kcp_operator.Prelude.{
  true, String, ◌≡◌, ◌⊎◌, Bool, false, ◌&&◌, Option, none, some, List, [], ◌∷◌, ◌==◌, contains,
  if◌then◌else◌,
}
use kcp_operator.Prelude.Maps.{Map, lookup}
use kcp_operator.Api.Kubeconfig.{Kubeconfig, KubeconfigAuthorizationStatus, ClusterRoleBinding}

-- What is stored: the Kubeconfig, and the ClusterRoleBindings of every workspace by their names.
pub record View : Type 0 where
  pub kubeconfig : Kubeconfig
  pub bindings : String → String → Option ClusterRoleBinding

abbrev pub put_binding : String → String → Option ClusterRoleBinding → View → View
put_binding workspace name b v = record v {
  bindings = λ ws n. if ws == workspace && n == name then b else v.bindings ws n;
}

abbrev pub put_status : Option KubeconfigAuthorizationStatus → View → View
put_status s v = record v {
  kubeconfig = record v.kubeconfig { status = record { authorization = s } };
}

abbrev pub put_finalizers : List String → View → View
put_finalizers fs v = record v { kubeconfig = record v.kubeconfig { finalizers = fs } }

-- An object that does not exist yet is handed to its reconciler empty.
abbrev pub or_empty : Option ClusterRoleBinding → ClusterRoleBinding
or_empty none = record {
  labels = [];
  role_ref = record { api_group = ""; kind = ""; name = "" };
  subjects = [];
}
or_empty (some b) = b

-- Requests that write return whether they succeeded. A listing gives names and bindings, or fails.
pub record Server : Type 1 where
  pub State : Type 0
  pub view : State → View
  pub connects : State → Kubeconfig → String → Bool
  pub list : State → String → Map String → Option (List (String × ClusterRoleBinding))
  pub delete : State → String → String → Bool × State
  pub ensure : State → String → String → (ClusterRoleBinding → ClusterRoleBinding) → Bool × State
  pub patch_status : State → Option KubeconfigAuthorizationStatus → Bool × State
  pub patch_finalizers : State → List String → Bool × State
  pub sorted_set : List String → List String

-- A request that succeeds has its effect. One that fails may have had it or not.
abbrev pub Takes : (S : Server) → Bool × S.State → S.State → View → Type 0
Takes S r s applied = (S.view r.1 ≡ applied) ⊎ ((r.0 ≡ false) × (S.view r.1 ≡ S.view s))

-- Every label of the selector is a label of the binding.
unfoldable pub Carries : Map String → ClusterRoleBinding → Type 0
Carries [] b = Unit
Carries ((k, v) ∷ m) b = (lookup k b.labels ≡ some v) × Carries m b

-- A name is in a listing.
unfoldable pub listed : List (String × ClusterRoleBinding) → String → Option ClusterRoleBinding
listed [] n = none
listed ((m, b) ∷ rest) n = if m == n then some b else listed rest n

pub record IsLawful (S : Server) : Type 0 where
  pub listed-list :
      (s : S.State) (ws : String) (labels : Map String) (items : List (String × ClusterRoleBinding))
      → S.list s ws labels ≡ some items
      → (n : String) (b : ClusterRoleBinding)
      → ((S.view s).bindings ws n ≡ some b) × Carries labels b
      → listed items n ≡ some b
  pub view-delete :
      (s : S.State) (ws n : String) → Takes S (S.delete s ws n) s (put_binding ws n none (S.view s))
  pub view-ensure :
      (s : S.State) (ws n : String) (f : ClusterRoleBinding → ClusterRoleBinding)
      → Takes S
          (S.ensure s ws n f)
          s
          (put_binding ws n (some (f (or_empty ((S.view s).bindings ws n)))) (S.view s))
  pub view-patch_status :
      (s : S.State) (a : Option KubeconfigAuthorizationStatus)
      → Takes S (S.patch_status s a) s (put_status a (S.view s))
  pub view-patch_finalizers :
      (s : S.State) (fs : List String)
      → Takes S (S.patch_finalizers s fs) s (put_finalizers fs (S.view s))
  pub contains-sorted_set :
      (xs : List String) (a : String) → contains (S.sorted_set xs) a ≡ contains xs a

-- Every request succeeds.
pub record Answers (S : Server) : Type 0 where
  pub connects : (s : S.State) (kc : Kubeconfig) (ws : String) → S.connects s kc ws ≡ true
  pub lists :
      (s : S.State) (ws : String) (labels : Map String)
      → (items : List (String × ClusterRoleBinding)) × (S.list s ws labels ≡ some items)
  pub deletes : (s : S.State) (ws n : String) → (S.delete s ws n).0 ≡ true
  pub ensures :
      (s : S.State) (ws n : String) (f : ClusterRoleBinding → ClusterRoleBinding)
      → (S.ensure s ws n f).0 ≡ true
  pub patches_status :
      (s : S.State) (a : Option KubeconfigAuthorizationStatus) → (S.patch_status s a).0 ≡ true
  pub patches_finalizers : (s : S.State) (fs : List String) → (S.patch_finalizers s fs).0 ≡ true
