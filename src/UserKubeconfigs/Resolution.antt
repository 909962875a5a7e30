-- ===== src/UserKubeconfigs/Resolution.antt =====
-- What the target of a Kubeconfig is resolved to (pkg/controller/kubeconfig/controller.go).
use kcp_operator.Prelude.{String, ◌≡◌, sym, ap, Option-cases, Option, none, some, ◌⊎◌, inl, inr}
use kcp_operator.Api.Kubeconfig.{Kubeconfig}
use kcp_operator.Api.Objects.{RootShard, Shard, FrontProxy}
use kcp_operator.Controllers.{named}
use kcp_operator.UserKubeconfigs.{Resolved}
use kcp_operator.UserKubeconfigs.Controller.{Answers, resolve, via, at_root_shard, with_ca_bundle}
use kcp_operator.Bundles.Totality.{sum_cases}

-- The objects that the switch of the kubeconfig reads are there.
abbrev pub Fits : Kubeconfig → Resolved → Type 0
Fits kc found =
    ((name : String) × (kc.spec.target.root_shard_ref ≡ some name)
      × ((r : RootShard) × (found.root_shard ≡ some r)))
    ⊎ (((name : String) × (kc.spec.target.root_shard_ref ≡ none)
          × (kc.spec.target.shard_ref ≡ some name)
          × ((s : Shard) × (found.shard ≡ some s)))
        ⊎ ((name : String) × (kc.spec.target.root_shard_ref ≡ none)
            × (kc.spec.target.shard_ref ≡ none)
            × (kc.spec.target.front_proxy_ref ≡ some name)
            × ((r : RootShard) × (found.root_shard ≡ some r))))

abbrev root_of : Resolved ⊎ String → Option RootShard
root_of (inl found) = found.root_shard
root_of (inr e) = none

abbrev shard_of : Resolved ⊎ String → Option Shard
shard_of (inl found) = found.shard
shard_of (inr e) = none

inr-ne-inl : {A B : Type 0} {a : A} {b : B} → inr b ≡ inl a → ⊥
inr-ne-inl e = cc e

module _ (C : Answers) where
  at_root_shard-found :
      (name : String) (next : RootShard → Resolved ⊎ String) (found : Resolved)
      → at_root_shard C name next ≡ inl found
      → (r : RootShard) × (next r ≡ inl found)
  at_root_shard-found name next found h = elim (sum_cases (C.root_shard name)) [
    | inl (r, e) ↦ (r, rw (e, at_root_shard) at h)
    | inr (m, e) ↦ elim (inr-ne-inl (rw (e, at_root_shard) at h)) [ ]
  ]

  via-found :
      (kind : String) (reference : Option String) (next : RootShard → Resolved ⊎ String)
      (found : Resolved)
      → via C kind reference next ≡ inl found
      → (r : RootShard) × (next r ≡ inl found)
  via-found kind reference next found h = elim (Option-cases (named reference)) [
    | inl e ↦ elim (inr-ne-inl (rw (e, via) at h)) [ ]
    | inr (name, e) ↦ at_root_shard-found name next found (rw (e, via) at h)
  ]

  with_ca_bundle-found :
      (namespace : String) (f : FrontProxy) (r : RootShard) (found : Resolved)
      → with_ca_bundle C namespace f r ≡ inl found
      → found.root_shard ≡ some r
  with_ca_bundle-found namespace f r found h = elim (Option-cases f.spec.ca_bundle_secret_ref) [
    | inl e ↦ sym (ap root_of (rw (e, with_ca_bundle) at h))
    | inr (name, e) ↦ elim (sum_cases (C.secret name)) [
      | inl (s, e2) ↦ sym (ap root_of (rw (e, e2, with_ca_bundle) at h))
      | inr (m, e2) ↦ elim (inr-ne-inl (rw (e, e2, with_ca_bundle) at h)) [ ]
    ]
  ]

  module _ (namespace : String) (kc : Kubeconfig) (found : Resolved) where
    pub resolve-Fits : resolve C namespace kc ≡ inl found → Fits kc found
    unfolding resolve
    resolve-Fits h = elim (Option-cases kc.spec.target.root_shard_ref) [
      | inr (name, e) ↦
          let (r, same) = at_root_shard-found name _ found (rw (e, resolve) at h) in
          inl (name, e, (r, sym (ap root_of same)))
      | inl e1 ↦ elim (Option-cases kc.spec.target.shard_ref) [
        | inr (name, e2) ↦ elim (sum_cases (C.shard name)) [
          | inr (m, e3) ↦ elim (inr-ne-inl (rw (e1, e2, e3, resolve) at h)) [ ]
          | inl (s, e3) ↦
              let (r, same) =
                via-found "Shard" s.spec.root_shard _ found (rw (e1, e2, e3, resolve) at h) in
              inr (inl (name, e1, e2, (s, sym (ap shard_of same))))
        ]
        | inl e2 ↦ elim (Option-cases kc.spec.target.front_proxy_ref) [
          | inl e3 ↦ elim (inr-ne-inl (rw (e1, e2, e3, resolve) at h)) [ ]
          | inr (name, e3) ↦ elim (sum_cases (C.front_proxy name)) [
            | inr (m, e4) ↦ elim (inr-ne-inl (rw (e1, e2, e3, e4, resolve) at h)) [ ]
            | inl (f, e4) ↦
                let (r, same) =
                  via-found "FrontProxy" f.spec.root_shard (with_ca_bundle C namespace f) found
                    (rw (e1, e2, e3, e4, resolve) at h) in
                inr (inr (name, e1, e2, e3, (r, with_ca_bundle-found namespace f r found same)))
          ]
        ]
      ]
    ]
