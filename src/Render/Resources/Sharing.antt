-- ===== src/Render/Resources/Sharing.antt =====
-- The maps at the addresses that containers share, when resources are merged
-- (internal/resources/utils/deployments.go).
use kcp_operator.Prelude.{ℕ, String, ◌≡◌, ◌≢◌, some, arith}
use kcp_operator.Prelude.Maps.{lookup, or_else, lookup-copy}
use kcp_operator.Api.Pod.{ResourceRefs, ResourceRequirements}
use kcp_operator.Render.Resources.{Heap, merge_resources}

abbrev pub refs_at : ℕ → ℕ → ResourceRefs
refs_at a b = record { limits = some a; requests = some b }

-- For two maps at different addresses: each afterwards has the entries of the spec and, for the
-- keys that the spec leaves open, those that it had, and no other map changes.
pub lookup-merge_resources :
    (a b : ℕ) (resources : ResourceRequirements) (h : Heap) (k : String)
    → a ≢ b
    → let after = (merge_resources (refs_at a b) (some resources) h).1 in
      (lookup k (after.cell a) ≡ or_else (lookup k resources.limits) (lookup k (h.cell a)))
      × (lookup k (after.cell b) ≡ or_else (lookup k resources.requests) (lookup k (h.cell b)))
      × ((c : ℕ) → c ≢ a → c ≢ b → after.cell c ≡ h.cell c)
unfolding merge_resources
lookup-merge_resources a b resources h k ne = (
  ground (arith, lookup-copy k (h.cell a) resources.limits),
  ground (arith, lookup-copy k (h.cell b) resources.requests),
  λ c ca cb. ground arith,
)
