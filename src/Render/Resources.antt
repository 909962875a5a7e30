-- ===== src/Render/Resources.antt =====
-- Go maps in memory, and ApplyResources of internal/resources/utils/deployments.go. A container that
-- is filled from a package-level default holds the default's own maps, so the heap is part of the
-- model.
pub mod Sharing
use kcp_operator.Prelude.{ℕ, ◌+◌, String, Option, none, some, [], eqb, if◌then◌else◌}
use kcp_operator.Prelude.Maps.{Map, copy}
use kcp_operator.Api.Pod.{Container, ResourceRefs, ResourceRequirements}

-- The maps by their addresses. Everything from `next` on is unused.
pub record Heap : Type 0 where
  pub next : ℕ
  pub cell : ℕ → Map String

abbrev pub write : Heap → ℕ → Map String → Heap
write h a m = record h { cell = λ b. if eqb a b then m else h.cell b }

-- `if m == nil { m = make(corev1.ResourceList) }`: the address of the map and the heap.
unfoldable pub ensure_map : Option ℕ → Heap → ℕ × Heap
ensure_map (some a) h = (a, h)
ensure_map none h = (h.next, record { next = h.next + 1; cell = (write h h.next []).cell })

-- `maps.Copy(m, src)` for the map at an address
abbrev pub copy_into : ℕ → Map String → Heap → Heap
copy_into a src h = write h a (copy (h.cell a) src)

-- The maps that a container has afterwards.
unfoldable pub merge_resources :
    ResourceRefs → Option ResourceRequirements → Heap → ResourceRefs × Heap
unfolding ensure_map
merge_resources refs none h = (refs, h)
merge_resources refs (some resources) h =
    let (limits, h1) = ensure_map refs.limits h in
    let (requests, h2) = ensure_map refs.requests h1 in
    (
      record { limits = some limits; requests = some requests },
      copy_into requests resources.requests (copy_into limits resources.limits h2),
    )

unfoldable pub apply_resources : Container → Option ResourceRequirements → Heap → Container × Heap
unfolding merge_resources
apply_resources container resources h =
    let (refs, h1) = merge_resources container.resources resources h in
    (record container { resources = refs }, h1)
