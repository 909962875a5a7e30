-- ===== src/Controllers/Deletion.antt =====
-- The deletion of a shard: handleDeletion of pkg/controller/shard/controller.go.
use kcp_operator.Prelude.{
  keep, ◌==◌, ℕ, String, ◌≡◌, refl, not, Option, none, some, List, [], ◌∷◌, ◌⊎◌, inl, inr,
  Bool-cases, Option-cases, contains,
}
use kcp_operator.Api.Objects.{RootShard, CompiledShard}
use kcp_operator.Status.{Answer, answer, missing, refused, Condition}
use kcp_operator.Children.{fetch_root_shard}
use kcp_operator.Certificates.{CertificateLibrary}
use kcp_operator.Kubeconfigs.{KubeconfigFile}
use kcp_operator.Controllers.{Cluster, asking, or_return, patch_finalizers, wrapped, finished}
use kcp_operator.Controllers.Shards.{
  ShardObject, cleanup_finalizer, remove_finalizer, clean_up, handle_deletion,
}
use kcp_operator.Controllers.Publishing.{Publishes, patching_silent, neither}

module _ (L : CertificateLibrary) (write : KubeconfigFile → List ℕ ⊎ String) (C : Cluster) where
  abbrev pub without_cleanup : ShardObject → List String
  without_cleanup s = L.sorted_set (keep (λ f. not (f == cleanup_finalizer)) s.finalizers)

  module _ (c : CompiledShard) (s : ShardObject) where
    remove_finalizer_silent :
        (conditions : List Condition)
        → Publishes c (remove_finalizer L write C s (finished conditions))
        → ⊥
    unfolding remove_finalizer
    remove_finalizer_silent conditions =
        let fs = without_cleanup s in
        let e = wrapped "failed to remove finalizer" (C.patch_finalizers fs) in
        neither c (contains s.finalizers cleanup_finalizer)
          (asking (patch_finalizers fs) (or_return conditions e (finished conditions)))
          (finished conditions) (patching_silent c fs conditions conditions e) (λ p. p)

    clean_up_silent :
        (r : RootShard) (answered : Option String) (deleted : Answer (Unit {0}))
        → C.connect r ≡ answered
        → C.delete_kcp_shard s.object.name ≡ deleted
        → Publishes c (clean_up L write C s r)
        → ⊥
    unfolding clean_up
    clean_up_silent r (some e) deleted con del p = rw (con, clean_up) at p
    clean_up_silent r none (answer u) con del p = elim (rw (con, del, clean_up) at p) [
      | inl h ↦ cc h
      | inr q ↦ remove_finalizer_silent [] q
    ]
    clean_up_silent r none missing con del p = elim (rw (con, del, clean_up) at p) [
      | inl h ↦ cc h
      | inr q ↦ remove_finalizer_silent [] q
    ]
    clean_up_silent r none (refused e) con del p = elim (rw (con, del, clean_up) at p) [
      | inl h ↦ cc h
      | inr q ↦ q
    ]

    pub handle_deletion_silent : Publishes c (handle_deletion L write C s) → ⊥
    unfolding handle_deletion
    handle_deletion_silent p =
        let fetched = fetch_root_shard C.root_shard s.object.spec.root_shard in
        elim (Bool-cases (contains s.finalizers cleanup_finalizer)) [
          | inr b ↦ rw b at p
          | inl b ↦ elim (Option-cases fetched.1) [
            | inl none_e ↦ remove_finalizer_silent (fetched.0 ∷ []) (rw (b, none_e) at p)
            | inr (r, e) ↦
                clean_up_silent r (C.connect r) (C.delete_kcp_shard s.object.name) refl refl
                  (rw (b, e) at p)
          ]
        ]
