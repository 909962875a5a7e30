-- ===== src/Controllers/Finalizers.antt =====
-- The cleanup finalizer of shards (pkg/controller/shard/controller.go): when it is taken away.
use kcp_operator.Prelude.{
  ℕ, String, ◌≡◌, refl, sym, subst, ◌∙◌, ap, Bool, true, not, ◌&&◌, ◌==◌, eq_iff, arith, Option,
  none, some, List, [], ◌∷◌, ◌⊎◌, inl, inr, keep, contains, Member, Bool-cases, Option-cases,
}
use kcp_operator.Api.Objects.{RootShard}
use kcp_operator.Status.{Answer, answer, missing, refused, Condition}
use kcp_operator.Children.{fetch_root_shard}
use kcp_operator.Certificates.{CertificateLibrary, IsSetLibrary}
use kcp_operator.Kubeconfigs.{KubeconfigFile}
use kcp_operator.Controllers.{
  Cluster, Request, patch_finalizers, delete_kcp_shard, Run, asking, or_return, wrapped, finished,
}
use kcp_operator.Controllers.Shards.{
  ShardObject, cleanup_finalizer, remove_finalizer, clean_up, handle_deletion,
}
use kcp_operator.Controllers.Deletion.{without_cleanup}

-- The deletion succeeded, or there was nothing to delete.
abbrev pub IsGone : Answer (Unit {0}) → Type 0
IsGone (answer u) = Unit
IsGone missing = Unit
IsGone (refused e) = ⊥

Answer-cases : (a : Answer (Unit {0})) → IsGone a ⊎ ((e : String) × (a ≡ refused e))
Answer-cases (answer u) = inl tt
Answer-cases missing = inl tt
Answer-cases (refused e) = inr (e, refl)

contains-keep :
    (p : String → Bool) (xs : List String) (a : String)
    → contains (keep p xs) a ≡ (contains xs a && p a)
unfolding contains
contains-keep p [] a = refl
contains-keep p (x ∷ xs) a = elim (Bool-cases (x == a)) [
  | inl e ↦ ground (arith, e, ap p ((eq_iff x a).0 e), contains-keep p xs a)
  | inr e ↦ ground (arith, e, contains-keep p xs a)
]

module _ (L : CertificateLibrary) (write : KubeconfigFile → List ℕ ⊎ String) (C : Cluster) where
  module _ (s : ShardObject) where
    abbrev fetched : Option RootShard
    fetched = (fetch_root_shard C.root_shard s.object.spec.root_shard).1

    abbrev run : Run
    run = handle_deletion L write C s

    abbrev kept : List String
    kept = without_cleanup L write C s

    -- The kcp object of the shard is gone, or there is no root shard to delete it at.
    abbrev pub Deleted : Type 0
    Deleted =
        (fetched ≡ none)
        ⊎ ((r : RootShard) × (fetched ≡ some r)
            × (C.connect r ≡ none)
            × IsGone (C.delete_kcp_shard s.object.name))

    -- All that a deletion asks for.
    abbrev pub Cleaned : List Request → Type 0
    Cleaned requests =
        ((fetched ≡ none) × (requests ≡ patch_finalizers kept ∷ []))
        ⊎ ((r : RootShard) × (fetched ≡ some r)
            × (C.connect r ≡ none)
            × IsGone (C.delete_kcp_shard s.object.name)
            × (requests ≡ delete_kcp_shard s.object.name ∷ patch_finalizers kept ∷ []))

    returned_requests :
        (conditions others : List Condition) (e : Option String)
        → (or_return conditions e (finished others)).requests ≡ []
    returned_requests conditions others none = refl
    returned_requests conditions others (some e) = refl

    removing :
        contains s.finalizers cleanup_finalizer ≡ true
        → (conditions : List Condition)
        → (remove_finalizer L write C s (finished conditions)).requests ≡ patch_finalizers kept ∷ []
    unfolding remove_finalizer
    removing b conditions =
        let e = wrapped "failed to remove finalizer" (C.patch_finalizers kept) in
        rw b (ap (λ rs. patch_finalizers kept ∷ rs) (returned_requests conditions conditions e))

    module _ (fs : List String) where
      clean_up-Cleaned :
          (r : RootShard) (connected : Option String) (gone : Answer (Unit {0}))
          → contains s.finalizers cleanup_finalizer ≡ true
          → fetched ≡ some r
          → C.connect r ≡ connected
          → C.delete_kcp_shard s.object.name ≡ gone
          → Member (patch_finalizers fs) (clean_up L write C s r).requests
          → Cleaned (clean_up L write C s r).requests
      unfolding clean_up
      clean_up-Cleaned r (some e) gone b found con del p = elim (rw (con, clean_up) at p) [ ]
      clean_up-Cleaned r none (answer u) b found con del p = inr (
        r,
        found,
        con,
        rw del tt,
        rw (con, del, clean_up) (ap (λ rs. delete_kcp_shard s.object.name ∷ rs) (removing b [])),
      )
      clean_up-Cleaned r none missing b found con del p = inr (
        r,
        found,
        con,
        rw del tt,
        rw (con, del, clean_up) (ap (λ rs. delete_kcp_shard s.object.name ∷ rs) (removing b [])),
      )
      clean_up-Cleaned r none (refused e) b found con del p = elim (rw (con, del, clean_up) at p) [
        | inl h ↦ cc h
        | inr h ↦ elim h [ ]
      ]

      -- Let the deletion of a shard patch the finalizers. Then it asks for nothing else if the root
      -- shard is not fetched, for whatever error. Else the root workspace was connected to, the kcp
      -- object of the shard was deleted before or was missing, and the patch takes the finalizer away.
      pub handle_deletion-Cleaned : Member (patch_finalizers fs) run.requests → Cleaned run.requests
      unfolding handle_deletion
      handle_deletion-Cleaned p = elim (Bool-cases (contains s.finalizers cleanup_finalizer)) [
        | inr b ↦ elim (rw (b, handle_deletion) at p) [ ]
        | inl b ↦ elim (Option-cases fetched) [
          | inl absent ↦ inl (absent, rw (b, absent) (removing b _))
          | inr (r, e) ↦
              let same : run ≡ clean_up L write C s r = rw (b, e) refl in
              subst (λ x. Cleaned x.requests) (sym same)
                (clean_up-Cleaned r (C.connect r) (C.delete_kcp_shard s.object.name) b e refl refl
                  (rw (b, e) at p))
        ]
      ]

    released :
        contains s.finalizers cleanup_finalizer ≡ true
        → C.patch_finalizers kept ≡ none
        → (conditions : List Condition)
        → remove_finalizer L write C s (finished conditions)
          ≡ asking (patch_finalizers kept) (finished conditions)
    unfolding remove_finalizer
    released b patched conditions = rw (b, patched) refl

    -- The finalizer is taken away without an error.
    abbrev pub Freed : Run → Type 0
    Freed r = (r.errors ≡ []) × Member (patch_finalizers kept) r.requests

    clean_up-Freed :
        (r : RootShard) (gone : Answer (Unit {0}))
        → contains s.finalizers cleanup_finalizer ≡ true
        → C.patch_finalizers kept ≡ none
        → C.connect r ≡ none
        → C.delete_kcp_shard s.object.name ≡ gone
        → IsGone gone
        → Freed (clean_up L write C s r)
    unfolding clean_up
    clean_up-Freed r (answer u) b patched con del g =
        rw (con, del, clean_up, released b patched []) (refl, inr (inl refl))
    clean_up-Freed r missing b patched con del g =
        rw (con, del, clean_up, released b patched []) (refl, inr (inl refl))
    clean_up-Freed r (refused e) b patched con del g = elim g [ ]

    -- What the finalizers become: the others stay.
    abbrev pub OnlyCleanupGone : Type 0
    OnlyCleanupGone =
        (f : String) → contains kept f ≡ (contains s.finalizers f && not (f == cleanup_finalizer))

    -- Let a shard have the cleanup finalizer, the patch of the finalizers succeed, and let the kcp object
    -- be deleted or missing, or the root shard not be fetched. Then the deletion returns no error, and
    -- it patches the finalizers to those of the shard without the cleanup finalizer.
    pub handle_deletion-Freed :
        contains s.finalizers cleanup_finalizer ≡ true
        → C.patch_finalizers kept ≡ none
        → Deleted
        → IsSetLibrary L
        → Freed run × OnlyCleanupGone
    unfolding handle_deletion
    handle_deletion-Freed b patched deleted laws = (
      elim deleted [
        | inl absent ↦ rw (b, absent, released b patched _) (refl, inl refl)
        | inr (r, e, con, g) ↦
            let same : run ≡ clean_up L write C s r = rw (b, e) refl in
            subst Freed (sym same)
              (clean_up-Freed r (C.delete_kcp_shard s.object.name) b patched con refl g)
      ],
      λ f.
          laws.contains-sorted_set (keep (λ g. not (g == cleanup_finalizer)) s.finalizers) f
          ∙ contains-keep (λ g. not (g == cleanup_finalizer)) s.finalizers f,
    )
