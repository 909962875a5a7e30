-- ===== src/Controllers/Publishing.antt =====
-- How a compiled shard gets among the requests of a run (pkg/controller/shard/controller.go).
use kcp_operator.Prelude.{
  String, ◌≡◌, refl, Bool, true, false, Option, none, some, List, [], ◌∷◌, ◌⊎◌, inl, inr, Member,
  All, if◌then◌else◌,
}
use kcp_operator.Api.Objects.{CompiledShard}
use kcp_operator.Status.{Condition, Certificate}
use kcp_operator.Status.Readiness.{IsReady}
use kcp_operator.Render.Pods.{done}
use kcp_operator.Certificates.{NamedCertificateReconciler}
use kcp_operator.Kubeconfigs.{NamedSecretReconciler}
use kcp_operator.Controllers.{
  Cluster, Ensured, ensured, not_written, not_read, publish_shard, Run, asking, or_note, or_return,
  patch_finalizers, noting_secrets, reconcile_certificates, finished,
}

abbrev pub Publishes : CompiledShard → Run → Type 0
Publishes c run = Member (publish_shard c) run.requests

-- A certificate was ensured, and the one in the cluster is ready.
abbrev pub EnsuredReady :
    (NamedCertificateReconciler → Ensured) → NamedCertificateReconciler → Type 0
EnsuredReady ensure r = (cert : Certificate) × (ensure r ≡ ensured cert) × IsReady cert

pub done_injective : {A : Type 0} {x y : A} → done x ≡ done y → x ≡ y
done_injective e = cc e

pub some-ne-none : {A : Type 0} {x : A} → some x ≡ none → ⊥
some-ne-none e = cc e

pub cons-ne-nil : {A : Type 0} {x : A} {xs : List A} → x ∷ xs ≡ [] → ⊥
cons-ne-nil e = cc e

pub Ensured-cases :
    (x : Ensured)
    → ((cert : Certificate) × (x ≡ ensured cert))
      ⊎ (((cert : Certificate) × (e : String) × (x ≡ not_written cert e))
          ⊎ ((e : String) × (x ≡ not_read e)))
Ensured-cases (ensured cert) = inl (cert, refl)
Ensured-cases (not_written cert e) = inr (inl (cert, e, refl))
Ensured-cases (not_read e) = inr (inr (e, refl))

pub ensured_by :
    (ensure : NamedCertificateReconciler → Ensured) (rs : List NamedCertificateReconciler)
    → (reconcile_certificates ensure rs).1 ≡ none
    → All IsReady (reconcile_certificates ensure rs).0
    → All (EnsuredReady ensure) rs
unfolding reconcile_certificates
ensured_by ensure [] ok ready = tt
ensured_by ensure (r ∷ rs) ok ready = elim (Ensured-cases (ensure r)) [
  | inl (cert, e) ↦
      let ok2 = rw (e, reconcile_certificates) at ok in
      let ready2 = rw (e, reconcile_certificates) at ready in
      ((cert, e, ready2.0), ensured_by ensure rs ok2 ready2.1)
  | inr (inl (cert, m, e)) ↦ elim (some-ne-none (rw (e, reconcile_certificates) at ok)) [ ]
  | inr (inr (m, e)) ↦ elim (some-ne-none (rw (e, reconcile_certificates) at ok)) [ ]
]

module _ (c : CompiledShard) where
  -- A note of an error, or a request for Secrets, publishes nothing.
  pub strip_note :
      (e : Option String) (run : Run)
      → (or_note e run).errors ≡ []
      → Publishes c (or_note e run)
      → (e ≡ none) × (run.errors ≡ []) × Publishes c run
  strip_note none run ok p = (refl, ok, p)
  strip_note (some e) run ok p = elim (cons-ne-nil ok) [ ]

  pub strip_secrets :
      (C : Cluster) (rs : List NamedSecretReconciler) (run : Run)
      → (noting_secrets C rs run).errors ≡ []
      → Publishes c (noting_secrets C rs run)
      → (run.errors ≡ []) × Publishes c run
  strip_secrets C rs run ok (inl e) = cc e
  strip_secrets C rs run ok (inr p) = let h = strip_note (C.secrets rs) run ok p in (h.1, h.2)

  pub strip_if :
      (C : Cluster) (b : Bool) (rs : List NamedSecretReconciler) (run : Run)
      → (if b then noting_secrets C rs run else run).errors ≡ []
      → Publishes c (if b then noting_secrets C rs run else run)
      → (run.errors ≡ []) × Publishes c run
  strip_if C true rs run ok p = strip_secrets C rs run ok p
  strip_if C false rs run ok p = (ok, p)

  pub patching_silent :
      (fs : List String) (conditions others : List Condition) (e : Option String)
      → Publishes c (asking (patch_finalizers fs) (or_return conditions e (finished others)))
      → ⊥
  patching_silent fs conditions others e (inl h) = cc h
  patching_silent fs conditions others none (inr p) = p
  patching_silent fs conditions others (some e) (inr p) = p

  pub neither :
      (b : Bool) (x y : Run)
      → (Publishes c x → ⊥)
      → (Publishes c y → ⊥)
      → Publishes c (if b then x else y)
      → ⊥
  neither true x y no_x no_y p = no_x p
  neither false x y no_x no_y p = no_y p
