-- ===== src/Status/Readiness.antt =====
-- CertificateRevisions of pkg/controller/util/util.go gives revisions only if every certificate is ready.
use kcp_operator.Prelude.{String, ◌≡◌, true, none, some, List, [], ◌∷◌, Bool-cases, All, inl, inr}
use kcp_operator.Prelude.Maps.{Map, insert}
use kcp_operator.Status.{
  Certificate, certificate_ready, collect_revisions, certificate_revisions, revision_text,
}

abbrev pub IsReady : Certificate → Type 0
IsReady cert = certificate_ready cert ≡ true

never : {A : Type 0} {x : A} → none ≡ some x → ⊥
never e = cc e

collected-IsReady :
    (certs : List Certificate) (start : Map String) {revisions : Map String}
    → collect_revisions certs start ≡ some revisions
    → All IsReady certs
collected-IsReady [] start h = tt
collected-IsReady (cert ∷ certs) start h = elim (Bool-cases (certificate_ready cert)) [
  | inr unready ↦ elim (never (rw unready at h)) [ ]
  | inl ready ↦ (
    ready,
    collected-IsReady certs (insert cert.name (revision_text cert.revision) start) (rw ready at h),
  )
]

pub revisions-IsReady :
    (certs : List Certificate) {revisions : Map String}
    → certificate_revisions certs ≡ some revisions
    → All IsReady certs
unfolding certificate_revisions
revisions-IsReady certs h = collected-IsReady certs [] h
