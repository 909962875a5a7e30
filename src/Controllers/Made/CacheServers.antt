-- ===== src/Controllers/Made/CacheServers.antt =====
-- The Secrets that the reconciliation of a cache server makes (pkg/controller/cacheserver/controller.go).
use kcp_operator.Prelude.{
  ℕ, String, ◌<>◌, ◌≡◌, refl, sym, ap, subst, Option, none, some, List, [], ◌∷◌, ◌⊎◌, inl, inr,
}
use kcp_operator.Api.Certificates.{ObjectReference}
use kcp_operator.Api.Objects.{CacheServer}
use kcp_operator.Certificates.{CertificateLibrary, NamedCertificateReconciler}
use kcp_operator.Certificates.Authorities.{no_issuer_ref}
use kcp_operator.Certificates.CacheServers as CacheCertificates
use kcp_operator.Certificates.Secrets.{cache_ca_secret, cache_client_secret}
use kcp_operator.Kubeconfigs.CacheServers.{kubeconfig_reconciler}
use kcp_operator.Status.{certificate_revisions}
use kcp_operator.Kubeconfigs.{KubeconfigFile, NamedSecretReconciler}
use kcp_operator.Controllers.{
  Cluster, issuers, secrets, Run, or_return, asking, reconcile_all, reconcile_certificates,
  asked_all,
}
use kcp_operator.Controllers.Publishing.{done_injective}
use kcp_operator.Controllers.CacheServers
use kcp_operator.Render.Pods.{Outcome, done, panic, ◌>>=◌}
use kcp_operator.Controllers.Made.{Made, Made-return, no_return, asked-Member}

module _ (L : CertificateLibrary) (write : KubeconfigFile → List ℕ ⊎ String) (C : Cluster) where
  module _ (c : CacheServer) (ref : ObjectReference) where
    abbrev pub cache_run : Run
    cache_run = CacheServers.reconcile_with L write C c (CacheCertificates.issued_root_ca L c ref)

    abbrev cache_certs : List NamedCertificateReconciler
    cache_certs =
        CacheCertificates.issued_root_ca L c ref
        ∷ CacheCertificates.server_certificate_reconciler L c
        ∷ CacheCertificates.client_certificate_reconciler L c
        ∷ []

    abbrev published_run : Run
    published_run =
        CacheServers.published L write C c
          (certificate_revisions (reconcile_certificates C.certificate cache_certs).0)

    abbrev kubeconfigs : List NamedSecretReconciler
    kubeconfigs = kubeconfig_reconciler write c ∷ []

    abbrev secrets_run : Run
    secrets_run = asking (secrets kubeconfigs) (or_return [] (C.secrets kubeconfigs) published_run)

    abbrev issuers_run : Run
    issuers_run =
        let issuer = CacheCertificates.root_ca_issuer_reconciler c ∷ [] in
        asking (issuers (asked_all C.issuer issuer))
          (or_return [] (reconcile_all C.issuer issuer) secrets_run)

    pub cache_secrets :
        cache_run.errors ≡ []
        → Made (c.name <> "-ca") cache_run.requests
          × Made (c.name <> "-client-certificate") cache_run.requests
          × Made (c.name <> "-kubeconfig") cache_run.requests
    unfolding CacheServers.reconcile_with kubeconfig_reconciler
    cache_secrets ok = (
      inl (
          asked-Member (c.name <> "-ca") C.certificate cache_certs (no_return _ issuers_run ok)
            (inl (sym (cache_ca_secret L c ref)))),
      inl (
          asked-Member (c.name <> "-client-certificate") C.certificate cache_certs
            (no_return _ issuers_run ok) (inr (inr (inl (sym (cache_client_secret L c)))))),
      inr (
          Made-return (c.name <> "-kubeconfig") _ issuers_run ok (λ ok2.
            inr (Made-return (c.name <> "-kubeconfig") _ secrets_run ok2 (λ ok3. inl (inl refl))))),
    )

  issued :
      (c : CacheServer) (issuer : Option ObjectReference)
      → c.spec.certificates.issuer_ref ≡ issuer
      → CacheCertificates.root_ca_certificate_reconciler L c ≡ elim issuer [
        | none ↦ panic no_issuer_ref
        | some ref ↦ done (CacheCertificates.issued_root_ca L c ref)
      ]
  unfolding CacheCertificates.root_ca_certificate_reconciler
  issued c issuer e =
      ap
        (λ (o : Option ObjectReference). elim o [
          | none ↦ panic no_issuer_ref
          | some ref ↦ done (CacheCertificates.issued_root_ca L c ref)
        ])
        e

  issued_runs :
      (c : CacheServer) (run : Run) (issuer : Option ObjectReference)
      → CacheCertificates.root_ca_certificate_reconciler L c ≡ elim issuer [
        | none ↦ panic no_issuer_ref
        | some ref ↦ done (CacheCertificates.issued_root_ca L c ref)
      ]
      → CacheServers.reconcile L write C c ≡ done run
      → (ref : ObjectReference) × (run ≡ cache_run c ref)
  unfolding CacheServers.reconcile
  issued_runs c run none e ran = cc (
      subst
        (λ (x : Outcome NamedCertificateReconciler).
          (x >>= (λ root. done (CacheServers.reconcile_with L write C c root))) ≡ done run)
        e ran)
  issued_runs c run (some ref) e ran = (
    ref,
    sym (
        done_injective (
          subst
            (λ (x : Outcome NamedCertificateReconciler).
              (x >>= (λ root. done (CacheServers.reconcile_with L write C c root))) ≡ done run)
            e ran)),
  )

  -- A reconciliation that does not panic found an issuer.
  pub reconcile_runs :
      (c : CacheServer) (run : Run)
      → CacheServers.reconcile L write C c ≡ done run
      → (ref : ObjectReference) × (run ≡ cache_run c ref)
  reconcile_runs c run =
      issued_runs c run c.spec.certificates.issuer_ref
        (issued c c.spec.certificates.issuer_ref refl)
