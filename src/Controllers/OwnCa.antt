-- ===== src/Controllers/OwnCa.antt =====
-- Certificate authorities that are not issued by cert-manager: caSecretRef of the certificates of a cache
-- server or root shard (pkg/controller/cacheserver/controller.go, pkg/controller/rootshard/controller.go).
use kcp_operator.Prelude.{
  ℕ, String, ◌≡◌, refl, ◌⊎◌, inl, inr, none, List, [], ◌∷◌, ◌++◌, Option-cases,
}
use kcp_operator.Api.Objects.{CacheServer, RootShard}
use kcp_operator.Render.Pods.{done, panic}
use kcp_operator.Certificates.{CertificateLibrary, NamedCertificateReconciler}
use kcp_operator.Certificates.Authorities.{no_issuer_ref}
use kcp_operator.Certificates.Authorities
use kcp_operator.Certificates.CacheServers as CacheCertificates
use kcp_operator.Kubeconfigs.{KubeconfigFile}
use kcp_operator.Controllers.{Cluster}
use kcp_operator.Controllers.CacheServers
use kcp_operator.Controllers.RootShards

module _ (L : CertificateLibrary) (write : KubeconfigFile → List ℕ ⊎ String) (C : Cluster) where
  cache_server_panics :
      (server : CacheServer)
      → server.spec.certificates.issuer_ref ≡ none
      → CacheServers.reconcile L write C server ≡ panic no_issuer_ref
  unfolding CacheServers.reconcile CacheCertificates.root_ca_certificate_reconciler
  cache_server_panics server h = rw h refl

  root_shard_asks :
      (r : RootShard)
      → (certs : List NamedCertificateReconciler) × (RootShards.certificate_reconcilers L r
          ≡ done certs)
  unfolding RootShards.certificate_reconcilers Authorities.root_ca_certificate_reconciler
  root_shard_asks r = elim (Option-cases r.spec.certificates.issuer_ref) [
    | inl e ↦ (RootShards.base_certificate_reconcilers L r, rw e refl)
    | inr (ref, e) ↦ (
      RootShards.base_certificate_reconcilers L r ++ (Authorities.issued_root_ca L r ref ∷ []),
      rw e refl,
    )
  ]

  -- The reconciliation of a cache server without an issuer reference panics, even if it has the CA of the
  -- user's that the API offers instead. The list of the certificates of a root shard is always computed.
  pub reconcile-own_ca :
      (server : CacheServer) (r : RootShard)
      → server.spec.certificates.issuer_ref ≡ none
      → (CacheServers.reconcile L write C server ≡ panic no_issuer_ref)
        × ((certs : List NamedCertificateReconciler) × (RootShards.certificate_reconcilers L r
              ≡ done certs))
  reconcile-own_ca server r h = (cache_server_panics server h, root_shard_asks r)
