-- ===== src/Controllers/Made.antt =====
-- Which Secrets come to exist because of the requests of a reconciliation.
pub mod Shards
pub mod RootShards
pub mod CacheServers
use kcp_operator.Prelude.{
  ℕ, String, ◌<>◌, ◌≡◌, refl, sym, ap, subst, true, Option, none, some, is_some, List, [], ◌∷◌,
  ◌++◌, map, ◌⊎◌, inl, inr, ◌||◌, Bool-cases, Member,
}
use kcp_operator.Api.Certificates.{ObjectReference}
use kcp_operator.Api.Objects.{Shard, RootShard, CacheServer}
use kcp_operator.Certificates.{CertificateLibrary, NamedCertificateReconciler}
use kcp_operator.Certificates.Authorities.{issued_root_ca, ca_certificate_reconciler}
use kcp_operator.Certificates.CacheServers as CacheCertificates
use kcp_operator.Certificates.Secrets.{
  secret_of, shard_server, shard_service_account, shard_client, shard_mounts_proxy, shard_admin,
  shard_external_admin, root_ca_secret, server_ca_secret, requestheader_ca_secret, client_ca_secret,
  service_account_ca_secret, cache_ca_secret, cache_client_secret,
}
use kcp_operator.Kubeconfigs.Shards.{
  root_shard_client_kubeconfig_reconciler, logical_cluster_admin_kubeconfig_reconciler,
  external_logical_cluster_admin_kubeconfig_reconciler,
}
use kcp_operator.Kubeconfigs.CacheServers.{kubeconfig_reconciler}
use kcp_operator.Bundles.Owners.{
  shard_merged_ca_bundle_reconciler, shard_merged_client_ca_bundle_reconciler,
}
use kcp_operator.Status.{Certificate, certificate_revisions}
use kcp_operator.Kubeconfigs.{KubeconfigFile, NamedSecretReconciler}
use kcp_operator.Controllers.{
  Cluster, Request, certificates, issuers, secrets, publish_root_shard, publish_shard,
  publish_cache_server, publish_front_proxy, publish_virtual_workspace, patch_finalizers,
  delete_kcp_shard, Run, or_return, or_note, asking, noting_secrets, reconcile_all,
  reconcile_certificates, asked_certificates, Ensured,
}
use kcp_operator.Controllers.Publishing.{Ensured-cases, some-ne-none, cons-ne-nil}

-- The request makes a Secret of this name: of a certificate that cert-manager issues, or itself.
abbrev pub Makes : String → Request → Type 0
Makes n (certificates rs) = Member n (map secret_of rs)
Makes n (secrets rs) = Member n (map (λ r. r.name) rs)
Makes n (issuers rs) = ⊥
Makes n (publish_root_shard c) = ⊥
Makes n (publish_shard c) = ⊥
Makes n (publish_cache_server c) = ⊥
Makes n (publish_front_proxy c) = ⊥
Makes n (publish_virtual_workspace c) = ⊥
Makes n (patch_finalizers fs) = ⊥
Makes n (delete_kcp_shard s) = ⊥

abbrev pub Made : String → List Request → Type 0
Made n [] = ⊥
Made n (q ∷ qs) = Makes n q ⊎ Made n qs

pub Made-note :
    (n : String) (e : Option String) (run : Run)
    → Made n run.requests
    → Made n (or_note e run).requests
Made-note n none run m = m
Made-note n (some e) run m = m

pub Made-return :
    (n : String) (e : Option String) (run : Run)
    → (or_return [] e run).errors ≡ []
    → ((run.errors ≡ []) → Made n run.requests)
    → Made n (or_return [] e run).requests
Made-return n none run ok m = m ok
Made-return n (some e) run ok m = cc ok

-- A run without errors has noted none.
pub no_note : (e : Option String) (run : Run) → (or_note e run).errors ≡ [] → e ≡ none
no_note none run ok = refl
no_note (some e) run ok = elim (cons-ne-nil ok) [ ]

pub no_return : (e : Option String) (run : Run) → (or_return [] e run).errors ≡ [] → e ≡ none
no_return none run ok = refl
no_return (some e) run ok = elim (cons-ne-nil ok) [ ]

-- A loop that meets no error comes to every certificate.
asked_certificates-all :
    (ensure : NamedCertificateReconciler → Ensured) (rs : List NamedCertificateReconciler)
    → (reconcile_certificates ensure rs).1 ≡ none
    → asked_certificates ensure rs ≡ rs
unfolding reconcile_certificates asked_certificates
asked_certificates-all ensure [] ok = refl
asked_certificates-all ensure (r ∷ rs) ok = elim (Ensured-cases (ensure r)) [
  | inl (cert, e) ↦
      let ok2 = rw (e, reconcile_certificates) at ok in
      rw (e, asked_certificates)
        (ap (λ (xs : List NamedCertificateReconciler). r ∷ xs)
          (asked_certificates-all ensure rs ok2))
  | inr (inl (cert, m, e)) ↦ elim (some-ne-none (rw (e, reconcile_certificates) at ok)) [ ]
  | inr (inr (m, e)) ↦ elim (some-ne-none (rw (e, reconcile_certificates) at ok)) [ ]
]

pub asked-Member :
    (n : String) (ensure : NamedCertificateReconciler → Ensured)
    (rs : List NamedCertificateReconciler)
    → (reconcile_certificates ensure rs).1 ≡ none
    → Member n (map secret_of rs)
    → Member n (map secret_of (asked_certificates ensure rs))
asked-Member n ensure rs ok m =
    subst (λ (xs : List NamedCertificateReconciler). Member n (map secret_of xs))
      (sym (asked_certificates-all ensure rs ok)) m
