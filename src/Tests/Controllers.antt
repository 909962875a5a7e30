-- ===== src/Tests/Controllers.antt =====
-- Reconciliations of concrete objects with concrete answers of the cluster.
use kcp_operator.Prelude.{
  ℕ, String, ◌≡◌, refl, Bool, true, false, Option, none, some, List, [], ◌∷◌, ◌⊎◌, inl, inr,
  contains,
}
use kcp_operator.Prelude.Maps.{Map}
use kcp_operator.Api.Certificates.{ObjectReference}
use kcp_operator.Api.Objects.{Shard, CacheServer, CompiledShard}
use kcp_operator.Status.{missing, certificate_ready, certificate_revisions}
use kcp_operator.Children.{fetch_root_shard, get_root_shard_children}
use kcp_operator.Compile.{mutate_keys, compiled_shard_reconciler}
use kcp_operator.Render.Pods.{done, panic}
use kcp_operator.Certificates.{CertificateLibrary, IsSetLibrary, NamedCertificateReconciler}
use kcp_operator.Certificates.Authorities.{no_issuer_ref}
use kcp_operator.Kubeconfigs.{KubeconfigFile}
use kcp_operator.Controllers.{
  reconcile_certificates, Cluster, Ensured, ensured, not_read, Run, with_condition,
}
use kcp_operator.Controllers.Shards.{
  with_bundles, resolved, published, reconcile_shard, ShardObject, cleanup_finalizer,
  certificate_reconcilers, reconcile, reconcile_with, handle_deletion,
}
use kcp_operator.Controllers.CacheServers
use kcp_operator.Controllers.RootShards
use kcp_operator.Controllers.Publishing.{Publishes}
use kcp_operator.Controllers.Readiness.{PublishedReady, reconcile-PublishedReady}
use kcp_operator.Controllers.Unready.{reconcile-Publishes_unready}
use kcp_operator.Controllers.Finalizers.{
  Cleaned, Freed, OnlyCleanupGone, handle_deletion-Cleaned, handle_deletion-Freed,
}
use kcp_operator.Controllers.OwnCa.{reconcile-own_ca}
use kcp_operator.CompiledShard.Deployment.{secret_mounts}
use kcp_operator.Controllers.Made.CacheServers.{cache_run}
use kcp_operator.Controllers.Made.RootShards.{root_certificates}
use kcp_operator.Controllers.Proxies
use kcp_operator.Certificates.CacheServers as CacheCertificates
use kcp_operator.Kubeconfigs.Shards.{
  root_shard_client_kubeconfig, logical_cluster_admin_kubeconfig,
  external_logical_cluster_admin_kubeconfig,
}
use kcp_operator.Kubeconfigs.Files.{IsUsable, kubeconfigs-IsUsable}
use kcp_operator.Tests.Samples.{shard, root_shard, cache_server}

abbrev pub library : CertificateLibrary
library = record { sorted_set = λ xs. xs; parse_hostname = λ url. none; aggregate = λ es. "errors" }

abbrev pub library-IsSetLibrary : IsSetLibrary library
library-IsSetLibrary = record { contains-sorted_set = λ xs a. refl }

abbrev write : KubeconfigFile → List ℕ ⊎ String
write file = inl (1 ∷ [])

abbrev pub ready : NamedCertificateReconciler → Ensured
ready r = ensured (record {
  name = r.name;
  revision = some 3;
  conditions = record { type_name = "Ready"; status = "True" } ∷ [];
})

-- A cluster with one root shard and one shard, in which all succeeds.
abbrev pub cluster : (NamedCertificateReconciler → Ensured) → Cluster
cluster certs = record {
  certificate = certs;
  issuer = λ i. none;
  secrets = λ rs. none;
  root_shard = λ name. inl (root_shard name);
  shard = λ name. inl (shard name);
  virtual_workspace = λ name. inr "not found";
  shards = inl (shard "alpha" ∷ []);
  secret = λ name. inr "not found";
  compiled_root_shard = λ c. none;
  compiled_shard = λ c. none;
  compiled_cache_server = λ c. none;
  compiled_front_proxy = λ c. none;
  compiled_virtual_workspace = λ c. none;
  patch_finalizers = λ fs. none;
  connect = λ r. none;
  delete_kcp_shard = λ name. missing;
}

abbrev issuer : ObjectReference
issuer = record { name = "selfsigned"; kind = "Issuer"; group = "" }

abbrev alpha : Bool → ShardObject
alpha deleting = record {
  object = shard "alpha";
  deleting = deleting;
  finalizers = "backup" ∷ cleanup_finalizer ∷ [];
}

alpha_finalized : contains (alpha true).finalizers cleanup_finalizer ≡ true
unfolding contains
alpha_finalized = refl

handle_deletion-Freed_example :
    Freed library write
      (cluster ready)
      (alpha true)
      (handle_deletion library write (cluster ready) (alpha true))
    × OnlyCleanupGone library write (cluster ready) (alpha true)
unfolding fetch_root_shard
handle_deletion-Freed_example =
    handle_deletion-Freed library write (cluster ready) (alpha true) alpha_finalized refl
      (inr (root_shard "root", refl, refl, tt)) library-IsSetLibrary

handle_deletion-Cleaned_example :
    Cleaned library write
      (cluster ready)
      (alpha true)
      (handle_deletion library write (cluster ready) (alpha true)).requests
handle_deletion-Cleaned_example =
    handle_deletion-Cleaned library write (cluster ready) (alpha true) ("backup" ∷ [])
      handle_deletion-Freed_example.0.1

reconcile-own_ca_example :
    (CacheServers.reconcile library write (cluster ready) (cache_server "cache")
      ≡ panic no_issuer_ref)
    × ((certs : List NamedCertificateReconciler) × (RootShards.certificate_reconcilers library
            (root_shard "root")
          ≡ done certs))
reconcile-own_ca_example =
    reconcile-own_ca library write (cluster ready) (cache_server "cache") (root_shard "root") refl

-- No shard is deleted, and the shard has its finalizer.
abbrev settled : Cluster → Shard → Run
settled C s =
    with_condition (fetch_root_shard C.root_shard s.spec.root_shard).0
      (reconcile_with library write C s (root_shard "root") (shard "alpha" ∷ [], []))

abbrev alone : CompiledShard
alone = compiled_shard_reconciler (shard "alpha") (root_shard "root") none (shard "alpha" ∷ []) []

alpha_runs :
    reconcile library write (cluster ready) (alpha false)
    ≡ done (settled (cluster ready) (shard "alpha"))
unfolding reconcile reconcile_shard contains get_root_shard_children fetch_root_shard
alpha_runs = refl

alpha_succeeds : (settled (cluster ready) (shard "alpha")).errors ≡ []
unfolding reconcile_with reconcile_certificates certificate_reconcilers with_bundles resolved
    published certificate_ready certificate_revisions
alpha_succeeds = refl

-- What is published for it.
abbrev pub or_empty : Option (Map String) → Map String
or_empty none = []
or_empty (some m) = m

abbrev labelled : CompiledShard
labelled = compiled_shard_reconciler (shard "alpha") (root_shard "root") none (shard "alpha" ∷ []) (
    mutate_keys
      (or_empty (
        certificate_revisions
          (reconcile_certificates ready
            (certificate_reconcilers library (shard "alpha") (root_shard "root"))).0))
      "cert-" "-revision")

alpha_published : Publishes labelled (settled (cluster ready) (shard "alpha"))
unfolding reconcile_with reconcile_certificates certificate_reconcilers with_bundles resolved
    published certificate_ready certificate_revisions
alpha_published = inr (inr (inl refl))

reconcile-PublishedReady_example :
    PublishedReady library write (cluster ready) (alpha false) labelled
reconcile-PublishedReady_example =
    reconcile-PublishedReady library write (cluster ready) (alpha false) labelled
      (settled (cluster ready) (shard "alpha")) alpha_runs alpha_succeeds alpha_published

reconcile-Publishes_unready_example :
    (run : Run) × (reconcile library write (cluster (λ r. not_read "timeout")) (alpha false)
      ≡ done run)
    × Publishes alone run
unfolding fetch_root_shard get_root_shard_children contains
reconcile-Publishes_unready_example =
    reconcile-Publishes_unready library write (cluster (λ r. not_read "timeout")) (alpha false)
      (root_shard "root") (shard "alpha" ∷ []) "timeout" refl refl refl refl refl refl

-- A cluster whose Secrets hold a certificate.
abbrev with_secrets : Cluster
with_secrets = record (cluster ready) { secret = λ name. inl (("tls.crt", 1 ∷ []) ∷ []) }

-- A root shard and a cache server that have an issuer.
abbrev root_settled : Run
root_settled =
    RootShards.reconcile_with library write with_secrets (root_shard "root")
      (root_certificates library write with_secrets (root_shard "root") issuer)
      (shard "alpha" ∷ [], [])

abbrev issued_cache : CacheServer
issued_cache = record (cache_server "cache") {
  spec = record (cache_server "cache").spec {
    certificates = record { issuer_ref = some issuer; ca_secret_ref = none };
  };
}

abbrev cache_settled : Run
cache_settled = cache_run library write (cluster ready) issued_cache issuer

abbrev cached_alpha : Shard
cached_alpha = record (shard "alpha") {
  spec = record (shard "alpha").spec { cache = some (record { reference = some "cache" }) };
}

kubeconfigs-IsUsable_example :
    IsUsable (secret_mounts alone true) (root_shard_client_kubeconfig (root_shard "root"))
    × IsUsable (secret_mounts alone true) (logical_cluster_admin_kubeconfig (shard "alpha"))
    × IsUsable
        (secret_mounts alone true)
        (external_logical_cluster_admin_kubeconfig (shard "alpha") (root_shard "root"))
kubeconfigs-IsUsable_example =
    kubeconfigs-IsUsable (shard "alpha") (root_shard "root") none (shard "alpha" ∷ []) [] true
