-- ===== src/Controllers/CacheServers.antt =====
-- pkg/controller/cacheserver/controller.go
use kcp_operator.Prelude.{ℕ, String, Bool, Option, none, some, List, [], ◌∷◌, ◌⊎◌, if◌then◌else◌}
use kcp_operator.Prelude.Maps.{Map}
use kcp_operator.Api.Objects.{CacheServer}
use kcp_operator.Compile.{compiled_cache_server_reconciler, mutate_keys}
use kcp_operator.Render.Pods.{Outcome, done, ◌>>=◌}
use kcp_operator.Status.{Answer, answer, missing, refused, certificate_revisions}
use kcp_operator.Certificates.{CertificateLibrary, NamedCertificateReconciler}
use kcp_operator.Certificates.CacheServers.{
  root_ca_certificate_reconciler, server_certificate_reconciler, client_certificate_reconciler,
  root_ca_issuer_reconciler,
}
use kcp_operator.Kubeconfigs.{KubeconfigFile}
use kcp_operator.Kubeconfigs.CacheServers.{kubeconfig_reconciler}
use kcp_operator.Controllers.{
  Cluster, certificates, issuers, secrets, publish_cache_server, Run, finished, failed, asking,
  or_return, reconcile_all, reconcile_certificates, asked_certificates, asked_all,
}

module _ (L : CertificateLibrary) (write : KubeconfigFile → List ℕ ⊎ String) (C : Cluster) where
  unfoldable pub published : CacheServer → Option (Map String) → Run
  unfolding mutate_keys
  published server none = finished []
  published server (some revisions) =
      let compiled =
        compiled_cache_server_reconciler server (mutate_keys revisions "cert-" "-revision") in
      asking (publish_cache_server compiled)
        (or_return [] (C.compiled_cache_server compiled) (finished []))

  unfoldable pub reconcile_with : CacheServer → NamedCertificateReconciler → Run
  unfolding published reconcile_certificates asked_certificates
  reconcile_with server root_ca =
      let certs =
        root_ca
        ∷ server_certificate_reconciler L server
        ∷ client_certificate_reconciler L server
        ∷ [] in
      let ensured_certs = reconcile_certificates C.certificate certs in
      let issuer = root_ca_issuer_reconciler server ∷ [] in
      let kubeconfigs = kubeconfig_reconciler write server ∷ [] in
      asking (certificates (asked_certificates C.certificate certs)) (
        or_return [] ensured_certs.1 (
          asking (issuers (asked_all C.issuer issuer)) (
            or_return [] (reconcile_all C.issuer issuer) (
              asking (secrets kubeconfigs) (
                or_return [] (C.secrets kubeconfigs)
                  (published server (certificate_revisions ensured_certs.0)))))))

  unfoldable pub reconcile : CacheServer → Outcome Run
  unfolding reconcile_with
  reconcile server =
      root_ca_certificate_reconciler L server >>= (λ root_ca. done (reconcile_with server root_ca))

  -- Reconcile: the object with whether it is being deleted, as the client answers.
  unfoldable pub reconcile_request : Answer (CacheServer × Bool) → Outcome Run
  unfolding reconcile
  reconcile_request (answer found) =
      let run = reconcile found.0 in if found.1 then done (finished []) else run
  reconcile_request missing = done (finished [])
  reconcile_request (refused e) = done (failed [] e)
