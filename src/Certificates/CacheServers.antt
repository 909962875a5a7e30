-- ===== src/Certificates/CacheServers.antt =====
-- internal/resources/cacheserver/certificates.go and issuers.go
use kcp_operator.Prelude.{true, none, some, [], ◌∷◌}
use kcp_operator.Api.Certificates.{empty_spec, certificate_template, ObjectReference, ca_template}
use kcp_operator.Api.Objects.{CacheServer}
use kcp_operator.Names.Defaults.{server_certificate, client_certificate, root_ca}
use kcp_operator.Names.Labels.{get_cache_server_resource_labels}
use kcp_operator.Names.Certificates.{
  get_cache_server_certificate_name, get_cache_server_client_certificate_name,
  get_cache_server_ca_name,
}
use kcp_operator.Names.Hosts.{get_cache_server_base_host}
use kcp_operator.Render.Pods.{Outcome, done, panic}
use kcp_operator.Certificates.Authorities.{Issuer, or_secret, no_issuer_ref}
use kcp_operator.Certificates.{
  CertificateLibrary, NamedCertificateReconciler, with_spec, default_certificate_duration,
  default_certificate_renewal, rsa_key, labelled, issuer, in_organization, default_ca_duration,
  default_ca_renewal,
}

unfoldable pub root_ca_issuer_reconciler : CacheServer → Issuer
unfolding get_cache_server_ca_name get_cache_server_resource_labels
root_ca_issuer_reconciler server =
    let ca_name = get_cache_server_ca_name server.name root_ca in
    record {
      name = ca_name;
      labels = get_cache_server_resource_labels server;
      secret_name = or_secret server.spec.certificates.ca_secret_ref ca_name;
    }

module _ (L : CertificateLibrary) where
  unfoldable pub client_certificate_reconciler : CacheServer → NamedCertificateReconciler
  unfolding certificate_template get_cache_server_certificate_name
      get_cache_server_client_certificate_name get_cache_server_ca_name
      get_cache_server_resource_labels get_cache_server_base_host
  client_certificate_reconciler server =
      let cert_name = get_cache_server_client_certificate_name server in
      record {
        name = cert_name;
        reconcile =
            with_spec L (get_cache_server_resource_labels server)
              (record empty_spec {
                secret_name = cert_name;
                secret_template = labelled (("operator.kcp.io/cache-server", server.name) ∷ []);
                duration = default_certificate_duration;
                renew_before = default_certificate_renewal;
                private_key = rsa_key;
                common_name = "cache-client";
                subject = in_organization "system:masters";
                usages = "client auth" ∷ "key encipherment" ∷ "digital signature" ∷ [];
                issuer_ref = issuer (get_cache_server_ca_name server.name root_ca);
              })
              (certificate_template server.spec.certificate_templates client_certificate);
      }

  unfoldable pub server_certificate_reconciler : CacheServer → NamedCertificateReconciler
  unfolding certificate_template get_cache_server_certificate_name
      get_cache_server_client_certificate_name get_cache_server_ca_name
      get_cache_server_resource_labels get_cache_server_base_host
  server_certificate_reconciler server =
      let cert_name = get_cache_server_certificate_name server server_certificate in
      record {
        name = cert_name;
        reconcile =
            with_spec L (get_cache_server_resource_labels server)
              (record empty_spec {
                secret_name = cert_name;
                secret_template = labelled (("operator.kcp.io/cache-server", server.name) ∷ []);
                duration = default_certificate_duration;
                renew_before = default_certificate_renewal;
                private_key = rsa_key;
                usages = "server auth" ∷ "key encipherment" ∷ "digital signature" ∷ [];
                dns_names = "localhost" ∷ get_cache_server_base_host server ∷ [];
                issuer_ref = issuer (get_cache_server_ca_name server.name root_ca);
              })
              (certificate_template server.spec.certificate_templates server_certificate);
      }

  unfoldable pub issued_root_ca : CacheServer → ObjectReference → NamedCertificateReconciler
  unfolding certificate_template get_cache_server_certificate_name
      get_cache_server_client_certificate_name get_cache_server_ca_name
      get_cache_server_resource_labels get_cache_server_base_host ca_template
  issued_root_ca server ref =
      let ca_name = get_cache_server_ca_name server.name root_ca in
      record {
        name = ca_name;
        reconcile =
            with_spec L (get_cache_server_resource_labels server)
              (record empty_spec {
                is_ca = true;
                common_name = ca_name;
                secret_name = ca_name;
                secret_template = labelled (("operator.kcp.io/cache-server", server.name) ∷ []);
                duration = default_ca_duration;
                renew_before = default_ca_renewal;
                private_key = rsa_key;
                issuer_ref = ref;
              })
              (ca_template server.spec.certificate_templates root_ca);
      }

  unfoldable pub root_ca_certificate_reconciler : CacheServer → Outcome NamedCertificateReconciler
  unfolding issued_root_ca
  root_ca_certificate_reconciler server = elim server.spec.certificates.issuer_ref [
    | none ↦ panic no_issuer_ref
    | some ref ↦ done (issued_root_ca server ref)
  ]
