-- ===== src/Certificates/Proxies.antt =====
-- internal/resources/frontproxy/certificates.go, which front-proxies and the built-in proxy of a root
-- shard share.
use kcp_operator.Prelude.{
  String, ◌<>◌, Option, none, some, List, [], ◌∷◌, ◌++◌, ◌==◌, if◌then◌else◌,
}
use kcp_operator.Api.Certificates.{empty_spec, certificate_template, CertificateTemplate}
use kcp_operator.Api.Objects.{RootShard, FrontProxy}
use kcp_operator.Names.Defaults.{
  server_certificate, server_ca, client_ca, requestheader_client_ca, front_proxy_common_name,
  root_shard_proxy_common_name,
}
use kcp_operator.Prelude.Maps.{Map, insert}
use kcp_operator.Api.Shard.{RootShardProxySpec}
use kcp_operator.Names.Labels.{
  get_front_proxy_resource_labels, get_root_shard_proxy_resource_labels,
}
use kcp_operator.Names.Workloads.{get_front_proxy_service_name, get_root_shard_proxy_service_name}
use kcp_operator.Names.Certificates.{
  get_front_proxy_certificate_name, get_root_shard_proxy_certificate_name, get_root_shard_ca_name,
}
use kcp_operator.Certificates.{
  CertificateLibrary, NamedCertificateReconciler, with_spec, default_certificate_duration,
  default_certificate_renewal, rsa_key, labelled, issuer, in_organization,
  requestheader_certificate, kubeconfig_certificate,
}

-- `reconciler`: without a front-proxy, the built-in proxy of the root shard.
pub record Proxy : Type 0 where
  pub root_shard : RootShard
  pub front_proxy : Option FrontProxy

-- The labels that NewFrontProxy and NewRootShardProxy store.
unfoldable pub resource_labels : Proxy → Map String
unfolding get_front_proxy_resource_labels get_root_shard_proxy_resource_labels
resource_labels r = elim r.front_proxy [
  | none ↦ get_root_shard_proxy_resource_labels r.root_shard
  | some f ↦ get_front_proxy_resource_labels f
]

unfoldable pub service_name : Proxy → String
unfolding get_front_proxy_service_name get_root_shard_proxy_service_name
service_name r = elim r.front_proxy [
  | none ↦ get_root_shard_proxy_service_name r.root_shard
  | some f ↦ get_front_proxy_service_name f
]

unfoldable pub cert_secret_labels : Proxy → Map String
unfolding insert
cert_secret_labels r =
    let labels = ("operator.kcp.io/rootshard", r.root_shard.name) ∷ [] in
    elim r.front_proxy [
      | none ↦ labels
      | some f ↦ insert "operator.kcp.io/front-proxy" f.name labels
    ]

unfoldable pub cert_name_of : Proxy → String → String
unfolding get_front_proxy_certificate_name get_root_shard_proxy_certificate_name
cert_name_of r cert = elim r.front_proxy [
  | none ↦ get_root_shard_proxy_certificate_name r.root_shard cert
  | some f ↦ get_front_proxy_certificate_name r.root_shard f cert
]

unfoldable pub cert_common_name : Proxy → String
cert_common_name r = elim r.front_proxy [
  | none ↦ root_shard_proxy_common_name
  | some f ↦ front_proxy_common_name
]

abbrev proxy_templates : Option RootShardProxySpec → Map CertificateTemplate
proxy_templates none = []
proxy_templates (some proxy) = proxy.certificate_templates

unfoldable pub cert_template_map : Proxy → Map CertificateTemplate
cert_template_map r = elim r.front_proxy [
  | none ↦ proxy_templates r.root_shard.spec.proxy
  | some f ↦ f.spec.certificate_templates
]

abbrev given : String → List String
given name = if name == "" then [] else name ∷ []

-- The deprecated external hostname of a front-proxy wins over the new one.
external_dns_names : Proxy → FrontProxy → List String
external_dns_names r f =
    r.root_shard.spec.external.hostname
    ∷ (given r.root_shard.spec.external.private_hostname
        ++ (if f.spec.external_hostname == ""
            then given f.spec.external.hostname
            else f.spec.external_hostname ∷ []))

unfoldable pub server_dns_names : Proxy → List String
unfolding service_name external_dns_names
server_dns_names r =
    (service_name r
      ∷ (service_name r <> "." <> r.root_shard.namespace)
      ∷ (service_name r <> "." <> r.root_shard.namespace <> ".svc.cluster.local")
      ∷ [])
    ++ elim r.front_proxy [ none ↦ [] | some f ↦ external_dns_names r f ]

module _ (L : CertificateLibrary) where
  unfoldable pub server_certificate_reconciler : Proxy → NamedCertificateReconciler
  unfolding certificate_template cert_name_of cert_template_map cert_secret_labels cert_common_name
      resource_labels server_dns_names get_root_shard_ca_name
  server_certificate_reconciler r =
      let cert_name = cert_name_of r server_certificate in
      record {
        name = cert_name;
        reconcile =
            with_spec L (resource_labels r)
              (record empty_spec {
                secret_name = cert_name;
                secret_template = labelled (cert_secret_labels r);
                duration = default_certificate_duration;
                renew_before = default_certificate_renewal;
                private_key = rsa_key;
                usages = "server auth" ∷ "key encipherment" ∷ "digital signature" ∷ [];
                dns_names = server_dns_names r;
                issuer_ref = issuer (get_root_shard_ca_name r.root_shard server_ca);
              })
              (certificate_template (cert_template_map r) server_certificate);
      }

  unfoldable pub kubeconfig_certificate_reconciler : Proxy → NamedCertificateReconciler
  unfolding certificate_template cert_name_of cert_template_map cert_secret_labels cert_common_name
      resource_labels server_dns_names get_root_shard_ca_name
  kubeconfig_certificate_reconciler r =
      let cert_name = cert_name_of r kubeconfig_certificate in
      record {
        name = cert_name;
        reconcile =
            with_spec L (resource_labels r)
              (record empty_spec {
                secret_name = cert_name;
                secret_template = labelled (cert_secret_labels r);
                duration = default_certificate_duration;
                renew_before = default_certificate_renewal;
                private_key = rsa_key;
                common_name = cert_common_name r;
                subject = in_organization "system:masters";
                usages = "client auth" ∷ [];
                issuer_ref = issuer (get_root_shard_ca_name r.root_shard client_ca);
              })
              (certificate_template (cert_template_map r) kubeconfig_certificate);
      }

  unfoldable pub requestheader_certificate_reconciler : Proxy → NamedCertificateReconciler
  unfolding certificate_template cert_name_of cert_template_map cert_secret_labels cert_common_name
      resource_labels server_dns_names get_root_shard_ca_name
  requestheader_certificate_reconciler r =
      let cert_name = cert_name_of r requestheader_certificate in
      record {
        name = cert_name;
        reconcile =
            with_spec L (resource_labels r)
              (record empty_spec {
                secret_name = cert_name;
                secret_template = labelled (cert_secret_labels r);
                duration = default_certificate_duration;
                renew_before = default_certificate_renewal;
                private_key = rsa_key;
                common_name = cert_common_name r;
                usages = "client auth" ∷ [];
                issuer_ref = issuer (get_root_shard_ca_name r.root_shard requestheader_client_ca);
              })
              (certificate_template (cert_template_map r) requestheader_certificate);
      }
