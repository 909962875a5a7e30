-- ===== src/Certificates/Shards.antt =====
-- internal/resources/shard/certificates.go
use kcp_operator.Prelude.{String, ◌<>◌, List, [], ◌∷◌}
use kcp_operator.Api.Certificates.{empty_spec, certificate_template}
use kcp_operator.Api.Objects.{Shard, RootShard}
use kcp_operator.Names.Defaults.{
  server_certificate, client_certificate, service_account_certificate,
  mounts_proxy_client_certificate, logical_cluster_admin_certificate,
  external_logical_cluster_admin_certificate, server_ca, service_account_ca, client_ca,
  requestheader_client_ca,
}
use kcp_operator.Names.Labels.{get_shard_resource_labels}
use kcp_operator.Names.Certificates.{get_shard_certificate_name, get_root_shard_ca_name}
use kcp_operator.Names.Hosts.{get_shard_base_host}
use kcp_operator.Certificates.Urls.{host_of_url}
use kcp_operator.Certificates.{
  CertificateLibrary, NamedCertificateReconciler, with_spec, default_certificate_duration,
  default_certificate_renewal, rsa_key, labelled, issuer, in_organization,
  virtual_workspaces_certificate,
}

module _ (L : CertificateLibrary) where
  unfoldable pub build_shard_dns_names : Shard → List String
  unfolding get_shard_base_host host_of_url
  build_shard_dns_names shard =
      L.sorted_set
        ("localhost" ∷ get_shard_base_host shard ∷ host_of_url L shard.spec.shard_base_url)

  unfoldable pub server_certificate_reconciler : Shard → RootShard → NamedCertificateReconciler
  unfolding certificate_template get_shard_certificate_name get_root_shard_ca_name
      get_shard_resource_labels get_shard_base_host
  server_certificate_reconciler shard root_shard =
      let cert_name = get_shard_certificate_name shard server_certificate in
      record {
        name = cert_name;
        reconcile =
            with_spec L (get_shard_resource_labels shard)
              (record empty_spec {
                secret_name = cert_name;
                secret_template = labelled (
                    ("operator.kcp.io/rootshard", root_shard.name)
                    ∷ ("operator.kcp.io/shard", shard.name)
                    ∷ []);
                duration = default_certificate_duration;
                renew_before = default_certificate_renewal;
                private_key = rsa_key;
                usages = "server auth" ∷ "key encipherment" ∷ "digital signature" ∷ [];
                dns_names = build_shard_dns_names shard;
                issuer_ref = issuer (get_root_shard_ca_name root_shard server_ca);
              })
              (certificate_template shard.spec.certificate_templates server_certificate);
      }

  unfoldable pub virtual_workspaces_certificate_reconciler :
      Shard → RootShard → NamedCertificateReconciler
  unfolding certificate_template get_shard_certificate_name get_root_shard_ca_name
      get_shard_resource_labels get_shard_base_host
  virtual_workspaces_certificate_reconciler shard root_shard =
      let cert_name = get_shard_certificate_name shard virtual_workspaces_certificate in
      record {
        name = cert_name;
        reconcile =
            with_spec L (get_shard_resource_labels shard)
              (record empty_spec {
                secret_name = cert_name;
                secret_template = labelled (
                    ("operator.kcp.io/rootshard", root_shard.name)
                    ∷ ("operator.kcp.io/shard", shard.name)
                    ∷ []);
                duration = default_certificate_duration;
                renew_before = default_certificate_renewal;
                private_key = rsa_key;
                usages = "server auth" ∷ [];
                dns_names = get_shard_base_host shard ∷ [];
                issuer_ref = issuer (get_root_shard_ca_name root_shard server_ca);
              })
              (certificate_template shard.spec.certificate_templates
                virtual_workspaces_certificate);
      }

  unfoldable pub service_account_certificate_reconciler :
      Shard → RootShard → NamedCertificateReconciler
  unfolding certificate_template get_shard_certificate_name get_root_shard_ca_name
      get_shard_resource_labels get_shard_base_host
  service_account_certificate_reconciler shard root_shard =
      let cert_name = get_shard_certificate_name shard service_account_certificate in
      record {
        name = cert_name;
        reconcile =
            with_spec L (get_shard_resource_labels shard)
              (record empty_spec {
                secret_name = cert_name;
                secret_template = labelled (
                    ("operator.kcp.io/rootshard", root_shard.name)
                    ∷ ("operator.kcp.io/shard", shard.name)
                    ∷ []);
                duration = default_certificate_duration;
                renew_before = default_certificate_renewal;
                private_key = rsa_key;
                common_name = cert_name;
                usages = "digital signature" ∷ "key encipherment" ∷ [];
                issuer_ref = issuer (get_root_shard_ca_name root_shard service_account_ca);
              })
              (certificate_template shard.spec.certificate_templates service_account_certificate);
      }

  unfoldable pub root_shard_client_certificate_reconciler :
      Shard → RootShard → NamedCertificateReconciler
  unfolding certificate_template get_shard_certificate_name get_root_shard_ca_name
      get_shard_resource_labels get_shard_base_host
  root_shard_client_certificate_reconciler shard root_shard =
      let cert_name = get_shard_certificate_name shard client_certificate in
      record {
        name = cert_name;
        reconcile =
            with_spec L (get_shard_resource_labels shard)
              (record empty_spec {
                secret_name = cert_name;
                secret_template = labelled (
                    ("operator.kcp.io/rootshard", root_shard.name)
                    ∷ ("operator.kcp.io/shard", shard.name)
                    ∷ []);
                duration = default_certificate_duration;
                renew_before = default_certificate_renewal;
                private_key = rsa_key;
                common_name = "shard-" <> shard.name;
                subject = in_organization "system:masters";
                usages = "client auth" ∷ [];
                issuer_ref = issuer (get_root_shard_ca_name root_shard client_ca);
              })
              (certificate_template shard.spec.certificate_templates client_certificate);
      }

  unfoldable pub mounts_proxy_client_certificate_reconciler :
      Shard → RootShard → NamedCertificateReconciler
  unfolding certificate_template get_shard_certificate_name get_root_shard_ca_name
      get_shard_resource_labels get_shard_base_host
  mounts_proxy_client_certificate_reconciler shard root_shard =
      let cert_name = get_shard_certificate_name shard mounts_proxy_client_certificate in
      record {
        name = cert_name;
        reconcile =
            with_spec L (get_shard_resource_labels shard)
              (record empty_spec {
                secret_name = cert_name;
                secret_template = labelled (
                    ("operator.kcp.io/rootshard", root_shard.name)
                    ∷ ("operator.kcp.io/shard", shard.name)
                    ∷ []);
                duration = default_certificate_duration;
                renew_before = default_certificate_renewal;
                private_key = rsa_key;
                common_name = "kcp-mounts-proxy";
                usages = "client auth" ∷ [];
                issuer_ref = issuer (get_root_shard_ca_name root_shard requestheader_client_ca);
              })
              (certificate_template shard.spec.certificate_templates
                mounts_proxy_client_certificate);
      }

  unfoldable pub logical_cluster_admin_certificate_reconciler :
      Shard → RootShard → NamedCertificateReconciler
  unfolding certificate_template get_shard_certificate_name get_root_shard_ca_name
      get_shard_resource_labels get_shard_base_host
  logical_cluster_admin_certificate_reconciler shard root_shard =
      let cert_name = get_shard_certificate_name shard logical_cluster_admin_certificate in
      record {
        name = cert_name;
        reconcile =
            with_spec L (get_shard_resource_labels shard)
              (record empty_spec {
                secret_name = cert_name;
                secret_template = labelled (
                    ("operator.kcp.io/rootshard", root_shard.name)
                    ∷ ("operator.kcp.io/shard", shard.name)
                    ∷ []);
                duration = default_certificate_duration;
                renew_before = default_certificate_renewal;
                private_key = rsa_key;
                common_name = "logical-cluster-admin-shard-" <> shard.name;
                subject = in_organization "system:kcp:logical-cluster-admin";
                usages = "client auth" ∷ [];
                issuer_ref = issuer (get_root_shard_ca_name root_shard client_ca);
              })
              (certificate_template shard.spec.certificate_templates
                logical_cluster_admin_certificate);
      }

  unfoldable pub external_logical_cluster_admin_certificate_reconciler :
      Shard → RootShard → NamedCertificateReconciler
  unfolding certificate_template get_shard_certificate_name get_root_shard_ca_name
      get_shard_resource_labels get_shard_base_host
  external_logical_cluster_admin_certificate_reconciler shard root_shard =
      let cert_name = get_shard_certificate_name shard external_logical_cluster_admin_certificate in
      record {
        name = cert_name;
        reconcile =
            with_spec L (get_shard_resource_labels shard)
              (record empty_spec {
                secret_name = cert_name;
                secret_template = labelled (
                    ("operator.kcp.io/rootshard", root_shard.name)
                    ∷ ("operator.kcp.io/shard", shard.name)
                    ∷ []);
                duration = default_certificate_duration;
                renew_before = default_certificate_renewal;
                private_key = rsa_key;
                common_name = "external-logical-cluster-admin-shard-" <> shard.name;
                subject = in_organization "system:kcp:external-logical-cluster-admin";
                usages = "client auth" ∷ [];
                issuer_ref = issuer (get_root_shard_ca_name root_shard client_ca);
              })
              (certificate_template shard.spec.certificate_templates
                external_logical_cluster_admin_certificate);
      }
