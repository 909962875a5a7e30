-- ===== src/Certificates/RootShards.antt =====
-- internal/resources/rootshard/certificates.go
use kcp_operator.Prelude.{String, List, [], ◌∷◌}
use kcp_operator.Api.Certificates.{empty_spec, certificate_template}
use kcp_operator.Api.Objects.{RootShard}
use kcp_operator.Names.Defaults.{
  server_certificate, client_certificate, service_account_certificate,
  logical_cluster_admin_certificate, external_logical_cluster_admin_certificate, server_ca,
  service_account_ca, client_ca,
}
use kcp_operator.Names.Labels.{get_root_shard_resource_labels}
use kcp_operator.Names.Certificates.{get_root_shard_certificate_name, get_root_shard_ca_name}
use kcp_operator.Names.Hosts.{get_root_shard_base_host}
use kcp_operator.Certificates.Urls.{host_of_url}
use kcp_operator.Certificates.{
  CertificateLibrary, NamedCertificateReconciler, with_spec, default_certificate_duration,
  default_certificate_renewal, rsa_key, labelled, issuer, in_organization,
  virtual_workspaces_certificate, operator_certificate,
}

module _ (L : CertificateLibrary) where
  unfoldable pub build_root_shard_dns_names : RootShard → List String
  unfolding get_root_shard_base_host host_of_url
  build_root_shard_dns_names root_shard = L.sorted_set (
      get_root_shard_base_host root_shard
      ∷ root_shard.spec.external.hostname
      ∷ host_of_url L root_shard.spec.shard_base_url)

  unfoldable pub server_certificate_reconciler : RootShard → NamedCertificateReconciler
  unfolding certificate_template get_root_shard_certificate_name get_root_shard_ca_name
      get_root_shard_resource_labels
  server_certificate_reconciler root_shard =
      let cert_name = get_root_shard_certificate_name root_shard server_certificate in
      record {
        name = cert_name;
        reconcile =
            with_spec L (get_root_shard_resource_labels root_shard)
              (record empty_spec {
                secret_name = cert_name;
                secret_template = labelled (("operator.kcp.io/rootshard", root_shard.name) ∷ []);
                duration = default_certificate_duration;
                renew_before = default_certificate_renewal;
                private_key = rsa_key;
                usages = "server auth" ∷ "key encipherment" ∷ "digital signature" ∷ [];
                dns_names = build_root_shard_dns_names root_shard;
                issuer_ref = issuer (get_root_shard_ca_name root_shard server_ca);
              })
              (certificate_template root_shard.spec.certificate_templates server_certificate);
      }

  unfoldable pub virtual_workspaces_certificate_reconciler : RootShard → NamedCertificateReconciler
  unfolding certificate_template get_root_shard_certificate_name get_root_shard_ca_name
      get_root_shard_resource_labels
  virtual_workspaces_certificate_reconciler root_shard =
      let cert_name = get_root_shard_certificate_name root_shard virtual_workspaces_certificate in
      record {
        name = cert_name;
        reconcile =
            with_spec L (get_root_shard_resource_labels root_shard)
              (record empty_spec {
                secret_name = cert_name;
                secret_template = labelled (("operator.kcp.io/rootshard", root_shard.name) ∷ []);
                duration = default_certificate_duration;
                renew_before = default_certificate_renewal;
                private_key = rsa_key;
                usages = "server auth" ∷ [];
                dns_names = root_shard.spec.external.hostname ∷ [];
                issuer_ref = issuer (get_root_shard_ca_name root_shard server_ca);
              })
              (certificate_template root_shard.spec.certificate_templates
                virtual_workspaces_certificate);
      }

  unfoldable pub service_account_certificate_reconciler : RootShard → NamedCertificateReconciler
  unfolding certificate_template get_root_shard_certificate_name get_root_shard_ca_name
      get_root_shard_resource_labels
  service_account_certificate_reconciler root_shard =
      let cert_name = get_root_shard_certificate_name root_shard service_account_certificate in
      record {
        name = cert_name;
        reconcile =
            with_spec L (get_root_shard_resource_labels root_shard)
              (record empty_spec {
                secret_name = cert_name;
                secret_template = labelled (("operator.kcp.io/rootshard", root_shard.name) ∷ []);
                duration = default_certificate_duration;
                renew_before = default_certificate_renewal;
                private_key = rsa_key;
                common_name = cert_name;
                usages = "digital signature" ∷ "key encipherment" ∷ [];
                issuer_ref = issuer (get_root_shard_ca_name root_shard service_account_ca);
              })
              (certificate_template root_shard.spec.certificate_templates
                service_account_certificate);
      }

  unfoldable pub logical_cluster_admin_certificate_reconciler :
      RootShard → NamedCertificateReconciler
  unfolding certificate_template get_root_shard_certificate_name get_root_shard_ca_name
      get_root_shard_resource_labels
  logical_cluster_admin_certificate_reconciler root_shard =
      let cert_name =
        get_root_shard_certificate_name root_shard logical_cluster_admin_certificate in
      record {
        name = cert_name;
        reconcile =
            with_spec L (get_root_shard_resource_labels root_shard)
              (record empty_spec {
                secret_name = cert_name;
                secret_template = labelled (("operator.kcp.io/rootshard", root_shard.name) ∷ []);
                duration = default_certificate_duration;
                renew_before = default_certificate_renewal;
                private_key = rsa_key;
                common_name = "logical-cluster-admin";
                subject = in_organization "system:kcp:logical-cluster-admin";
                usages = "client auth" ∷ [];
                issuer_ref = issuer (get_root_shard_ca_name root_shard client_ca);
              })
              (certificate_template root_shard.spec.certificate_templates
                logical_cluster_admin_certificate);
      }

  unfoldable pub external_logical_cluster_admin_certificate_reconciler :
      RootShard → NamedCertificateReconciler
  unfolding certificate_template get_root_shard_certificate_name get_root_shard_ca_name
      get_root_shard_resource_labels
  external_logical_cluster_admin_certificate_reconciler root_shard =
      let cert_name =
        get_root_shard_certificate_name root_shard external_logical_cluster_admin_certificate in
      record {
        name = cert_name;
        reconcile =
            with_spec L (get_root_shard_resource_labels root_shard)
              (record empty_spec {
                secret_name = cert_name;
                secret_template = labelled (("operator.kcp.io/rootshard", root_shard.name) ∷ []);
                duration = default_certificate_duration;
                renew_before = default_certificate_renewal;
                private_key = rsa_key;
                common_name = "external-logical-cluster-admin";
                subject = in_organization "system:kcp:external-logical-cluster-admin";
                usages = "client auth" ∷ [];
                issuer_ref = issuer (get_root_shard_ca_name root_shard client_ca);
              })
              (certificate_template root_shard.spec.certificate_templates
                external_logical_cluster_admin_certificate);
      }

  unfoldable pub operator_client_certificate_reconciler : RootShard → NamedCertificateReconciler
  unfolding certificate_template get_root_shard_certificate_name get_root_shard_ca_name
      get_root_shard_resource_labels
  operator_client_certificate_reconciler root_shard =
      let cert_name = get_root_shard_certificate_name root_shard operator_certificate in
      record {
        name = cert_name;
        reconcile =
            with_spec L (get_root_shard_resource_labels root_shard)
              (record empty_spec {
                secret_name = cert_name;
                secret_template = labelled (("operator.kcp.io/rootshard", root_shard.name) ∷ []);
                duration = default_certificate_duration;
                renew_before = default_certificate_renewal;
                private_key = rsa_key;
                common_name = "system:kcp-operator";
                subject = in_organization "system:kcp:admin";
                usages = "client auth" ∷ [];
                issuer_ref = issuer (get_root_shard_ca_name root_shard client_ca);
              })
              (certificate_template root_shard.spec.certificate_templates operator_certificate);
      }

  unfoldable pub client_certificate_reconciler : RootShard → NamedCertificateReconciler
  unfolding certificate_template get_root_shard_certificate_name get_root_shard_ca_name
      get_root_shard_resource_labels
  client_certificate_reconciler root_shard =
      let cert_name = get_root_shard_certificate_name root_shard client_certificate in
      record {
        name = cert_name;
        reconcile =
            with_spec L (get_root_shard_resource_labels root_shard)
              (record empty_spec {
                secret_name = cert_name;
                secret_template = labelled (("operator.kcp.io/rootshard", root_shard.name) ∷ []);
                duration = default_certificate_duration;
                renew_before = default_certificate_renewal;
                private_key = rsa_key;
                common_name = root_shard.name;
                subject = in_organization "system:masters";
                usages = "client auth" ∷ [];
                issuer_ref = issuer (get_root_shard_ca_name root_shard client_ca);
              })
              (certificate_template root_shard.spec.certificate_templates client_certificate);
      }
