-- ===== src/Certificates/VirtualWorkspaces.antt =====
-- internal/resources/virtualworkspace/certificate.go
use kcp_operator.Prelude.{String, ◌<>◌, [], ◌∷◌}
use kcp_operator.Api.Certificates.{empty_spec, certificate_template}
use kcp_operator.Api.Objects.{VirtualWorkspace, RootShard}
use kcp_operator.Names.Defaults.{server_certificate, client_certificate, server_ca, client_ca}
use kcp_operator.Names.Labels.{get_virtual_workspace_resource_labels}
use kcp_operator.Names.Certificates.{get_virtual_workspace_certificate_name, get_root_shard_ca_name}
use kcp_operator.Names.Hosts.{get_virtual_workspace_base_host}
use kcp_operator.Certificates.{
  CertificateLibrary, NamedCertificateReconciler, with_spec, default_certificate_duration,
  default_certificate_renewal, rsa_key, labelled, issuer, in_organization,
}

module _ (L : CertificateLibrary) where
  unfoldable pub common_name : VirtualWorkspace → String
  common_name vw = vw.name <> "-virtual-workspace"

  -- The labels are those of the object itself.
  unfoldable pub client_certificate_reconciler :
      VirtualWorkspace → RootShard → NamedCertificateReconciler
  unfolding certificate_template get_virtual_workspace_certificate_name get_root_shard_ca_name
      get_virtual_workspace_resource_labels get_virtual_workspace_base_host common_name
  client_certificate_reconciler vw root_shard =
      let cert_name = get_virtual_workspace_certificate_name vw client_certificate in
      record {
        name = cert_name;
        reconcile =
            with_spec L (vw.labels)
              (record empty_spec {
                secret_name = cert_name;
                secret_template = labelled (
                    ("operator.kcp.io/rootshard", root_shard.name)
                    ∷ ("operator.kcp.io/virtual-workspace", vw.name)
                    ∷ []);
                duration = default_certificate_duration;
                renew_before = default_certificate_renewal;
                private_key = rsa_key;
                usages = "client auth" ∷ [];
                common_name = common_name vw;
                subject = in_organization "system:masters";
                issuer_ref = issuer (get_root_shard_ca_name root_shard client_ca);
              })
              (certificate_template vw.spec.certificate_templates client_certificate);
      }

  unfoldable pub server_certificate_reconciler :
      VirtualWorkspace → RootShard → NamedCertificateReconciler
  unfolding certificate_template get_virtual_workspace_certificate_name get_root_shard_ca_name
      get_virtual_workspace_resource_labels get_virtual_workspace_base_host common_name
  server_certificate_reconciler vw root_shard =
      let cert_name = get_virtual_workspace_certificate_name vw server_certificate in
      record {
        name = cert_name;
        reconcile =
            with_spec L (get_virtual_workspace_resource_labels vw)
              (record empty_spec {
                secret_name = cert_name;
                secret_template = labelled (
                    ("operator.kcp.io/rootshard", root_shard.name)
                    ∷ ("operator.kcp.io/virtual-workspace", vw.name)
                    ∷ []);
                duration = default_certificate_duration;
                renew_before = default_certificate_renewal;
                private_key = rsa_key;
                usages = "server auth" ∷ "key encipherment" ∷ "digital signature" ∷ [];
                dns_names = "localhost" ∷ get_virtual_workspace_base_host vw ∷ [];
                issuer_ref = issuer (get_root_shard_ca_name root_shard server_ca);
              })
              (certificate_template vw.spec.certificate_templates server_certificate);
      }
