-- ===== src/Certificates/Authorities.antt =====
-- The certificate authorities of a root shard and their issuers
-- (internal/resources/rootshard/ca_certificates.go and issuers.go).
use kcp_operator.Prelude.{String, true, Option, none, some, [], ◌∷◌}
use kcp_operator.Prelude.Maps.{Map}
use kcp_operator.Api.Certificates.{ObjectReference, empty_spec, ca_template}
use kcp_operator.Api.Objects.{RootShard}
use kcp_operator.Names.Defaults.{root_ca}
use kcp_operator.Names.Labels.{get_root_shard_resource_labels}
use kcp_operator.Names.Certificates.{get_root_shard_ca_name}
use kcp_operator.Render.Pods.{Outcome, done, panic}
use kcp_operator.Certificates.{
  CertificateLibrary, NamedCertificateReconciler, with_spec, default_ca_duration,
  default_ca_renewal, rsa_key, labelled, issuer,
}

abbrev pub no_issuer_ref : String
no_issuer_ref = "RootCACertificateReconciler must not be called if no issuerRef is specified."

-- An issuer that signs with the certificate authority in a Secret.
pub record Issuer : Type 0 where
  pub name : String
  pub labels : Map String
  pub secret_name : String

abbrev pub or_secret : Option String → String → String
or_secret none default = default
or_secret (some name) default = name

unfoldable pub root_ca_issuer_reconciler : RootShard → Issuer
unfolding get_root_shard_ca_name get_root_shard_resource_labels
root_ca_issuer_reconciler root_shard =
    let ca_name = get_root_shard_ca_name root_shard root_ca in
    record {
      name = ca_name;
      labels = get_root_shard_resource_labels root_shard;
      secret_name = or_secret root_shard.spec.certificates.ca_secret_ref ca_name;
    }

unfoldable pub ca_issuer_reconciler : RootShard → String → Issuer
unfolding get_root_shard_ca_name get_root_shard_resource_labels
ca_issuer_reconciler root_shard ca =
    let ca_name = get_root_shard_ca_name root_shard ca in
    record {
      name = ca_name;
      labels = get_root_shard_resource_labels root_shard;
      secret_name = ca_name;
    }

module _ (L : CertificateLibrary) where
  unfoldable pub issued_root_ca : RootShard → ObjectReference → NamedCertificateReconciler
  unfolding ca_template get_root_shard_ca_name get_root_shard_resource_labels
  issued_root_ca root_shard ref =
      let ca_name = get_root_shard_ca_name root_shard root_ca in
      record {
        name = ca_name;
        reconcile =
            with_spec L (get_root_shard_resource_labels root_shard)
              (record empty_spec {
                is_ca = true;
                common_name = ca_name;
                secret_name = ca_name;
                secret_template = labelled (("operator.kcp.io/rootshard", root_shard.name) ∷ []);
                duration = default_ca_duration;
                renew_before = default_ca_renewal;
                private_key = rsa_key;
                issuer_ref = ref;
              })
              (ca_template root_shard.spec.certificate_templates root_ca);
      }

  unfoldable pub root_ca_certificate_reconciler : RootShard → Outcome NamedCertificateReconciler
  unfolding issued_root_ca
  root_ca_certificate_reconciler root_shard = elim root_shard.spec.certificates.issuer_ref [
    | none ↦ panic no_issuer_ref
    | some ref ↦ done (issued_root_ca root_shard ref)
  ]

  unfoldable pub ca_certificate_reconciler : RootShard → String → NamedCertificateReconciler
  unfolding ca_template get_root_shard_ca_name get_root_shard_resource_labels
  ca_certificate_reconciler root_shard ca =
      let ca_name = get_root_shard_ca_name root_shard ca in
      record {
        name = ca_name;
        reconcile =
            with_spec L (get_root_shard_resource_labels root_shard)
              (record empty_spec {
                is_ca = true;
                common_name = ca_name;
                secret_name = ca_name;
                secret_template = labelled (("operator.kcp.io/rootshard", root_shard.name) ∷ []);
                duration = default_ca_duration;
                renew_before = default_ca_renewal;
                private_key = rsa_key;
                issuer_ref = issuer (get_root_shard_ca_name root_shard root_ca);
              })
              (ca_template root_shard.spec.certificate_templates ca);
      }
