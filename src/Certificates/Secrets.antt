-- ===== src/Certificates/Secrets.antt =====
-- The Secrets that cert-manager writes the certificates of the components to: no template changes them.
use kcp_operator.Prelude.{String, ◌<>◌, ◌≡◌, refl, none, some, Option}
use kcp_operator.Api.Certificates.{
  ObjectReference, CertificateSpec, CertificateSpecTemplate, empty_spec,
}
use kcp_operator.Api.Objects.{Shard, RootShard, CacheServer}
use kcp_operator.Names.Certificates.{
  get_shard_certificate_name, get_root_shard_ca_name, get_cache_server_ca_name,
  get_cache_server_client_certificate_name,
}
use kcp_operator.Certificates.{
  CertificateLibrary, NamedCertificateReconciler, apply_certificate_spec_template,
  apply_certificate_template, empty_metadata,
}
use kcp_operator.Certificates.Shards as ShardCertificates
use kcp_operator.Certificates.CacheServers as CacheCertificates
use kcp_operator.Certificates.Authorities.{ca_certificate_reconciler, issued_root_ca}

-- The Secret of a certificate that is made anew.
unfoldable pub secret_of : NamedCertificateReconciler → String
secret_of r =
    (r.reconcile
      (record { name = r.name; metadata = empty_metadata; spec = empty_spec })).spec.secret_name

module _ (L : CertificateLibrary) where
  secret_name-template :
      (spec : CertificateSpec) (tpl : Option CertificateSpecTemplate)
      → (apply_certificate_spec_template L spec tpl).secret_name ≡ spec.secret_name
  unfolding apply_certificate_spec_template
  secret_name-template spec none = refl
  secret_name-template spec (some tpl) = refl

  module _ (s : Shard) (r : RootShard) where
    pub shard_server :
        secret_of (ShardCertificates.server_certificate_reconciler L s r) ≡ s.name <> "-server"
    unfolding secret_of apply_certificate_template ShardCertificates.server_certificate_reconciler
        get_shard_certificate_name
    shard_server = rw secret_name-template refl

    pub shard_service_account :
        secret_of (ShardCertificates.service_account_certificate_reconciler L s r)
        ≡ s.name <> "-service-account"
    unfolding secret_of apply_certificate_template
        ShardCertificates.service_account_certificate_reconciler get_shard_certificate_name
    shard_service_account = rw secret_name-template refl

    pub shard_virtual_workspaces :
        secret_of (ShardCertificates.virtual_workspaces_certificate_reconciler L s r)
        ≡ s.name <> "-virtual-workspaces"
    unfolding secret_of apply_certificate_template
        ShardCertificates.virtual_workspaces_certificate_reconciler get_shard_certificate_name
    shard_virtual_workspaces = rw secret_name-template refl

    pub shard_client :
        secret_of (ShardCertificates.root_shard_client_certificate_reconciler L s r)
        ≡ s.name <> "-client"
    unfolding secret_of apply_certificate_template
        ShardCertificates.root_shard_client_certificate_reconciler get_shard_certificate_name
    shard_client = rw secret_name-template refl

    pub shard_mounts_proxy :
        secret_of (ShardCertificates.mounts_proxy_client_certificate_reconciler L s r)
        ≡ s.name <> "-mounts-proxy"
    unfolding secret_of apply_certificate_template
        ShardCertificates.mounts_proxy_client_certificate_reconciler get_shard_certificate_name
    shard_mounts_proxy = rw secret_name-template refl

    pub shard_admin :
        secret_of (ShardCertificates.logical_cluster_admin_certificate_reconciler L s r)
        ≡ s.name <> "-logical-cluster-admin"
    unfolding secret_of apply_certificate_template
        ShardCertificates.logical_cluster_admin_certificate_reconciler get_shard_certificate_name
    shard_admin = rw secret_name-template refl

    pub shard_external_admin :
        secret_of (ShardCertificates.external_logical_cluster_admin_certificate_reconciler L s r)
        ≡ s.name <> "-external-logical-cluster-admin"
    unfolding secret_of apply_certificate_template
        ShardCertificates.external_logical_cluster_admin_certificate_reconciler
        get_shard_certificate_name
    shard_external_admin = rw secret_name-template refl

  module _ (r : RootShard) where
    pub root_ca_secret :
        (ref : ObjectReference) → secret_of (issued_root_ca L r ref) ≡ r.name <> "-ca"
    unfolding secret_of apply_certificate_template issued_root_ca get_root_shard_ca_name
    root_ca_secret ref = rw secret_name-template refl

    pub server_ca_secret :
        secret_of (ca_certificate_reconciler L r "server") ≡ r.name <> "-server-ca"
    unfolding secret_of apply_certificate_template ca_certificate_reconciler get_root_shard_ca_name
    server_ca_secret = rw secret_name-template refl

    pub requestheader_ca_secret :
        secret_of (ca_certificate_reconciler L r "requestheader-client")
        ≡ r.name <> "-requestheader-client-ca"
    unfolding secret_of apply_certificate_template ca_certificate_reconciler get_root_shard_ca_name
    requestheader_ca_secret = rw secret_name-template refl

    pub client_ca_secret :
        secret_of (ca_certificate_reconciler L r "client") ≡ r.name <> "-client-ca"
    unfolding secret_of apply_certificate_template ca_certificate_reconciler get_root_shard_ca_name
    client_ca_secret = rw secret_name-template refl

    pub service_account_ca_secret :
        secret_of (ca_certificate_reconciler L r "service-account")
        ≡ r.name <> "-service-account-ca"
    unfolding secret_of apply_certificate_template ca_certificate_reconciler get_root_shard_ca_name
    service_account_ca_secret = rw secret_name-template refl

  module _ (c : CacheServer) where
    pub cache_ca_secret :
        (ref : ObjectReference)
        → secret_of (CacheCertificates.issued_root_ca L c ref) ≡ c.name <> "-ca"
    unfolding secret_of apply_certificate_template CacheCertificates.issued_root_ca
        get_cache_server_ca_name
    cache_ca_secret ref = rw secret_name-template refl

    pub cache_client_secret :
        secret_of (CacheCertificates.client_certificate_reconciler L c)
        ≡ c.name <> "-client-certificate"
    unfolding secret_of apply_certificate_template CacheCertificates.client_certificate_reconciler
        get_cache_server_client_certificate_name
    cache_client_secret = rw secret_name-template refl
