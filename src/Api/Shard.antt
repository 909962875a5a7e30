-- ===== src/Api/Shard.antt =====
-- The specs of shards, root shards and what both configure (common.go, shard_types.go,
-- rootshard_types.go and frontproxy_types.go of sdk/apis/operator/v1alpha1).
use kcp_operator.Prelude.{ℕ, String, Bool, Option, List}
use kcp_operator.Prelude.Decimal.{ℤ}
use kcp_operator.Prelude.Maps.{Map}
use kcp_operator.Api.Certificates.{CertificateTemplate, CertificateAuthorities}
use kcp_operator.Api.Pod.{Volume, VolumeMount, ResourceRequirements, DeploymentTemplate}

pub record ImageSpec : Type 0 where
  pub repository : String
  pub tag : String
  pub image_pull_secrets : List String

pub record EtcdTlsConfig : Type 0 where
  pub secret_ref : String

pub record EtcdConfig : Type 0 where
  pub endpoints : List String
  pub tls_config : Option EtcdTlsConfig
  pub prefix : String

pub record LocalDataKeyReference : Type 0 where
  pub name : String
  pub key : String

pub record LoggingSpec : Type 0 where
  pub level : ℤ

pub record OidcCaFileRef : Type 0 where
  pub name : String
  pub key : String

pub record OidcConfiguration : Type 0 where
  pub issuer_url : String
  pub client_id : String
  pub client_secret : String
  pub groups_claim : String
  pub username_claim : String
  pub groups_prefix : String
  pub username_prefix : String
  pub ca_file_ref : Option OidcCaFileRef

pub record AuditPolicySpec : Type 0 where
  pub config_map : Option LocalDataKeyReference

pub record AuditWebhookSpec : Type 0 where
  pub batch_buffer_size : ℤ
  pub batch_max_size : ℤ
  pub batch_max_wait : Option String
  pub batch_throttle_burst : ℤ
  pub batch_throttle_enable : Bool
  pub batch_throttle_qps : String
  pub config_secret_name : String
  pub initial_backoff : Option String
  pub mode : String
  pub truncate_enabled : Bool
  pub truncate_max_batch_size : ℤ
  pub truncate_max_event_size : ℤ
  pub version : String

pub record AuditSpec : Type 0 where
  pub webhook : Option AuditWebhookSpec
  pub policy : Option AuditPolicySpec

pub record AuthorizationWebhookSpec : Type 0 where
  pub allow_paths : Option (List String)
  pub cache_authorized_ttl : Option String
  pub cache_unauthorized_ttl : Option String
  pub config_secret_name : String
  pub version : String

pub record AuthorizationSpec : Type 0 where
  pub allow_paths : Option (List String)
  pub order : Option (List String)
  pub webhook : Option AuthorizationWebhookSpec

pub record TokenAuthFileSpec : Type 0 where
  pub secret_name : String
  pub key : String

pub record AuthenticationWebhookSpec : Type 0 where
  pub cache_authentication_ttl : Option String
  pub config_secret_name : String
  pub version : String

pub record ServiceAccountAuthentication : Type 0 where
  pub enabled : Bool

pub record AuthSpec : Type 0 where
  pub oidc : Option OidcConfiguration
  pub webhook : Option AuthenticationWebhookSpec
  pub token_auth_file : Option TokenAuthFileSpec
  pub service_account : Option ServiceAccountAuthentication

pub record CommonShardSpec : Type 0 where
  pub cluster_domain : String
  pub shard_base_url : String
  pub etcd : EtcdConfig
  pub image : Option ImageSpec
  pub replicas : Option ℕ
  pub resources : Option ResourceRequirements
  pub audit : Option AuditSpec
  pub authorization : Option AuthorizationSpec
  pub auth : Option AuthSpec
  pub kcp_virtual_workspace : Option String
  pub deployment_template : Option DeploymentTemplate
  pub ca_bundle_secret_ref : Option String
  pub client_ca_bundle_ref : Option String
  pub extra_args : List String
  pub extra_volumes : List Volume
  pub extra_volume_mounts : List VolumeMount
  pub logging : Option LoggingSpec
  pub certificate_templates : Map CertificateTemplate

pub record ShardCacheConfig : Type 0 where
  pub reference : Option String

pub record ShardSpec : Type 0 where
  pub common : CommonShardSpec
  pub open common use *
  pub root_shard : Option String
  pub cache : Option ShardCacheConfig

pub record ExternalConfig : Type 0 where
  pub hostname : String
  pub port : ℕ
  pub private_hostname : String
  pub private_port : Option ℕ

pub record RootShardCacheConfig : Type 0 where
  pub reference : Option String

pub record RootShardProxySpec : Type 0 where
  pub certificate_templates : Map CertificateTemplate

pub record RootShardSpec : Type 0 where
  pub common : CommonShardSpec
  pub open common use *
  pub external : ExternalConfig
  pub cache : RootShardCacheConfig
  pub proxy : Option RootShardProxySpec
  pub certificates : CertificateAuthorities
