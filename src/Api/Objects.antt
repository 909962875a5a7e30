-- ===== src/Api/Objects.antt =====
-- The objects of the two API groups: what a user writes (sdk/apis/operator/v1alpha1), and the
-- compiled objects that carry everything a workload is rendered from (sdk/apis/deploy/v1alpha1).
use kcp_operator.Prelude.{String, Option, List}
use kcp_operator.Prelude.Maps.{Map}
use kcp_operator.Api.Certificates.{CertificateTemplate, CertificateAuthorities}
use kcp_operator.Api.Shard.{AuthSpec, ShardSpec, RootShardSpec, ExternalConfig}

pub record RootShard : Type 0 where
  pub name : String
  pub namespace : String
  pub labels : Map String
  pub annotations : Map String
  pub spec : RootShardSpec

pub record Shard : Type 0 where
  pub name : String
  pub namespace : String
  pub labels : Map String
  pub annotations : Map String
  pub spec : ShardSpec

pub record CacheServerSpec : Type 0 where
  pub cluster_domain : String
  pub certificates : CertificateAuthorities
  pub certificate_templates : Map CertificateTemplate

pub record CacheServer : Type 0 where
  pub name : String
  pub namespace : String
  pub labels : Map String
  pub annotations : Map String
  pub spec : CacheServerSpec

pub record VirtualWorkspaceTarget : Type 0 where
  pub root_shard_ref : Option String
  pub shard_ref : Option String

pub record VirtualWorkspaceSpec : Type 0 where
  pub target : VirtualWorkspaceTarget
  pub client_ca_bundle_ref : Option String
  pub cluster_domain : String
  pub external : ExternalConfig
  pub certificate_templates : Map CertificateTemplate

pub record VirtualWorkspace : Type 0 where
  pub name : String
  pub namespace : String
  pub labels : Map String
  pub annotations : Map String
  pub spec : VirtualWorkspaceSpec

pub record FrontProxySpec : Type 0 where
  pub root_shard : Option String
  pub external_hostname : String
  pub external : ExternalConfig
  pub auth : Option AuthSpec
  pub ca_bundle_secret_ref : Option String
  pub client_ca_bundle_ref : Option String
  pub certificate_templates : Map CertificateTemplate

pub record FrontProxy : Type 0 where
  pub name : String
  pub namespace : String
  pub labels : Map String
  pub annotations : Map String
  pub spec : FrontProxySpec

-- Objects that a compiled object embeds.
pub record NamedRootShardSpec : Type 0 where
  pub name : String
  pub spec : RootShardSpec

pub record NamedShardSpec : Type 0 where
  pub name : String
  pub spec : ShardSpec

pub record NamedVirtualWorkspaceSpec : Type 0 where
  pub name : String
  pub spec : VirtualWorkspaceSpec

pub record CompiledRootShardSpec : Type 0 where
  pub root_shard : RootShardSpec
  pub virtual_workspace : Option NamedVirtualWorkspaceSpec
  pub shards : List String

pub record CompiledRootShard : Type 0 where
  pub name : String
  pub namespace : String
  pub labels : Map String
  pub annotations : Map String
  pub spec : CompiledRootShardSpec

pub record CompiledShardSpec : Type 0 where
  pub shard : ShardSpec
  pub root_shard : NamedRootShardSpec
  pub virtual_workspace : Option NamedVirtualWorkspaceSpec
  pub shards : List String

pub record CompiledShard : Type 0 where
  pub name : String
  pub namespace : String
  pub labels : Map String
  pub annotations : Map String
  pub spec : CompiledShardSpec

pub record CompiledCacheServerSpec : Type 0 where
  pub cache_server : CacheServerSpec

pub record CompiledCacheServer : Type 0 where
  pub name : String
  pub namespace : String
  pub labels : Map String
  pub annotations : Map String
  pub spec : CompiledCacheServerSpec

pub record CompiledVirtualWorkspaceSpec : Type 0 where
  pub virtual_workspace : VirtualWorkspaceSpec
  pub root_shard : NamedRootShardSpec
  pub shard : Option NamedShardSpec

pub record CompiledVirtualWorkspace : Type 0 where
  pub name : String
  pub namespace : String
  pub labels : Map String
  pub annotations : Map String
  pub spec : CompiledVirtualWorkspaceSpec

pub record CompiledFrontProxySpec : Type 0 where
  pub front_proxy : FrontProxySpec
  pub root_shard : NamedRootShardSpec
  pub shards : List String

pub record CompiledFrontProxy : Type 0 where
  pub name : String
  pub namespace : String
  pub labels : Map String
  pub annotations : Map String
  pub spec : CompiledFrontProxySpec
