-- ===== src/CompiledShard/Deployment.antt =====
-- DeploymentReconciler of internal/resources/compiledshard/deployment.go.
use kcp_operator.Prelude.{
  String, ◌<>◌, Bool, Option, none, is_some, List, [], ◌∷◌, ◌++◌, map, ◌||◌, ◌==◌, if◌then◌else◌,
}
use kcp_operator.Api.Pod.{Container, ResourceRefs, Deployment}
use kcp_operator.Api.Objects.{CompiledShard}
use kcp_operator.Names.Defaults.{
  root_ca, client_ca, server_ca, service_account_ca, requestheader_client_ca, ca_bundle_ca,
  server_certificate, client_certificate, service_account_certificate,
  mounts_proxy_client_certificate, logical_cluster_admin_certificate,
  external_logical_cluster_admin_certificate, get_image_settings,
}
use kcp_operator.Names.Labels.{get_compiled_shard_resource_labels}
use kcp_operator.Names.Certificates.{
  get_named_root_shard_ca_name, get_compiled_shard_certificate_name, get_cache_server_ca_name,
}
use kcp_operator.Names.Configs.{
  get_compiled_shard_kubeconfig_secret, get_cache_server_kubeconfig_name,
}
use kcp_operator.Render.Pods.{Outcome, done, ◌>>=◌}
use kcp_operator.Render.Mounts.{SecretMount, build_volume, build_mount, secret_mount}
use kcp_operator.Render.Resources.{Heap}
use kcp_operator.Render.Templates.{apply_deployment_template}
use kcp_operator.Render.Authentication.{apply_auth_configuration}
use kcp_operator.Render.ShardPod.{
  apply_common_shard_deployment_properties, apply_common_shard_config,
}
use kcp_operator.CompiledShard.Paths.{
  get_certificate_mount_path, get_ca_mount_path, get_kubeconfig_mount_path,
  get_cache_server_kubeconfig_mount_path, get_cache_server_ca_mount_path,
  get_cache_server_client_cert_mount_path, get_effective_cache_ref, supports_mount_proxy,
}
use kcp_operator.CompiledShard.Args.{get_args}

kubeconfig_mount : CompiledShard → String → SecretMount
kubeconfig_mount shard cert =
    secret_mount (cert <> "-kubeconfig") (get_compiled_shard_kubeconfig_secret shard cert)
      (get_kubeconfig_mount_path cert)

ca_mount : CompiledShard → String → SecretMount
ca_mount shard ca =
    secret_mount (ca <> "-ca") (get_named_root_shard_ca_name shard.spec.root_shard ca)
      (get_ca_mount_path ca)

-- The client CA is the merged Secret if the shard or its root shard has a client CA bundle.
unfoldable pub client_ca_mount : CompiledShard → SecretMount
unfolding ca_mount
client_ca_mount shard =
    if is_some shard.spec.root_shard.spec.client_ca_bundle_ref
      || is_some shard.spec.shard.client_ca_bundle_ref
    then secret_mount (client_ca <> "-ca") (shard.name <> "-merged-client-ca")
        (get_ca_mount_path client_ca)
    else ca_mount shard client_ca

unfoldable pub cert_mount : CompiledShard → String → SecretMount
cert_mount shard cert =
    secret_mount (cert <> "-cert") (get_compiled_shard_certificate_name shard cert)
      (get_certificate_mount_path cert)

abbrev pub mount_proxy_certs : Bool → List String
mount_proxy_certs supported = if supported then mounts_proxy_client_certificate ∷ [] else []

abbrev pub ca_bundle_mounts : CompiledShard → List SecretMount
ca_bundle_mounts shard =
    if is_some shard.spec.shard.ca_bundle_secret_ref
    then secret_mount "ca-bundle" (shard.name <> "-merged-ca-bundle")
        (get_ca_mount_path ca_bundle_ca)
      ∷ []
    else []

abbrev pub cache_mounts : String → List SecretMount
cache_mounts cache_ref =
    if cache_ref == ""
    then []
    else secret_mount "cache-server-kubeconfig" (get_cache_server_kubeconfig_name cache_ref)
        get_cache_server_kubeconfig_mount_path
      ∷ secret_mount "cache-server-ca" (get_cache_server_ca_name cache_ref root_ca)
          (get_cache_server_ca_mount_path root_ca)
      ∷ secret_mount "cache-server-client-cert" (cache_ref <> "-client-certificate")
          get_cache_server_client_cert_mount_path
      ∷ []

unfoldable pub secret_mounts : CompiledShard → Bool → List SecretMount
unfolding kubeconfig_mount ca_mount client_ca_mount cert_mount get_effective_cache_ref
secret_mounts shard mount_proxy =
    (secret_mount "kcp-ca" (get_named_root_shard_ca_name shard.spec.root_shard root_ca)
        (get_ca_mount_path root_ca)
      ∷ kubeconfig_mount shard client_certificate
      ∷ kubeconfig_mount shard logical_cluster_admin_certificate
      ∷ kubeconfig_mount shard external_logical_cluster_admin_certificate
      ∷ ca_mount shard server_ca
      ∷ ca_mount shard service_account_ca
      ∷ ca_mount shard requestheader_client_ca
      ∷ client_ca_mount shard
      ∷ cert_mount shard server_certificate
      ∷ cert_mount shard service_account_certificate
      ∷ cert_mount shard client_certificate
      ∷ cert_mount shard logical_cluster_admin_certificate
      ∷ cert_mount shard external_logical_cluster_admin_certificate
      ∷ [])
    ++ (map (cert_mount shard) (mount_proxy_certs mount_proxy)
        ++ (ca_bundle_mounts shard ++ cache_mounts (get_effective_cache_ref shard)))

unfoldable pub shard_main_container :
    CompiledShard → Bool → List SecretMount → ResourceRefs → Container
unfolding get_args
shard_main_container shard mount_proxy mounts default_resource_requirements = record {
  name = "kcp";
  image = "";
  command = "/kcp" ∷ "start" ∷ [];
  args = get_args shard mount_proxy;
  ports = [];
  volume_mounts = map build_mount mounts;
  resources = default_resource_requirements;
  security_context = none;
  startup_probe = none;
  readiness_probe = none;
  liveness_probe = none;
}

-- The Deployment before the options of the spec are applied. `dep` is the one in the cluster.
unfoldable pub base_deployment : CompiledShard → Bool → ResourceRefs → Deployment → Deployment
unfolding secret_mounts shard_main_container
base_deployment shard mount_proxy default_resource_requirements dep =
    let labels = get_compiled_shard_resource_labels shard in
    let mounts = secret_mounts shard mount_proxy in
    record dep {
      metadata = record dep.metadata { labels = labels };
      spec = record dep.spec {
        selector = labels;
        template = record {
          metadata = record dep.spec.template.metadata { labels = labels };
          spec = record dep.spec.template.spec {
            containers =
                shard_main_container shard mount_proxy mounts default_resource_requirements ∷ [];
            volumes = map build_volume mounts;
          };
        };
      };
    }

-- `new_version` and `check` are the semantic version library's, and `default_resource_requirements`
-- holds the addresses of the package's default maps.
module _ {V : Type 0} (new_version : String → Option V) (check : V → Bool) where
  unfoldable pub deployment_reconciler :
      CompiledShard → ResourceRefs → Deployment → Heap → Outcome (Deployment × Heap)
  deployment_reconciler shard default_resource_requirements dep h =
      let (_, _, tag) = get_image_settings shard.spec.shard.image in
      let mount_proxy = supports_mount_proxy check (new_version tag) in
      do
        dep1 ←
            apply_common_shard_deployment_properties
              (base_deployment shard mount_proxy default_resource_requirements dep)
        (dep2, h2) ← apply_common_shard_config dep1 shard.spec.shard.common h
        let dep3 = apply_deployment_template dep2 shard.spec.shard.deployment_template
        dep4 ←
            apply_auth_configuration dep3 shard.spec.shard.auth shard.spec.root_shard.name
              shard.spec.shards
        done (dep4, h2)
