-- ===== src/Compile/Agreement.antt =====
-- Two controllers work on the same component: the config controller creates certificates and Secrets
-- from the user's object, and the workload controller mounts them by names that it computes from the
-- compiled object. This file compares the names.
use kcp_operator.Prelude.{String, ◌<>◌, ◌≡◌, refl, sym, ap, ◌∙◌, Option, List}
use kcp_operator.Prelude.Maps.{Map}
use kcp_operator.Api.Objects.{RootShard, Shard, CacheServer, VirtualWorkspace, FrontProxy}
use kcp_operator.Names.Hosts.{
  get_shard_base_url, get_compiled_shard_base_url, get_named_root_shard_base_url,
  get_root_shard_base_url, get_compiled_root_shard_base_url, get_cache_server_base_url,
  get_compiled_cache_server_base_url, get_virtual_workspace_base_url,
  get_compiled_virtual_workspace_base_url, get_virtual_workspace_base_host,
}
use kcp_operator.Names.Defaults.{cluster_domain_or_default}
use text.Mathlib.TextLemmas.{append_assoc}
use kcp_operator.Names.Labels.{
  get_shard_resource_labels, get_compiled_shard_resource_labels, get_root_shard_resource_labels,
  get_compiled_root_shard_resource_labels, get_front_proxy_resource_labels,
  get_compiled_front_proxy_resource_labels,
}
use kcp_operator.Names.Workloads.{
  get_shard_deployment_name, get_compiled_shard_deployment_name, get_shard_service_name,
  get_compiled_shard_service_name, get_root_shard_deployment_name,
  get_compiled_root_shard_deployment_name, get_root_shard_service_name,
  get_compiled_root_shard_service_name, get_front_proxy_deployment_name,
  get_compiled_front_proxy_deployment_name, get_front_proxy_service_name,
  get_compiled_front_proxy_service_name, get_cache_server_service_name,
  get_compiled_cache_server_service_name, get_compiled_virtual_workspace_service_name,
  get_compiled_cache_server_deployment_name, get_cache_server_deployment_name,
  get_compiled_virtual_workspace_deployment_name, get_virtual_workspace_deployment_name,
}
use kcp_operator.Names.Certificates.{
  get_shard_certificate_name, get_compiled_shard_certificate_name, get_root_shard_ca_name,
  get_named_root_shard_ca_name, get_compiled_root_shard_ca_name, get_root_shard_certificate_name,
  get_compiled_root_shard_certificate_name, get_front_proxy_certificate_name,
  get_compiled_front_proxy_certificate_name, get_virtual_workspace_certificate_name,
  get_compiled_virtual_workspace_certificate_name, get_cache_server_certificate_name,
  get_compiled_cache_server_certificate_name, get_cache_server_client_certificate_name,
  get_compiled_cache_server_client_certificate_name, get_root_shard_proxy_certificate_name,
  get_compiled_root_shard_proxy_certificate_name,
}
use kcp_operator.Names.Configs.{
  get_shard_kubeconfig_secret, get_compiled_shard_kubeconfig_secret,
  get_root_shard_kubeconfig_secret, get_compiled_root_shard_kubeconfig_secret,
  get_front_proxy_dynamic_kubeconfig_name, get_compiled_front_proxy_dynamic_kubeconfig_name,
  get_front_proxy_config_name, get_compiled_front_proxy_config_name,
}
use kcp_operator.Compile.{
  compiled_shard_reconciler, compiled_root_shard_reconciler, compiled_front_proxy_reconciler,
  compiled_virtual_workspace_reconciler, compiled_cache_server_reconciler,
}

-- For every shard with its root shard: the compiled shard has the base URL, the Deployment and
-- Service names and the labels of the shard, names each certificate and kubeconfig Secret as the
-- shard does, and each CA and the URL of the root shard as the root shard does.
pub shard_names_agree :
    (shard : Shard) (root_shard : RootShard) (vw : Option VirtualWorkspace) (shards : List Shard)
    (revisions : Map String)
    → let compiled = compiled_shard_reconciler shard root_shard vw shards revisions in
      (get_compiled_shard_base_url compiled ≡ get_shard_base_url shard)
      × (get_compiled_shard_deployment_name compiled ≡ get_shard_deployment_name shard)
      × (get_compiled_shard_service_name compiled ≡ get_shard_service_name shard)
      × (get_compiled_shard_resource_labels compiled ≡ get_shard_resource_labels shard)
      × ((cert : String)
          → (get_compiled_shard_certificate_name compiled cert
              ≡ get_shard_certificate_name shard cert)
            × (get_compiled_shard_kubeconfig_secret compiled cert
                ≡ get_shard_kubeconfig_secret shard cert))
      × ((ca : String)
          → get_named_root_shard_ca_name compiled.spec.root_shard ca
            ≡ get_root_shard_ca_name root_shard ca)
      × (get_named_root_shard_base_url compiled.spec.root_shard root_shard.namespace
          ≡ get_root_shard_base_url root_shard)
unfolding get_compiled_shard_base_url get_shard_base_url get_compiled_shard_deployment_name
    get_shard_deployment_name get_compiled_shard_service_name get_shard_service_name
    get_compiled_shard_resource_labels get_shard_resource_labels get_compiled_shard_certificate_name
    get_shard_certificate_name get_compiled_shard_kubeconfig_secret get_shard_kubeconfig_secret
    get_named_root_shard_ca_name get_root_shard_ca_name get_named_root_shard_base_url
    get_root_shard_base_url compiled_shard_reconciler
shard_names_agree shard root_shard vw shards revisions =
    (refl, refl, refl, refl, λ cert. (refl, refl), λ ca. refl, refl)

-- For every root shard: the compiled root shard has its base URL, Deployment and Service names,
-- labels, CA names, certificate names for itself and its proxy, and kubeconfig Secrets.
pub root_shard_names_agree :
    (root_shard : RootShard) (vw : Option VirtualWorkspace) (shards : List Shard)
    (revisions : Map String)
    → let compiled = compiled_root_shard_reconciler root_shard vw shards revisions in
      (get_compiled_root_shard_base_url compiled ≡ get_root_shard_base_url root_shard)
      × (get_compiled_root_shard_deployment_name compiled
          ≡ get_root_shard_deployment_name root_shard)
      × (get_compiled_root_shard_service_name compiled ≡ get_root_shard_service_name root_shard)
      × (get_compiled_root_shard_resource_labels compiled
          ≡ get_root_shard_resource_labels root_shard)
      × ((name : String)
          → (get_compiled_root_shard_ca_name compiled name ≡ get_root_shard_ca_name root_shard name)
            × (get_compiled_root_shard_certificate_name compiled name
                ≡ get_root_shard_certificate_name root_shard name)
            × (get_compiled_root_shard_proxy_certificate_name compiled name
                ≡ get_root_shard_proxy_certificate_name root_shard name)
            × (get_compiled_root_shard_kubeconfig_secret compiled name
                ≡ get_root_shard_kubeconfig_secret root_shard name))
unfolding get_compiled_root_shard_base_url get_root_shard_base_url
    get_compiled_root_shard_deployment_name get_root_shard_deployment_name
    get_compiled_root_shard_service_name get_root_shard_service_name
    get_compiled_root_shard_resource_labels get_root_shard_resource_labels
    get_compiled_root_shard_ca_name get_root_shard_ca_name get_compiled_root_shard_certificate_name
    get_root_shard_certificate_name get_compiled_root_shard_proxy_certificate_name
    get_root_shard_proxy_certificate_name get_compiled_root_shard_kubeconfig_secret
    get_root_shard_kubeconfig_secret compiled_root_shard_reconciler
root_shard_names_agree root_shard vw shards revisions =
    (refl, refl, refl, refl, λ name. (refl, refl, refl, refl))

host_starts :
    (name rest : String)
    → name <> "-virtual-workspace." <> rest ≡ (name <> "-virtual-workspace") <> ("." <> rest)
host_starts name rest =
    ap (λ (x : String). name <> x) (append_assoc "-virtual-workspace" "." rest)
    ∙ sym (append_assoc name "-virtual-workspace" ("." <> rest))

-- For every front-proxy, cache server and virtual workspace: the compiled object has the Deployment name
-- and the certificate names of the object itself. A compiled front-proxy has the Service, the labels and
-- the names of the configuration and of the dynamic kubeconfig of its front-proxy; a compiled cache
-- server has the base URL, the Service and the client certificate of its cache server; and a compiled
-- virtual workspace has its base URL, whose in-cluster host starts with the name of the Service of the
-- compiled object.
pub proxy_names_agree :
    (front_proxy : FrontProxy) (server : CacheServer) (vw : VirtualWorkspace)
    (root_shard : RootShard) (shard : Option Shard) (shards : List Shard) (revisions : Map String)
    → let proxy = compiled_front_proxy_reconciler front_proxy root_shard shards revisions in
      let cache = compiled_cache_server_reconciler server revisions in
      let workspace = compiled_virtual_workspace_reconciler vw root_shard shard revisions in
      (get_compiled_front_proxy_deployment_name proxy ≡ get_front_proxy_deployment_name front_proxy)
      × (get_compiled_front_proxy_service_name proxy ≡ get_front_proxy_service_name front_proxy)
      × (get_compiled_front_proxy_resource_labels proxy
          ≡ get_front_proxy_resource_labels front_proxy)
      × (get_compiled_front_proxy_config_name proxy ≡ get_front_proxy_config_name front_proxy)
      × (get_compiled_front_proxy_dynamic_kubeconfig_name proxy
          ≡ get_front_proxy_dynamic_kubeconfig_name root_shard front_proxy)
      × (get_compiled_cache_server_base_url cache ≡ get_cache_server_base_url server)
      × (get_compiled_cache_server_service_name cache ≡ get_cache_server_service_name server)
      × (get_compiled_cache_server_client_certificate_name cache
          ≡ get_cache_server_client_certificate_name server)
      × (get_compiled_virtual_workspace_base_url workspace ≡ get_virtual_workspace_base_url vw)
      × (get_virtual_workspace_base_host vw
          ≡ get_compiled_virtual_workspace_service_name workspace
            <> ("." <> vw.namespace <> ".svc." <> cluster_domain_or_default vw.spec.cluster_domain))
      × (get_compiled_cache_server_deployment_name cache ≡ get_cache_server_deployment_name server)
      × (get_compiled_virtual_workspace_deployment_name workspace
          ≡ get_virtual_workspace_deployment_name vw)
      × ((cert : String)
          → (get_compiled_front_proxy_certificate_name proxy cert
              ≡ get_front_proxy_certificate_name root_shard front_proxy cert)
            × (get_compiled_cache_server_certificate_name cache cert
                ≡ get_cache_server_certificate_name server cert)
            × (get_compiled_virtual_workspace_certificate_name workspace cert
                ≡ get_virtual_workspace_certificate_name vw cert))
unfolding get_compiled_front_proxy_deployment_name get_front_proxy_deployment_name
    get_compiled_front_proxy_service_name get_front_proxy_service_name
    get_compiled_front_proxy_resource_labels get_front_proxy_resource_labels
    get_compiled_front_proxy_config_name get_front_proxy_config_name
    get_compiled_front_proxy_dynamic_kubeconfig_name get_front_proxy_dynamic_kubeconfig_name
    get_compiled_cache_server_base_url get_cache_server_base_url
    get_compiled_cache_server_service_name get_cache_server_service_name
    get_compiled_cache_server_client_certificate_name get_cache_server_client_certificate_name
    get_compiled_virtual_workspace_base_url get_virtual_workspace_base_url
    get_virtual_workspace_base_host get_compiled_virtual_workspace_service_name
    get_compiled_cache_server_deployment_name get_cache_server_deployment_name
    get_compiled_virtual_workspace_deployment_name get_virtual_workspace_deployment_name
    get_compiled_front_proxy_certificate_name get_front_proxy_certificate_name
    get_compiled_cache_server_certificate_name get_cache_server_certificate_name
    get_compiled_virtual_workspace_certificate_name get_virtual_workspace_certificate_name
    compiled_front_proxy_reconciler compiled_cache_server_reconciler
    compiled_virtual_workspace_reconciler
proxy_names_agree front_proxy server vw root_shard shard shards revisions = (
  refl,
  refl,
  refl,
  refl,
  refl,
  refl,
  refl,
  refl,
  refl,
  host_starts vw.name (vw.namespace <> ".svc." <> cluster_domain_or_default vw.spec.cluster_domain),
  refl,
  refl,
  λ cert. (refl, refl, refl),
)
