-- ===== src/Tests/Naming.antt =====
-- Names of concrete objects.
use kcp_operator.Prelude.{String, ◌<>◌, some, ◌≡◌, refl, none, [], ◌∷◌}
use kcp_operator.Names.Distinct.{shard_deployment_collides, front_proxy_certificate_collides}
use kcp_operator.Names.Hosts.{
  get_shard_base_url, get_compiled_shard_base_url, get_named_root_shard_base_url,
  get_root_shard_base_url, get_compiled_root_shard_base_url, get_cache_server_base_url,
  get_compiled_cache_server_base_url, get_virtual_workspace_base_url,
  get_compiled_virtual_workspace_base_url, get_virtual_workspace_base_host,
}
use kcp_operator.Names.Labels.{
  get_shard_resource_labels, get_compiled_shard_resource_labels, get_root_shard_resource_labels,
  get_compiled_root_shard_resource_labels, get_front_proxy_resource_labels,
  get_compiled_front_proxy_resource_labels,
}
use kcp_operator.Names.Workloads.{
  get_shard_deployment_name, get_compiled_shard_deployment_name, get_shard_service_name,
  get_compiled_shard_service_name, get_root_shard_deployment_name,
  get_compiled_root_shard_deployment_name, get_root_shard_service_name,
  get_compiled_root_shard_service_name, get_front_proxy_deployment_name,
  get_compiled_front_proxy_deployment_name, get_front_proxy_service_name,
  get_compiled_front_proxy_service_name, get_cache_server_service_name,
  get_compiled_cache_server_service_name, get_compiled_virtual_workspace_service_name,
  get_compiled_cache_server_deployment_name, get_cache_server_deployment_name,
  get_compiled_virtual_workspace_deployment_name, get_virtual_workspace_deployment_name,
}
use kcp_operator.Names.Certificates.{
  get_shard_certificate_name, get_compiled_shard_certificate_name, get_root_shard_ca_name,
  get_named_root_shard_ca_name, get_compiled_root_shard_ca_name, get_root_shard_certificate_name,
  get_compiled_root_shard_certificate_name, get_front_proxy_certificate_name,
  get_compiled_front_proxy_certificate_name, get_virtual_workspace_certificate_name,
  get_compiled_virtual_workspace_certificate_name, get_cache_server_certificate_name,
  get_compiled_cache_server_certificate_name, get_cache_server_client_certificate_name,
  get_compiled_cache_server_client_certificate_name, get_root_shard_proxy_certificate_name,
  get_compiled_root_shard_proxy_certificate_name,
}
use kcp_operator.Names.Configs.{
  get_shard_kubeconfig_secret, get_compiled_shard_kubeconfig_secret,
  get_root_shard_kubeconfig_secret, get_compiled_root_shard_kubeconfig_secret,
  get_front_proxy_dynamic_kubeconfig_name, get_compiled_front_proxy_dynamic_kubeconfig_name,
  get_front_proxy_config_name, get_compiled_front_proxy_config_name,
}
use kcp_operator.Compile.{
  compiled_shard_reconciler, compiled_root_shard_reconciler, compiled_front_proxy_reconciler,
  compiled_virtual_workspace_reconciler, compiled_cache_server_reconciler,
}
use kcp_operator.Compile.Agreement.{shard_names_agree, root_shard_names_agree, proxy_names_agree}
use kcp_operator.Tests.Samples.{cache_server, virtual_workspace, shard, root_shard, front_proxy}

shard_deployment_collides_example :
    get_root_shard_deployment_name (root_shard "alpha-shard")
    ≡ get_shard_deployment_name (shard "alpha")
shard_deployment_collides_example =
    shard_deployment_collides (shard "alpha") (root_shard "alpha-shard") refl

front_proxy_certificate_collides_example :
    get_front_proxy_certificate_name (root_shard "root") (front_proxy "proxy") "server"
    ≡ get_root_shard_proxy_certificate_name (root_shard "root") "server"
front_proxy_certificate_collides_example =
    front_proxy_certificate_collides (root_shard "root") (front_proxy "proxy") "server" refl

-- The base URL of a compiled shard, with a revision of a certificate beside it.
compiled_url :
    get_compiled_shard_base_url (
      compiled_shard_reconciler
        (shard "alpha")
        (root_shard "root")
        none
        (shard "alpha" ∷ [])
        (("alpha-server", "3") ∷ []))
    ≡ "https://alpha-shard-kcp.kcp.svc.cluster.local:6443"
unfolding get_compiled_shard_base_url compiled_shard_reconciler
compiled_url = refl

shard_names_agree_example :
    let compiled =
      compiled_shard_reconciler
        (shard "alpha")
        (root_shard "root")
        none
        (shard "alpha" ∷ [])
        (("alpha-server", "3") ∷ []) in
    (get_compiled_shard_base_url compiled ≡ get_shard_base_url (shard "alpha"))
    × (get_compiled_shard_deployment_name compiled ≡ get_shard_deployment_name (shard "alpha"))
    × (get_compiled_shard_service_name compiled ≡ get_shard_service_name (shard "alpha"))
    × (get_compiled_shard_resource_labels compiled ≡ get_shard_resource_labels (shard "alpha"))
    × ((cert : String)
        → (get_compiled_shard_certificate_name compiled cert
            ≡ get_shard_certificate_name (shard "alpha") cert)
          × (get_compiled_shard_kubeconfig_secret compiled cert
              ≡ get_shard_kubeconfig_secret (shard "alpha") cert))
    × ((ca : String)
        → get_named_root_shard_ca_name compiled.spec.root_shard ca
          ≡ get_root_shard_ca_name (root_shard "root") ca)
    × (get_named_root_shard_base_url compiled.spec.root_shard (root_shard "root").namespace
        ≡ get_root_shard_base_url (root_shard "root"))
shard_names_agree_example =
    shard_names_agree (shard "alpha") (root_shard "root") none (shard "alpha" ∷ [])
      (("alpha-server", "3") ∷ [])

root_shard_names_agree_example :
    let compiled =
      compiled_root_shard_reconciler
        (root_shard "root")
        none
        (shard "alpha" ∷ [])
        (("root-server", "3") ∷ []) in
    (get_compiled_root_shard_base_url compiled ≡ get_root_shard_base_url (root_shard "root"))
    × (get_compiled_root_shard_deployment_name compiled
        ≡ get_root_shard_deployment_name (root_shard "root"))
    × (get_compiled_root_shard_service_name compiled
        ≡ get_root_shard_service_name (root_shard "root"))
    × (get_compiled_root_shard_resource_labels compiled
        ≡ get_root_shard_resource_labels (root_shard "root"))
    × ((name : String)
        → (get_compiled_root_shard_ca_name compiled name
            ≡ get_root_shard_ca_name (root_shard "root") name)
          × (get_compiled_root_shard_certificate_name compiled name
              ≡ get_root_shard_certificate_name (root_shard "root") name)
          × (get_compiled_root_shard_proxy_certificate_name compiled name
              ≡ get_root_shard_proxy_certificate_name (root_shard "root") name)
          × (get_compiled_root_shard_kubeconfig_secret compiled name
              ≡ get_root_shard_kubeconfig_secret (root_shard "root") name))
root_shard_names_agree_example =
    root_shard_names_agree (root_shard "root") none (shard "alpha" ∷ []) (("root-server", "3") ∷ [])

proxy_names_agree_example :
    let proxy =
      compiled_front_proxy_reconciler
        (front_proxy "main")
        (root_shard "root")
        (shard "alpha" ∷ [])
        [] in
    let cache = compiled_cache_server_reconciler (cache_server "cache") [] in
    let workspace =
      compiled_virtual_workspace_reconciler
        (virtual_workspace "vw")
        (root_shard "root")
        (some (shard "alpha"))
        [] in
    (get_compiled_front_proxy_deployment_name proxy
      ≡ get_front_proxy_deployment_name (front_proxy "main"))
    × (get_compiled_front_proxy_service_name proxy
        ≡ get_front_proxy_service_name (front_proxy "main"))
    × (get_compiled_front_proxy_resource_labels proxy
        ≡ get_front_proxy_resource_labels (front_proxy "main"))
    × (get_compiled_front_proxy_config_name proxy
        ≡ get_front_proxy_config_name (front_proxy "main"))
    × (get_compiled_front_proxy_dynamic_kubeconfig_name proxy
        ≡ get_front_proxy_dynamic_kubeconfig_name (root_shard "root") (front_proxy "main"))
    × (get_compiled_cache_server_base_url cache ≡ get_cache_server_base_url (cache_server "cache"))
    × (get_compiled_cache_server_service_name cache
        ≡ get_cache_server_service_name (cache_server "cache"))
    × (get_compiled_cache_server_client_certificate_name cache
        ≡ get_cache_server_client_certificate_name (cache_server "cache"))
    × (get_compiled_virtual_workspace_base_url workspace
        ≡ get_virtual_workspace_base_url (virtual_workspace "vw"))
    × (get_virtual_workspace_base_host (virtual_workspace "vw")
        ≡ get_compiled_virtual_workspace_service_name workspace <> ".kcp.svc.cluster.local")
    × (get_compiled_cache_server_deployment_name cache
        ≡ get_cache_server_deployment_name (cache_server "cache"))
    × (get_compiled_virtual_workspace_deployment_name workspace
        ≡ get_virtual_workspace_deployment_name (virtual_workspace "vw"))
    × ((cert : String)
        → (get_compiled_front_proxy_certificate_name proxy cert
            ≡ get_front_proxy_certificate_name (root_shard "root") (front_proxy "main") cert)
          × (get_compiled_cache_server_certificate_name cache cert
              ≡ get_cache_server_certificate_name (cache_server "cache") cert)
          × (get_compiled_virtual_workspace_certificate_name workspace cert
              ≡ get_virtual_workspace_certificate_name (virtual_workspace "vw") cert))
proxy_names_agree_example =
    proxy_names_agree (front_proxy "main") (cache_server "cache") (virtual_workspace "vw")
      (root_shard "root") (some (shard "alpha")) (shard "alpha" ∷ []) []
