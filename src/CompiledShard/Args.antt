-- ===== src/CompiledShard/Args.antt =====
-- getArgs of internal/resources/compiledshard/deployment.go.
use kcp_operator.Prelude.{
  String, ◌<>◌, Bool, Option, none, some, List, [], ◌∷◌, ◌++◌, ◌==◌, if◌then◌else◌,
}
use kcp_operator.Prelude.Decimal.{print_nat}
use kcp_operator.Api.Objects.{NamedVirtualWorkspaceSpec, CompiledShard}
use kcp_operator.Names.Defaults.{
  root_ca, client_ca, server_ca, requestheader_client_ca, server_certificate, client_certificate,
  service_account_certificate, mounts_proxy_client_certificate, logical_cluster_admin_certificate,
  external_logical_cluster_admin_certificate, front_proxy_common_name, root_shard_proxy_common_name,
}
use kcp_operator.Names.Hosts.{get_compiled_shard_base_url}
use kcp_operator.Render.Pods.{join}
use kcp_operator.Render.ShardPod.{get_logging_args, get_compiled_shard_batteries}
use kcp_operator.CompiledShard.Paths.{
  get_certificate_mount_path, get_ca_mount_path, get_kubeconfig_mount_path,
  get_cache_server_kubeconfig_mount_path, get_effective_cache_ref,
}

-- The cache is the configured cache server, or else the root shard itself.
unfoldable pub cache_kubeconfig_mount : CompiledShard → String
unfolding get_effective_cache_ref
cache_kubeconfig_mount shard =
    if get_effective_cache_ref shard == ""
    then get_kubeconfig_mount_path client_certificate
    else get_cache_server_kubeconfig_mount_path

-- The certificate flags. The files of each lie under a mount path.
abbrev pub certificate_args : List String
certificate_args =
    ("--root-ca-file=" <> get_ca_mount_path root_ca <> "/tls.crt")
    ∷ ("--client-ca-file=" <> get_ca_mount_path client_ca <> "/tls.crt")
    ∷ ("--requestheader-client-ca-file=" <> get_ca_mount_path requestheader_client_ca <> "/tls.crt")
    ∷ ("--requestheader-allowed-names=" <> front_proxy_common_name <> ","
        <> root_shard_proxy_common_name)
    ∷ "--requestheader-username-headers=X-Remote-User"
    ∷ "--requestheader-group-headers=X-Remote-Group"
    ∷ "--requestheader-extra-headers-prefix=X-Remote-Extra-"
    ∷ ("--tls-private-key-file=" <> get_certificate_mount_path server_certificate <> "/tls.key")
    ∷ ("--tls-cert-file=" <> get_certificate_mount_path server_certificate <> "/tls.crt")
    ∷ ("--service-account-key-file="
        <> get_certificate_mount_path service_account_certificate
        <> "/tls.crt")
    ∷ ("--service-account-private-key-file="
        <> get_certificate_mount_path service_account_certificate
        <> "/tls.key")
    ∷ "--service-account-lookup=false"
    ∷ ("--shard-client-key-file=" <> get_certificate_mount_path client_certificate <> "/tls.key")
    ∷ ("--shard-client-cert-file=" <> get_certificate_mount_path client_certificate <> "/tls.crt")
    ∷ []

general_args : CompiledShard → List String
general_args shard =
    ("--shard-name=" <> shard.name)
    ∷ ("--shard-base-url=" <> get_compiled_shard_base_url shard)
    ∷ ("--shard-external-url=https://"
        <> shard.spec.root_shard.spec.external.hostname
        <> ":"
        <> print_nat shard.spec.root_shard.spec.external.port)
    ∷ ("--external-hostname=" <> shard.spec.root_shard.spec.external.hostname)
    ∷ ("--cache-kubeconfig=" <> cache_kubeconfig_mount shard <> "/kubeconfig")
    ∷ ("--root-shard-kubeconfig-file="
        <> get_kubeconfig_mount_path client_certificate
        <> "/kubeconfig")
    ∷ ("--logical-cluster-admin-kubeconfig="
        <> get_kubeconfig_mount_path logical_cluster_admin_certificate
        <> "/kubeconfig")
    ∷ ("--external-logical-cluster-admin-kubeconfig="
        <> get_kubeconfig_mount_path external_logical_cluster_admin_certificate
        <> "/kubeconfig")
    ∷ ("--batteries-included=" <> join get_compiled_shard_batteries ",")
    ∷ "--root-directory="
    ∷ "--enable-leader-election=true"
    ∷ "--logging-format=json"
    ∷ []

abbrev mount_proxy_args : Bool → List String
mount_proxy_args supported =
    if supported
    then ("--mount-proxy-client-cert-file="
        <> get_certificate_mount_path mounts_proxy_client_certificate
        <> "/tls.crt")
      ∷ ("--mount-proxy-client-key-file="
          <> get_certificate_mount_path mounts_proxy_client_certificate
          <> "/tls.key")
      ∷ []
    else []

virtual_workspace_args : Option NamedVirtualWorkspaceSpec → List String
virtual_workspace_args none = []
virtual_workspace_args (some vw) =
    "--run-virtual-workspaces=false"
    ∷ ("--shard-virtual-workspace-url=https://"
        <> vw.spec.external.hostname
        <> ":"
        <> print_nat vw.spec.external.port)
    ∷ ("--shard-virtual-workspace-ca-file=" <> get_ca_mount_path server_ca <> "/tls.crt")
    ∷ []

-- The second argument says whether kcp's version supports the mount proxy.
unfoldable pub get_args : CompiledShard → Bool → List String
unfolding general_args virtual_workspace_args get_logging_args
get_args shard mount_proxy =
    certificate_args
    ++ (general_args shard
        ++ (mount_proxy_args mount_proxy
            ++ (get_logging_args shard.spec.shard.logging
                ++ (shard.spec.shard.extra_args
                    ++ virtual_workspace_args shard.spec.virtual_workspace))))
