-- ===== src/Kubeconfigs/Files.antt =====
-- The files that the kubeconfigs of a shard name (internal/resources/shard/kubeconfigs.go), and where its
-- Deployment mounts the Secrets that hold them (internal/resources/compiledshard/deployment.go).
use kcp_operator.Prelude.{
  String, ◌<>◌, ◌≡◌, refl, sym, subst, Bool, Option, some, List, [], ◌∷◌, ◌++◌, map, ◌⊎◌, inl, inr,
  Option-cases,
}
use kcp_operator.Prelude.Maps.{Map, lookup}
use kcp_operator.Api.Objects.{Shard, RootShard, VirtualWorkspace, CompiledShard}
use kcp_operator.Compile.{compiled_shard_reconciler}
use kcp_operator.Render.Mounts.{SecretMount}
use kcp_operator.CompiledShard.Paths.{get_effective_cache_ref}
use kcp_operator.CompiledShard.Deployment.{
  secret_mounts, ca_bundle_mounts, cache_mounts, cert_mount, mount_proxy_certs,
}
use kcp_operator.Kubeconfigs.{Cluster, Context, AuthInfo, KubeconfigFile}
use kcp_operator.Kubeconfigs.Shards.{
  get_ca_mount_path, server_authority, root_shard_client_kubeconfig,
  logical_cluster_admin_kubeconfig, external_logical_cluster_admin_kubeconfig,
}

-- A mounted Secret has a file of this path: the certificate or the key of a TLS Secret.
abbrev pub Served : List SecretMount → String → Type 0
Served [] path = ⊥
Served (m ∷ ms) path =
    ((path ≡ m.mount_path <> "/tls.crt") ⊎ (path ≡ m.mount_path <> "/tls.key")) ⊎ Served ms path

Served-append_right :
    (ms ns : List SecretMount) (path : String) → Served ns path → Served (ms ++ ns) path
Served-append_right [] ns path h = h
Served-append_right (m ∷ ms) ns path h = inr (Served-append_right ms ns path h)

Served-append_left :
    (ms ns : List SecretMount) (path : String) → Served ms path → Served (ms ++ ns) path
Served-append_left [] ns path h = elim h [ ]
Served-append_left (m ∷ ms) ns path (inl h) = inl h
Served-append_left (m ∷ ms) ns path (inr h) = inr (Served-append_left ms ns path h)

-- The current context of a file leads to a cluster and a user, whose files are there.
pub record IsUsable (mounts : List SecretMount) (file : KubeconfigFile) : Type 0 where
  pub context : Context
  pub cluster : Cluster
  pub user : AuthInfo
  pub context_there : lookup file.current_context file.contexts ≡ some context
  pub cluster_there : lookup context.cluster file.clusters ≡ some cluster
  pub user_there : lookup context.auth_info file.auth_infos ≡ some user
  pub authority_served : Served mounts cluster.certificate_authority
  pub certificate_served : Served mounts user.client_certificate
  pub key_served : Served mounts user.client_key

module _ (s : Shard) (r : RootShard) (vw : Option VirtualWorkspace) (shards : List Shard)
    (revisions : Map String) (mount_proxy : Bool) where
  abbrev compiled : CompiledShard
  compiled = compiled_shard_reconciler s r vw shards revisions

  abbrev mounts : List SecretMount
  mounts = secret_mounts compiled mount_proxy

  abbrev Has : String → Type 0
  Has = Served mounts

  behind_fixed :
      (path : String)
      → Served
          (map (cert_mount compiled) (mount_proxy_certs mount_proxy)
            ++ (ca_bundle_mounts compiled ++ cache_mounts (get_effective_cache_ref compiled)))
          path
      → Has path
  unfolding secret_mounts
  behind_fixed path h =
      inr (inr (inr (inr (inr (inr (inr (inr (inr (inr (inr (inr (inr h))))))))))))

  server_ca_served : Has "/etc/kcp/tls/ca/server/tls.crt"
  unfolding secret_mounts
  server_ca_served = inr (inr (inr (inr (inl (inl refl)))))

  client_served : Has "/etc/kcp/tls/client/tls.crt" × Has "/etc/kcp/tls/client/tls.key"
  unfolding secret_mounts
  client_served = (
    inr (inr (inr (inr (inr (inr (inr (inr (inr (inr (inl (inl refl))))))))))),
    inr (inr (inr (inr (inr (inr (inr (inr (inr (inr (inl (inr refl))))))))))),
  )

  admin_served :
      Has "/etc/kcp/tls/logical-cluster-admin/tls.crt"
      × Has "/etc/kcp/tls/logical-cluster-admin/tls.key"
  unfolding secret_mounts
  admin_served = (
    inr (inr (inr (inr (inr (inr (inr (inr (inr (inr (inr (inl (inl refl)))))))))))),
    inr (inr (inr (inr (inr (inr (inr (inr (inr (inr (inr (inl (inr refl)))))))))))),
  )

  external_admin_served :
      Has "/etc/kcp/tls/external-logical-cluster-admin/tls.crt"
      × Has "/etc/kcp/tls/external-logical-cluster-admin/tls.key"
  unfolding secret_mounts
  external_admin_served = (
    inr (inr (inr (inr (inr (inr (inr (inr (inr (inr (inr (inr (inl (inl refl))))))))))))),
    inr (inr (inr (inr (inr (inr (inr (inr (inr (inr (inr (inr (inl (inr refl))))))))))))),
  )

  abbrev HasAuthority : Option String → Type 0
  HasAuthority bundle = Has (get_ca_mount_path (server_authority bundle) <> "/tls.crt")

  ca_bundle_mounts-Served :
      (bundle : String)
      → s.spec.ca_bundle_secret_ref ≡ some bundle
      → Served (ca_bundle_mounts compiled) "/etc/kcp/tls/ca/ca-bundle/tls.crt"
  unfolding compiled_shard_reconciler
  ca_bundle_mounts-Served bundle e = rw e (inl (inl refl))

  -- The merged bundle is mounted if the file names it.
  authority_served : HasAuthority s.spec.ca_bundle_secret_ref
  authority_served = elim (Option-cases s.spec.ca_bundle_secret_ref) [
    | inl e ↦ subst HasAuthority (sym e) server_ca_served
    | inr (bundle, e) ↦
        let path : String = "/etc/kcp/tls/ca/ca-bundle/tls.crt" in
        let cache = cache_mounts (get_effective_cache_ref compiled) in
        subst HasAuthority (sym e) (
          behind_fixed path (
            Served-append_right (map (cert_mount compiled) (mount_proxy_certs mount_proxy))
              (ca_bundle_mounts compiled ++ cache) path
              (Served-append_left (ca_bundle_mounts compiled) cache path
                (ca_bundle_mounts-Served bundle e))))
  ]

  -- The current context of each of the three kubeconfigs that the shard controller writes leads to a
  -- cluster and a user of the file, and their CA, certificate and key are files of the Secrets that the
  -- Deployment of the shard mounts.
  pub kubeconfigs-IsUsable :
      IsUsable mounts (root_shard_client_kubeconfig r)
      × IsUsable mounts (logical_cluster_admin_kubeconfig s)
      × IsUsable mounts (external_logical_cluster_admin_kubeconfig s r)
  unfolding root_shard_client_kubeconfig logical_cluster_admin_kubeconfig
      external_logical_cluster_admin_kubeconfig lookup
  kubeconfigs-IsUsable = (
    record {
      context = _;
      cluster = _;
      user = _;
      context_there = refl;
      cluster_there = refl;
      user_there = refl;
      authority_served = server_ca_served;
      certificate_served = client_served.0;
      key_served = client_served.1;
    },
    record {
      context = _;
      cluster = _;
      user = _;
      context_there = refl;
      cluster_there = refl;
      user_there = refl;
      authority_served = server_ca_served;
      certificate_served = admin_served.0;
      key_served = admin_served.1;
    },
    record {
      context = _;
      cluster = _;
      user = _;
      context_there = refl;
      cluster_there = refl;
      user_there = refl;
      authority_served = authority_served;
      certificate_served = external_admin_served.0;
      key_served = external_admin_served.1;
    },
  )
