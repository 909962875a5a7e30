-- ===== src/Render/ShardPod.antt =====
-- internal/resources/utils/shard.go and logging.go: what every shard's pod has.
use kcp_operator.Prelude.{
  ℕ, String, ◌<>◌, true, false, Option, none, some, List, [], ◌∷◌, ◌==◌, if◌then◌else◌,
}
use kcp_operator.Prelude.Decimal.{is_zero, print_int}
use kcp_operator.Api.Pod.{Volume, VolumeMount, Probe, Container, PodSpec, Deployment}
use kcp_operator.Api.Shard.{EtcdTlsConfig, EtcdConfig, LoggingSpec, CommonShardSpec}
use kcp_operator.Names.Defaults.{get_image_settings}
use kcp_operator.Render.Pods.{
  Outcome, done, panic, ◌>>=◌, append_args, append_mounts, append_volumes, with_pod, secret_volume,
  read_only_mount, join,
}
use kcp_operator.Render.Resources.{Heap, apply_resources}
use kcp_operator.Render.Audit.{apply_audit_configuration}
use kcp_operator.Render.Authorization.{apply_authorization_configuration}

abbrev get_common_shard_batteries : List String
get_common_shard_batteries = "workspace-types" ∷ []

abbrev pub get_compiled_shard_batteries : List String
get_compiled_shard_batteries = get_common_shard_batteries

-- GetLoggingArgs
unfoldable pub get_logging_args : Option LoggingSpec → List String
get_logging_args none = []
get_logging_args (some spec) =
    if is_zero spec.level then [] else ("-v=" <> print_int spec.level) ∷ []

abbrev probe : ℕ → ℕ → String → Probe
probe failures period path = record {
  failure_threshold = failures;
  initial_delay_seconds = 10;
  period_seconds = period;
  success_threshold = 1;
  timeout_seconds = 10;
  path = path;
  port = "https";
  scheme = "HTTPS";
}

unfoldable pub shard_container : Container → Container
shard_container c = record c {
  ports = record { name = "https"; container_port = 6443; protocol = "TCP" } ∷ [];
  security_context = some (record {
    seccomp_profile = "RuntimeDefault";
    read_only_root_filesystem = true;
    allow_privilege_escalation = false;
    drop = "ALL" ∷ [];
  });
  startup_probe = some (probe 60 5 "/readyz");
  readiness_probe = some (probe 6 10 "/readyz");
  liveness_probe = some (probe 6 10 "/livez");
}

abbrev pub no_containers : String
no_containers = "Deployment does not contain any containers."

-- `deployment.Spec.Template.Spec.Containers[0] = container`
abbrev pub set_containers : List Container → Deployment → Deployment
set_containers cs dep = record dep {
  spec = record dep.spec {
    template = record dep.spec.template {
      spec = record dep.spec.template.spec { containers = cs };
    };
  };
}

common_shard_deployment_properties : List Container → Deployment → Outcome Deployment
unfolding shard_container
common_shard_deployment_properties [] dep = panic no_containers
common_shard_deployment_properties (c ∷ cs) dep = done (set_containers (shard_container c ∷ cs) dep)

unfoldable pub apply_common_shard_deployment_properties : Deployment → Outcome Deployment
unfolding common_shard_deployment_properties
apply_common_shard_deployment_properties dep =
    common_shard_deployment_properties dep.spec.template.spec.containers dep

unfoldable pub apply_extra_volumes :
    Deployment → List Volume → List VolumeMount → Outcome Deployment
apply_extra_volumes dep [] [] = done dep
apply_extra_volumes dep volumes mounts =
    with_pod (λ pod. append_mounts mounts (append_volumes volumes pod)) dep

abbrev pub etcd_tls : Option EtcdTlsConfig → PodSpec → Outcome PodSpec
etcd_tls none pod = done pod
etcd_tls (some tls) pod = do
  pod1 ← append_mounts (read_only_mount "etcd-client-cert" "/etc/etcd/tls" ∷ []) pod
  append_args
      ("--etcd-certfile=/etc/etcd/tls/tls.crt" ∷ "--etcd-keyfile=/etc/etcd/tls/tls.key"
        ∷ "--etcd-cafile=/etc/etcd/tls/ca.crt" ∷ [])
      (append_volumes (secret_volume "etcd-client-cert" tls.secret_ref ∷ []) pod1)

unfoldable pub etcd_prefix : String → PodSpec → Outcome PodSpec
etcd_prefix prefix pod =
    if prefix == "" then done pod else append_args (("--etcd-prefix=" <> prefix) ∷ []) pod

unfoldable pub apply_etcd_configuration : Deployment → EtcdConfig → Outcome Deployment
unfolding join etcd_prefix
apply_etcd_configuration dep config =
    with_pod
      (λ pod. do
        pod1 ← append_args (("--etcd-servers=" <> join config.endpoints ",") ∷ []) pod
        pod2 ← etcd_prefix config.prefix pod1
        etcd_tls config.tls_config pod2)
      dep

-- The spec's replicas win over those that the Deployment has already; two is the default.
unfoldable pub effective_replicas : Option ℕ → Option ℕ → Option ℕ
effective_replicas (some n) existing = some n
effective_replicas none (some n) = some n
effective_replicas none none = some 2

-- The first half of ApplyCommonShardConfig: resources, replicas, image and pull secrets.
unfoldable pub shard_settings :
    Container → List Container → Deployment → CommonShardSpec → Heap → Deployment × Heap
unfolding apply_resources effective_replicas get_image_settings
shard_settings c cs dep spec h =
    let (c1, h1) = apply_resources c spec.resources h in
    let (image, pull_secrets, _) = get_image_settings spec.image in
    (
      record dep {
        spec = record dep.spec {
          replicas = effective_replicas spec.replicas dep.spec.replicas;
          template = record dep.spec.template {
            spec = record dep.spec.template.spec {
              containers = record c1 { image = image } ∷ cs;
              image_pull_secrets = pull_secrets;
            };
          };
        };
      },
      h1,
    )

-- Its second half: etcd, audit and authorization, and then the extra volumes.
unfoldable pub shard_options : Deployment → CommonShardSpec → Outcome Deployment
unfolding apply_etcd_configuration apply_audit_configuration apply_authorization_configuration
shard_options dep spec = do
  dep1 ← apply_etcd_configuration dep spec.etcd
  dep2 ← apply_audit_configuration dep1 spec.audit
  apply_authorization_configuration dep2 spec.authorization

-- The first argument is the list of the Deployment's containers.
unfoldable pub common_shard_config :
    List Container → Deployment → CommonShardSpec → Heap → Outcome (Deployment × Heap)
unfolding shard_settings shard_options apply_extra_volumes
common_shard_config [] dep spec h = panic no_containers
common_shard_config (c ∷ cs) dep spec h = do
  let settings = shard_settings c cs dep spec h
  dep2 ← shard_options settings.0 spec
  dep3 ← apply_extra_volumes dep2 spec.extra_volumes spec.extra_volume_mounts
  done (dep3, settings.1)

unfoldable pub apply_common_shard_config :
    Deployment → CommonShardSpec → Heap → Outcome (Deployment × Heap)
unfolding common_shard_config
apply_common_shard_config dep spec h =
    common_shard_config dep.spec.template.spec.containers dep spec h
