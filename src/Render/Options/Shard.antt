-- ===== src/Render/Options/Shard.antt =====
-- The options of every shard's pod as extensions: etcd, audit, authorization, and the extra volumes
-- and mounts of a spec, which are added as they stand.
use kcp_operator.Prelude.{
  String, ◌<>◌, ◌≡◌, refl, ap, Bool, true, false, Option, none, some, List, [], ◌∷◌, append-nil,
  contains, ◌==◌, if◌then◌else◌,
}
use kcp_operator.Api.Pod.{VolumeMount, Volume, Container, PodSpec, Deployment, config_map}
use kcp_operator.Api.Shard.{
  EtcdTlsConfig, EtcdConfig, LocalDataKeyReference, AuditPolicySpec, AuditWebhookSpec, AuditSpec,
  AuthorizationSpec, AuthorizationWebhookSpec, CommonShardSpec,
}
use kcp_operator.Render.Pods.{
  Outcome, done, ◌>>=◌, append_args, append_mounts, append_volumes, with_pod, secret_volume,
  read_only_mount, join,
}
use kcp_operator.Render.Extension.{Extension, nothing, ◌⊕◌, IsClosed, extended, first_containers}
use kcp_operator.Render.Options.{
  IsExtension, PodExtends, bind-IsExtension, done-IsExtension, with_pod-IsExtension,
  with_pod-extended, extended-nothing, bind-PodExtends, done-PodExtends, append_args-PodExtends,
  with_config_secret-IsExtension,
}
use kcp_operator.Render.Audit.{
  audit_policy_pod, apply_audit_policy_configuration, apply_audit_webhook_configuration,
  apply_audit_configuration,
}
use kcp_operator.Render.Authorization.{
  authorization_webhook, apply_authorization_webhook_configuration,
  apply_authorization_configuration,
}
use kcp_operator.Render.ShardPod.{
  etcd_tls, etcd_prefix, apply_etcd_configuration, apply_extra_volumes, shard_options,
}

abbrev arguments : List String → Extension
arguments args = record { args = args; mounts = []; volumes = [] }

-- An option that only adds arguments.
append_args-IsExtension : (args : List String) → IsExtension (with_pod (append_args args))
append_args-IsExtension args =
    with_pod-IsExtension _ (arguments args) tt (append_args-PodExtends args)

audit_policy-IsExtension :
    (config : Option LocalDataKeyReference) → IsExtension (with_pod (audit_policy_pod config))
unfolding audit_policy_pod contains
audit_policy-IsExtension none = append_args-IsExtension []
audit_policy-IsExtension (some ref) =
    with_pod-IsExtension _
      (record {
        args = ("--audit-policy-file=/etc/kcp/audit/policy/" <> ref.key) ∷ [];
        mounts = read_only_mount "audit-policy" "/etc/kcp/audit/policy" ∷ [];
        volumes = record { name = "audit-policy"; source = config_map ref.name } ∷ [];
      })
      (refl, tt) (λ c cs pod. refl)

apply_audit_policy-IsExtension :
    (config : Option AuditPolicySpec)
    → IsExtension (λ dep. apply_audit_policy_configuration dep config)
unfolding apply_audit_policy_configuration
apply_audit_policy-IsExtension none = done-IsExtension
apply_audit_policy-IsExtension (some config) = audit_policy-IsExtension config.config_map

audit_webhook-IsExtension :
    (config : Option AuditWebhookSpec)
    → IsExtension (λ dep. apply_audit_webhook_configuration dep config)
unfolding apply_audit_webhook_configuration
audit_webhook-IsExtension none = done-IsExtension
audit_webhook-IsExtension (some config) = with_config_secret-IsExtension _ _ _ _ _

pub audit-IsExtension :
    (config : Option AuditSpec) → IsExtension (λ dep. apply_audit_configuration dep config)
unfolding apply_audit_configuration
audit-IsExtension none = done-IsExtension
audit-IsExtension (some config) =
    bind-IsExtension _ _ (apply_audit_policy-IsExtension config.policy)
      (audit_webhook-IsExtension config.webhook)

authorization_webhook-IsExtension :
    (config : Option AuthorizationWebhookSpec)
    → IsExtension (λ dep. authorization_webhook dep config)
unfolding apply_authorization_webhook_configuration
authorization_webhook-IsExtension none = done-IsExtension
authorization_webhook-IsExtension (some config) = with_config_secret-IsExtension _ _ _ _ _

pub authorization-IsExtension :
    (config : Option AuthorizationSpec)
    → IsExtension (λ dep. apply_authorization_configuration dep config)
unfolding apply_authorization_configuration
authorization-IsExtension none = done-IsExtension
authorization-IsExtension (some config) =
    bind-IsExtension _ _ (authorization_webhook-IsExtension config.webhook)
      (append_args-IsExtension _)

abbrev prefix_extension_if : Bool → String → Extension
prefix_extension_if true prefix = nothing
prefix_extension_if false prefix = arguments (("--etcd-prefix=" <> prefix) ∷ [])

abbrev tls_extension : Option EtcdTlsConfig → Extension
tls_extension none = nothing
tls_extension (some tls) = record {
  args =
      "--etcd-certfile=/etc/etcd/tls/tls.crt" ∷ "--etcd-keyfile=/etc/etcd/tls/tls.key"
      ∷ "--etcd-cafile=/etc/etcd/tls/ca.crt" ∷ [];
  mounts = read_only_mount "etcd-client-cert" "/etc/etcd/tls" ∷ [];
  volumes = secret_volume "etcd-client-cert" tls.secret_ref ∷ [];
}

etcd_prefix_if_extends :
    (empty : Bool) (prefix : String)
    → PodExtends
        (λ pod. if empty then done pod else append_args (("--etcd-prefix=" <> prefix) ∷ []) pod)
        (prefix_extension_if empty prefix)
etcd_prefix_if_extends true prefix = done-PodExtends
etcd_prefix_if_extends false prefix = append_args-PodExtends _

etcd_tls_extends :
    (config : Option EtcdTlsConfig) → PodExtends (etcd_tls config) (tls_extension config)
etcd_tls_extends none = done-PodExtends
etcd_tls_extends (some tls) = λ c cs pod. refl

etcd-IsClosed :
    (servers prefix : String) (empty : Bool) (tls : Option EtcdTlsConfig)
    → IsClosed (arguments (servers ∷ []) ⊕ (prefix_extension_if empty prefix ⊕ tls_extension tls))
unfolding contains
etcd-IsClosed servers prefix true none = tt
etcd-IsClosed servers prefix true (some tls) = (refl, tt)
etcd-IsClosed servers prefix false none = tt
etcd-IsClosed servers prefix false (some tls) = (refl, tt)

pub etcd-IsExtension :
    (config : EtcdConfig) → IsExtension (λ dep. apply_etcd_configuration dep config)
unfolding apply_etcd_configuration
etcd-IsExtension config =
    let servers = "--etcd-servers=" <> join config.endpoints "," in
    let prefix = prefix_extension_if (config.prefix == "") config.prefix in
    let tls = tls_extension config.tls_config in
    with_pod-IsExtension _ (arguments (servers ∷ []) ⊕ (prefix ⊕ tls))
      (etcd-IsClosed servers config.prefix (config.prefix == "") config.tls_config)
      (bind-PodExtends (append_args (servers ∷ []))
        (λ pod. etcd_prefix config.prefix pod >>= etcd_tls config.tls_config)
        (arguments (servers ∷ [])) (prefix ⊕ tls) (append_args-PodExtends (servers ∷ []))
        (bind-PodExtends (etcd_prefix config.prefix) (etcd_tls config.tls_config) prefix tls
          (etcd_prefix_if_extends (config.prefix == "") config.prefix)
          (etcd_tls_extends config.tls_config)))

-- The extra volumes and mounts of a spec.
abbrev pub extra : List Volume → List VolumeMount → Extension
extra volumes mounts = record { args = []; mounts = mounts; volumes = volumes }

abbrev extra_pod : List Volume → List VolumeMount → PodSpec → Outcome PodSpec
extra_pod volumes mounts pod = append_mounts mounts (append_volumes volumes pod)

extra-PodExtends :
    (volumes : List Volume) (mounts : List VolumeMount)
    → PodExtends (extra_pod volumes mounts) (extra volumes mounts)
extra-PodExtends volumes mounts c cs pod = ap done (cc (append-nil c.args))

pub apply_extra_volumes-extended :
    (volumes : List Volume) (mounts : List VolumeMount) (c : Container) (cs : List Container)
    (dep : Deployment)
    → first_containers dep ≡ c ∷ cs
    → apply_extra_volumes dep volumes mounts ≡ done (extended (extra volumes mounts) c cs dep)
unfolding apply_extra_volumes
apply_extra_volumes-extended [] [] c cs dep h = ap done (extended-nothing c cs dep h)
apply_extra_volumes-extended [] (m ∷ mounts) c cs dep h =
    with_pod-extended (extra_pod [] (m ∷ mounts)) (extra [] (m ∷ mounts))
      (extra-PodExtends [] (m ∷ mounts)) c cs dep h
apply_extra_volumes-extended (v ∷ volumes) mounts c cs dep h =
    with_pod-extended (extra_pod (v ∷ volumes) mounts) (extra (v ∷ volumes) mounts)
      (extra-PodExtends (v ∷ volumes) mounts) c cs dep h

-- The options of a shard, before its extra volumes.
pub shard_options-IsExtension :
    (spec : CommonShardSpec) → IsExtension (λ dep. shard_options dep spec)
unfolding shard_options
shard_options-IsExtension spec = bind-IsExtension _ _ (etcd-IsExtension spec.etcd) (
    bind-IsExtension _ _ (audit-IsExtension spec.audit)
      (authorization-IsExtension spec.authorization))
