-- ===== src/Render/Audit.antt =====
-- internal/resources/utils/audit.go
use kcp_operator.Prelude.{String, ◌<>◌, List, Option, none, some, [], ◌∷◌, ◌++◌}
use kcp_operator.Api.Pod.{config_map, Deployment, PodSpec}
use kcp_operator.Api.Shard.{LocalDataKeyReference, AuditPolicySpec, AuditWebhookSpec, AuditSpec}
use kcp_operator.Render.Pods.{
  Outcome, done, ◌>>=◌, append_args, append_mounts, append_volumes, with_pod, with_config_secret,
  flag_text, flag_int, flag_bool, flag_option, read_only_mount,
}

unfoldable pub audit_policy_pod : Option LocalDataKeyReference → PodSpec → Outcome PodSpec
audit_policy_pod none pod = append_args [] pod
audit_policy_pod (some ref) pod = do
  let pod1 =
      append_volumes (record { name = "audit-policy"; source = config_map ref.name } ∷ []) pod
  pod2 ← append_mounts (read_only_mount "audit-policy" "/etc/kcp/audit/policy" ∷ []) pod1
  append_args (("--audit-policy-file=/etc/kcp/audit/policy/" <> ref.key) ∷ []) pod2

unfoldable pub apply_audit_policy_configuration :
    Deployment → Option AuditPolicySpec → Outcome Deployment
unfolding audit_policy_pod
apply_audit_policy_configuration dep none = done dep
apply_audit_policy_configuration dep (some config) =
    with_pod (audit_policy_pod config.config_map) dep

unfoldable pub audit_webhook_args : AuditWebhookSpec → List String
audit_webhook_args config =
    flag_int "--audit-webhook-batch-buffer-size=" config.batch_buffer_size
    ++ (flag_int "--audit-webhook-batch-max-size=" config.batch_max_size
        ++ (flag_option "--audit-webhook-batch-max-wait=" config.batch_max_wait
            ++ (flag_int "--audit-webhook-batch-throttle-burst=" config.batch_throttle_burst
                ++ (flag_bool "--audit-webhook-batch-throttle-enable" config.batch_throttle_enable
                    ++ (flag_text "--audit-webhook-batch-throttle-qps=" config.batch_throttle_qps
                        ++ (flag_option "--audit-webhook-initial-backoff=" config.initial_backoff
                            ++ (flag_text "--audit-webhook-mode=" config.mode
                                ++ (flag_bool "--audit-webhook-truncate-enabled"
                                      config.truncate_enabled
                                    ++ (flag_int "--audit-webhook-truncate-max-batch-size="
                                          config.truncate_max_batch_size
                                        ++ (flag_int "--audit-webhook-truncate-max-event-sizes="
                                              config.truncate_max_event_size
                                            ++ flag_text "--audit-webhook-version="
                                                config.version))))))))))

unfoldable pub apply_audit_webhook_configuration :
    Deployment → Option AuditWebhookSpec → Outcome Deployment
unfolding audit_webhook_args
apply_audit_webhook_configuration dep none = done dep
apply_audit_webhook_configuration dep (some config) =
    with_pod
      (with_config_secret (audit_webhook_args config) config.config_secret_name
        "audit-webhook-config" "/etc/kcp/audit/webhook" "--audit-webhook-config-file=")
      dep

unfoldable pub apply_audit_configuration : Deployment → Option AuditSpec → Outcome Deployment
unfolding apply_audit_policy_configuration apply_audit_webhook_configuration
apply_audit_configuration dep none = done dep
apply_audit_configuration dep (some config) = do
  dep1 ← apply_audit_policy_configuration dep config.policy
  apply_audit_webhook_configuration dep1 config.webhook
