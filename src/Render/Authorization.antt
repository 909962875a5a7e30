-- ===== src/Render/Authorization.antt =====
-- internal/resources/utils/authorization.go
use kcp_operator.Prelude.{String, ◌<>◌, List, Option, none, some, [], ◌∷◌, ◌++◌}
use kcp_operator.Api.Pod.{Deployment}
use kcp_operator.Api.Shard.{AuthorizationWebhookSpec, AuthorizationSpec}
use kcp_operator.Render.Pods.{
  Outcome, done, ◌>>=◌, append_args, with_pod, with_config_secret, flag_text, flag_option, join,
}

abbrev pub flag_list : String → Option (List String) → List String
flag_list flag none = []
flag_list flag (some vals) = (flag <> join vals ",") ∷ []

unfoldable pub apply_authorization_base_configuration :
    Deployment → AuthorizationSpec → Outcome Deployment
unfolding join
apply_authorization_base_configuration dep config =
    with_pod
      (append_args (
        flag_list "--authorization-always-allow-paths=" config.allow_paths
        ++ flag_list "--authorization-order=" config.order))
      dep

unfoldable pub authorization_webhook_args : AuthorizationWebhookSpec → List String
authorization_webhook_args config =
    flag_list "--authorization-always-allow-paths=" config.allow_paths
    ++ (flag_option "--authorization-webhook-cache-authorized-ttl=" config.cache_authorized_ttl
        ++ (flag_option "--authorization-webhook-cache-unauthorized-ttl="
              config.cache_unauthorized_ttl
            ++ flag_text "--authorization-webhook-version=" config.version))

unfoldable pub apply_authorization_webhook_configuration :
    Deployment → AuthorizationWebhookSpec → Outcome Deployment
unfolding authorization_webhook_args join
apply_authorization_webhook_configuration dep config =
    with_pod
      (with_config_secret (authorization_webhook_args config) config.config_secret_name
        "authorization-webhook-config" "/etc/kcp/authorization/webhook"
        "--authorization-webhook-config-file=")
      dep

abbrev pub authorization_webhook : Deployment → Option AuthorizationWebhookSpec → Outcome Deployment
authorization_webhook dep none = done dep
authorization_webhook dep (some config) = apply_authorization_webhook_configuration dep config

unfoldable pub apply_authorization_configuration :
    Deployment → Option AuthorizationSpec → Outcome Deployment
unfolding apply_authorization_base_configuration apply_authorization_webhook_configuration
apply_authorization_configuration dep none = done dep
apply_authorization_configuration dep (some config) = do
  dep1 ← authorization_webhook dep config.webhook
  apply_authorization_base_configuration dep1 config
