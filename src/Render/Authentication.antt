-- ===== src/Render/Authentication.antt =====
-- internal/resources/utils/authentication.go, and ApplyAuthConfiguration of deployments.go
use kcp_operator.Prelude.{
  String, ◌<>◌, List, Option, none, some, [], ◌∷◌, ◌++◌, map, ◌==◌, if◌then◌else◌,
}
use kcp_operator.Api.Pod.{Volume, VolumeMount, Deployment, PodSpec}
use kcp_operator.Api.Shard.{
  OidcCaFileRef, OidcConfiguration, TokenAuthFileSpec, AuthenticationWebhookSpec,
  ServiceAccountAuthentication, AuthSpec,
}
use kcp_operator.Render.Pods.{
  Outcome, done, ◌>>=◌, append_args, append_mounts, append_volumes, with_pod, with_config_secret,
  flag_text, flag_option, secret_volume, read_only_mount,
}

unfoldable pub oidc_args : OidcConfiguration → List String
oidc_args config =
    flag_text "--oidc-issuer-url=" config.issuer_url
    ++ (flag_text "--oidc-client-id=" config.client_id
        ++ (flag_text "--oidc-groups-claim=" config.groups_claim
            ++ (flag_text "--oidc-username-claim=" config.username_claim
                ++ (flag_text "--oidc-username-prefix=" config.username_prefix
                    ++ flag_text "--oidc-groups-prefix=" config.groups_prefix))))

unfoldable pub oidc_ca_file : Option OidcCaFileRef → PodSpec → Outcome PodSpec
oidc_ca_file none pod = done pod
oidc_ca_file (some val) pod =
    append_mounts (read_only_mount "oidc-ca-file" "/etc/kcp/tls/oidc" ∷ [])
      (append_volumes (secret_volume "oidc-ca-file" val.name ∷ []) pod)

abbrev pub oidc_ca_file_args : Option OidcCaFileRef → List String
oidc_ca_file_args none = []
oidc_ca_file_args (some val) = ("--oidc-ca-file=/etc/kcp/tls/oidc/" <> val.key) ∷ []

unfoldable pub apply_oidc_configuration : Deployment → OidcConfiguration → Outcome Deployment
unfolding oidc_args oidc_ca_file
apply_oidc_configuration dep config =
    with_pod
      (λ pod. do
        pod1 ← oidc_ca_file config.ca_file_ref pod
        append_args (oidc_args config ++ oidc_ca_file_args config.ca_file_ref) pod1)
      dep

abbrev pub service_account_volume : String → Volume
service_account_volume name =
    secret_volume (name <> "-service-account") (name <> "-service-account")

abbrev pub service_account_mount : String → VolumeMount
service_account_mount name =
    read_only_mount (name <> "-service-account") ("/etc/kcp/tls/" <> name <> "/service-account")

abbrev pub service_account_arg : String → String
service_account_arg name =
    "--service-account-key-file=/etc/kcp/tls/" <> name <> "/service-account/tls.crt"

-- The root shard is not in the list of shards, and comes first.
unfoldable pub apply_service_account_authentication :
    Deployment → String → List String → Outcome Deployment
apply_service_account_authentication dep root_shard_name shard_names =
    with_pod
      (λ pod. do
        pod1 ←
            append_mounts
              (service_account_mount root_shard_name ∷ map service_account_mount shard_names)
              (append_volumes
                (service_account_volume root_shard_name ∷ map service_account_volume shard_names)
                pod)
        append_args
            ("--service-account-lookup=false"
              ∷ service_account_arg root_shard_name
              ∷ map service_account_arg shard_names)
            pod1)
      dep

unfoldable pub apply_token_auth_file : Deployment → TokenAuthFileSpec → Outcome Deployment
apply_token_auth_file dep config =
    let key = if config.key == "" then "token.csv" else config.key in
    with_pod
      (λ pod. do
        pod1 ← append_args (("--token-auth-file=/etc/kcp/authentication/token/" <> key) ∷ []) pod
        pod2 ←
            append_mounts (read_only_mount "token-auth-file" "/etc/kcp/authentication/token" ∷ [])
              pod1
        done (append_volumes (secret_volume "token-auth-file" config.secret_name ∷ []) pod2))
      dep

unfoldable pub authentication_webhook_args : AuthenticationWebhookSpec → List String
authentication_webhook_args config =
    flag_option "--authentication-token-webhook-cache-ttl=" config.cache_authentication_ttl
    ++ flag_text "--authentication-token-webhook-version=" config.version

unfoldable pub apply_authentication_webhook_configuration :
    Deployment → AuthenticationWebhookSpec → Outcome Deployment
unfolding authentication_webhook_args
apply_authentication_webhook_configuration dep config =
    with_pod
      (with_config_secret (authentication_webhook_args config) config.config_secret_name
        "authentication-webhook-config" "/etc/kcp/authentication/webhook"
        "--authentication-token-webhook-config-file=")
      dep

-- `if config.X != nil { deployment = apply(deployment, *config.X) }`
abbrev pub when_set {ℓ} :
    {A : Type ℓ}
    → (Deployment → A → Outcome Deployment)
    → Option A
    → Deployment
    → Outcome Deployment
when_set apply none dep = done dep
when_set apply (some config) dep = apply dep config

abbrev pub service_account_step :
    String → List String → Deployment → ServiceAccountAuthentication → Outcome Deployment
service_account_step root_shard_name shard_names dep config =
    if config.enabled
    then apply_service_account_authentication dep root_shard_name shard_names
    else done dep

unfoldable pub apply_auth_configuration :
    Deployment → Option AuthSpec → String → List String → Outcome Deployment
unfolding apply_oidc_configuration apply_authentication_webhook_configuration apply_token_auth_file
    apply_service_account_authentication
apply_auth_configuration dep none root_shard_name shard_names = done dep
apply_auth_configuration dep (some config) root_shard_name shard_names = do
  dep1 ← when_set apply_oidc_configuration config.oidc dep
  dep2 ← when_set apply_authentication_webhook_configuration config.webhook dep1
  dep3 ← when_set apply_token_auth_file config.token_auth_file dep2
  when_set (service_account_step root_shard_name shard_names) config.service_account dep3
