-- ===== src/Render/Options/Authentication.antt =====
-- The options of internal/resources/utils/authentication.go as extensions.
use kcp_operator.Prelude.{
  String, ◌<>◌, refl, ap, Bool, true, false, Option, none, some, List, [], ◌∷◌, ◌++◌, map,
  append-nil, contains, ◌==◌, eq_refl, if◌then◌else◌,
}
use kcp_operator.Api.Pod.{Deployment}
use kcp_operator.Api.Shard.{
  OidcCaFileRef, OidcConfiguration, TokenAuthFileSpec, AuthenticationWebhookSpec, AuthSpec,
}
use kcp_operator.Render.Pods.{Outcome, done, ◌>>=◌, append_args, secret_volume, read_only_mount}
use kcp_operator.Render.Extension.{
  Extension, nothing, ◌⊕◌, volume_names, Resolves, IsClosed, Resolves-append_right,
}
use kcp_operator.Render.Options.{
  IsExtension, PodExtends, bind-IsExtension, done-IsExtension, with_pod-IsExtension,
  with_config_secret-IsExtension,
}
use kcp_operator.Render.Authentication.{
  apply_oidc_configuration, oidc_args, oidc_ca_file, oidc_ca_file_args, when_set,
  service_account_volume, service_account_mount, service_account_arg,
  apply_service_account_authentication, apply_token_auth_file,
  apply_authentication_webhook_configuration, service_account_step, apply_auth_configuration,
}

token_auth_file-IsExtension :
    (config : TokenAuthFileSpec) → IsExtension (λ dep. apply_token_auth_file dep config)
unfolding apply_token_auth_file contains
token_auth_file-IsExtension config =
    with_pod-IsExtension _
      (record {
        args =
            ("--token-auth-file=/etc/kcp/authentication/token/"
              <> (if config.key == "" then "token.csv" else config.key))
            ∷ [];
        mounts = read_only_mount "token-auth-file" "/etc/kcp/authentication/token" ∷ [];
        volumes = secret_volume "token-auth-file" config.secret_name ∷ [];
      })
      (refl, tt) (λ c cs pod. refl)

authentication_webhook-IsExtension :
    (config : AuthenticationWebhookSpec)
    → IsExtension (λ dep. apply_authentication_webhook_configuration dep config)
unfolding apply_authentication_webhook_configuration
authentication_webhook-IsExtension config = with_config_secret-IsExtension _ _ _ _ _

oidc-IsExtension :
    (config : OidcConfiguration) → IsExtension (λ dep. apply_oidc_configuration dep config)
unfolding apply_oidc_configuration contains
oidc-IsExtension config =
    with_pod-IsExtension _
      (record { args = oidc_args config; mounts = []; volumes = [] }
        ⊕ ca_extension config.ca_file_ref)
      (ca_closed config.ca_file_ref) (ca_extends config.ca_file_ref)
  where
    ca_extension : Option OidcCaFileRef → Extension
    ca_extension none = nothing
    ca_extension (some val) = record {
      args = ("--oidc-ca-file=/etc/kcp/tls/oidc/" <> val.key) ∷ [];
      mounts = read_only_mount "oidc-ca-file" "/etc/kcp/tls/oidc" ∷ [];
      volumes = secret_volume "oidc-ca-file" val.name ∷ [];
    }

    ca_closed :
        (ref : Option OidcCaFileRef)
        → IsClosed
            (record { args = oidc_args config; mounts = []; volumes = [] } ⊕ ca_extension ref)
    ca_closed none = tt
    ca_closed (some val) = (refl, tt)

    ca_extends :
        (ref : Option OidcCaFileRef)
        → PodExtends
            (λ pod.
              oidc_ca_file ref pod >>= append_args (oidc_args config ++ oidc_ca_file_args ref))
            (record { args = oidc_args config; mounts = []; volumes = [] } ⊕ ca_extension ref)
    ca_extends none c cs pod = ap done (cc (append-nil c.volume_mounts, append-nil pod.volumes))
    ca_extends (some val) c cs pod = refl

service_account_closed :
    (names : List String)
    → Resolves (volume_names (map service_account_volume names)) (map service_account_mount names)
unfolding contains
service_account_closed [] = tt
service_account_closed (name ∷ names) = (
  rw eq_refl refl,
  Resolves-append_right ((name <> "-service-account") ∷ [])
      (volume_names (map service_account_volume names)) (map service_account_mount names)
      (service_account_closed names),
)

service_account-IsExtension :
    (root_shard_name : String) (shard_names : List String)
    → IsExtension (λ dep. apply_service_account_authentication dep root_shard_name shard_names)
unfolding apply_service_account_authentication
service_account-IsExtension root_shard_name shard_names =
    with_pod-IsExtension _
      (record {
        args =
            "--service-account-lookup=false"
            ∷ service_account_arg root_shard_name
            ∷ map service_account_arg shard_names;
        mounts = map service_account_mount (root_shard_name ∷ shard_names);
        volumes = map service_account_volume (root_shard_name ∷ shard_names);
      })
      (service_account_closed (root_shard_name ∷ shard_names)) (λ c cs pod. refl)

service_account_step-IsExtension :
    (root_shard_name : String) (shard_names : List String) (enabled : Bool)
    → IsExtension (λ dep.
      if enabled
      then apply_service_account_authentication dep root_shard_name shard_names
      else done dep)
service_account_step-IsExtension root_shard_name shard_names true =
    service_account-IsExtension root_shard_name shard_names
service_account_step-IsExtension root_shard_name shard_names false = done-IsExtension

-- `when_set` of an option that extends.
when_set-IsExtension {ℓ} :
    {A : Type ℓ} (apply : Deployment → A → Outcome Deployment)
    → ((config : A) → IsExtension (λ dep. apply dep config))
    → (o : Option A) → IsExtension (when_set apply o)
when_set-IsExtension apply h none = done-IsExtension
when_set-IsExtension apply h (some config) = h config

pub auth-IsExtension :
    (config : Option AuthSpec) (root_shard_name : String) (shard_names : List String)
    → IsExtension (λ dep. apply_auth_configuration dep config root_shard_name shard_names)
unfolding apply_auth_configuration
auth-IsExtension none root_shard_name shard_names = done-IsExtension
auth-IsExtension (some config) root_shard_name shard_names =
    bind-IsExtension _ _
      (when_set-IsExtension apply_oidc_configuration oidc-IsExtension config.oidc)
      (bind-IsExtension _ _
        (when_set-IsExtension apply_authentication_webhook_configuration
          authentication_webhook-IsExtension config.webhook)
        (bind-IsExtension _ _
          (when_set-IsExtension apply_token_auth_file token_auth_file-IsExtension
            config.token_auth_file)
          (when_set-IsExtension (service_account_step root_shard_name shard_names)
            (λ sa. service_account_step-IsExtension root_shard_name shard_names sa.enabled)
            config.service_account)))
