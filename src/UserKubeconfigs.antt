-- ===== src/UserKubeconfigs.antt =====
-- The Secret and the certificate of a Kubeconfig object: internal/resources/kubeconfig/secret.go and
-- certificate.go. Unlike the files for pods, this one holds the certificates themselves.
pub mod Controller
pub mod Granted
pub mod Resolution
pub mod Completes
pub mod Contexts
use kcp_operator.Prelude.{
  ℕ, String, ◌<>◌, Bool, Option, none, some, is_some, List, [], ◌∷◌, ◌⊎◌, inl, inr, ◌==◌, not, ◌&&◌,
  if◌then◌else◌,
}
use kcp_operator.Prelude.Maps.{Map, lookup, insert}
use kcp_operator.Prelude.Decimal.{print_nat}
use kcp_operator.Api.Certificates.{
  CertificateTemplate, CertificateSpec, Certificate, empty_spec, empty_subject,
}
use kcp_operator.Api.Kubeconfig.{Kubeconfig, get_target_workspace, get_certificate_name}
use kcp_operator.Api.Objects.{RootShard, Shard, FrontProxy}
use kcp_operator.Names.Hosts.{get_root_shard_base_url, get_shard_base_url}
use kcp_operator.Render.Pods.{Outcome, done, panic}
use kcp_operator.Rbac.Controller.{kubeconfig_group}
use kcp_operator.Certificates.{
  CertificateLibrary, NamedCertificateReconciler, apply_certificate_template, rsa_key, labelled,
  issuer,
}
use kcp_operator.Kubeconfigs.{Context, Secret, NamedSecretReconciler}
use kcp_operator.Bundles.{Bytes, PemLibrary, Verdict, merge_certificate_secrets}

pub record EmbeddedCluster : Type 0 where
  pub server : String
  pub certificate_authority_data : Bytes

pub record EmbeddedAuthInfo : Type 0 where
  pub client_certificate_data : Bytes
  pub client_key_data : Bytes

pub record UserFile : Type 0 where
  pub clusters : Map EmbeddedCluster
  pub contexts : Map Context
  pub auth_infos : Map EmbeddedAuthInfo
  pub current_context : String

-- `url.JoinPath`, which may fail, RequestPath of a workspace path, whether `net.SplitHostPort` succeeds,
-- and `clientcmd.Write`.
pub record KubeconfigLibrary : Type 0 where
  pub join_path : String → String → String ⊎ String
  pub request_path : String → String
  pub has_port : String → Bool
  pub write : UserFile → Bytes ⊎ String

pub data Failure : Type 0 where
  told : String → Failure
  no_bundle : Failure
  unmerged : Verdict → Failure

abbrev pub base_context : String
base_context = "base"

abbrev pub shard_base_context : String
shard_base_context = "shard-base"

abbrev pub default_context : String
default_context = "default"

-- What the target of a Kubeconfig leads to; an object that its case does not read is left out.
pub record Resolved : Type 0 where
  pub root_shard : Option RootShard
  pub shard : Option Shard
  pub front_proxy : Option FrontProxy
  pub ca_bundle : Option Secret
  pub client_cert_issuer : String
  pub server_ca : String

abbrev bytes_at : String → Secret → Bytes
bytes_at key secret = elim (lookup key secret.data_entries) [ none ↦ [] | some bytes ↦ bytes ]

-- The CA bundle is there without a certificate.
abbrev pub lacks_cert : Option Secret → Bool
lacks_cert none = Bool.false
lacks_cert (some secret) = not (is_some (lookup "tls.crt" secret.data_entries))

abbrev add_cluster : Bytes → String → String → UserFile → UserFile
add_cluster ca_data cluster_name url config = record config {
  clusters =
      insert cluster_name (record { server = url; certificate_authority_data = ca_data })
        config.clusters;
}

abbrev add_context : String → String → String → UserFile → UserFile
add_context username context_name cluster_name config = record config {
  contexts =
      insert context_name (record { cluster = cluster_name; auth_info = username }) config.contexts;
}

abbrev pub user_of : Secret → EmbeddedAuthInfo
user_of cert_secret = record {
  client_certificate_data = bytes_at "tls.crt" cert_secret;
  client_key_data = bytes_at "tls.key" cert_secret;
}

-- The file before its clusters.
abbrev pub start_config : Kubeconfig → Secret → UserFile
start_config kc cert_secret = record {
  clusters = [];
  contexts = [];
  auth_infos = (kc.spec.username, user_of cert_secret) ∷ [];
  current_context = "";
}

-- The clusters and contexts for a shard or root shard, and for a front-proxy.
unfoldable pub shard_config : String → Bytes → String → String → UserFile → UserFile
unfolding insert
shard_config username ca_data server_url default_url config =
    let clusters = add_cluster ca_data base_context server_url (
      add_context username default_context default_context
        (add_cluster ca_data default_context default_url config)) in
    let contexts =
      add_context username shard_base_context base_context
        (add_context username base_context base_context clusters) in
    record contexts { current_context = default_context }

unfoldable pub front_proxy_config : String → Bytes → String → String → UserFile → UserFile
unfolding insert
front_proxy_config username ca_data server_url default_url config =
    let clusters =
      add_cluster ca_data default_context default_url
        (add_cluster ca_data base_context server_url config) in
    let contexts =
      add_context username base_context base_context
        (add_context username default_context default_context clusters) in
    record contexts { current_context = default_context }

module _ (K : KubeconfigLibrary) where
  unfoldable pub front_proxy_url : Option FrontProxy → RootShard → String
  unfolding print_nat
  front_proxy_url none root_shard =
      "https://"
      <> root_shard.spec.external.hostname
      <> ":"
      <> print_nat root_shard.spec.external.port
  front_proxy_url (some f) root_shard =
      let external = f.spec.external_hostname in
      if not (f.spec.external.hostname == "")
      then "https://" <> f.spec.external.hostname <> ":" <> print_nat f.spec.external.port
      else (if not (external == "")
          then (if K.has_port external
              then "https://" <> external
              else "https://" <> external <> ":6443")
          else "https://"
            <> root_shard.spec.external.hostname
            <> ":"
            <> print_nat root_shard.spec.external.port)

  -- The URL of the workspace behind that of the server, and the file for both.
  abbrev pub joined : Kubeconfig → String → (String → UserFile) → Outcome (UserFile ⊎ Failure)
  joined kc server_url config =
      elim (K.join_path server_url (K.request_path (get_target_workspace kc))) [
        | inl default_url ↦ done (inl (config default_url))
        | inr e ↦ done (inr (told e))
      ]

  -- The switch over the target.
  unfoldable pub user_file : Kubeconfig → Resolved → Bytes → Secret → Outcome (UserFile ⊎ Failure)
  unfolding get_target_workspace get_root_shard_base_url get_shard_base_url shard_config
      front_proxy_config front_proxy_url
  user_file kc found ca_data cert_secret =
      let start = start_config kc cert_secret in
      let user = kc.spec.username in
      elim kc.spec.target.root_shard_ref [
        | some name ↦ elim found.root_shard [
          | none ↦ panic "RootShard must be provided when kubeconfig targets one."
          | some root_shard ↦
              let url = get_root_shard_base_url root_shard in
              joined kc url (λ default_url. shard_config user ca_data url default_url start)
        ]
        | none ↦ elim kc.spec.target.shard_ref [
          | some name ↦ elim found.shard [
            | none ↦ panic "Shard must be provided when kubeconfig targets one."
            | some shard ↦
                let url = get_shard_base_url shard in
                joined kc url (λ default_url. shard_config user ca_data url default_url start)
          ]
          | none ↦ elim kc.spec.target.front_proxy_ref [
            | some name ↦ elim found.root_shard [
              | none ↦ panic "RootShard must be provided when kubeconfig targets a FrontProxy."
              | some root_shard ↦
                  let url = front_proxy_url found.front_proxy root_shard in
                  joined kc url
                    (λ default_url. front_proxy_config user ca_data url default_url start)
            ]
            | none ↦
                panic "Called reconciler for an invalid kubeconfig, this should not have happened."
          ]
        ]
      ]

  abbrev written : UserFile → Secret → Secret ⊎ String
  written config secret = elim (K.write config) [
    | inl bytes ↦
        inl (record secret { data_entries = insert "kubeconfig" bytes secret.data_entries })
    | inr e ↦ inr e
  ]

  abbrev pub secret_for : Kubeconfig → UserFile ⊎ Failure → NamedSecretReconciler ⊎ Failure
  secret_for kc (inl config) =
      inl (record { name = kc.spec.secret_ref; reconcile = written config })
  secret_for kc (inr failure) = inr failure

  abbrev pub fuel_spent : String
  fuel_spent = "the fuel of the loop over blocks is spent"

  module _ (P : PemLibrary) where
    unfoldable pub kubeconfig_secret_reconciler :
        Kubeconfig → Resolved → Secret → Secret → Outcome (NamedSecretReconciler ⊎ Failure)
    unfolding user_file merge_certificate_secrets lookup insert
    kubeconfig_secret_reconciler kc found ca_secret cert_secret =
        if lacks_cert found.ca_bundle
        then done (inr no_bundle)
        else (elim (merge_certificate_secrets P (some ca_secret ∷ found.ca_bundle ∷ [])) [
          | none ↦ panic fuel_spent
          | some (inr verdict) ↦ done (inr (unmerged verdict))
          | some (inl ca_data) ↦ elim (user_file kc found ca_data cert_secret) [
            | panic m ↦ panic m
            | done made ↦ done (secret_for kc made)
          ]
        ])

module _ (L : CertificateLibrary) where
  abbrev pub templated : Certificate → Option CertificateTemplate → Certificate
  templated cert none = cert
  templated cert (some tpl) = apply_certificate_template L cert tpl

  unfoldable pub client_certificate_reconciler : Kubeconfig → String → NamedCertificateReconciler
  unfolding apply_certificate_template get_certificate_name
  client_certificate_reconciler kc issuer_name =
      let spec : CertificateSpec = record empty_spec {
        secret_name = get_certificate_name kc;
        secret_template = labelled (("operator.kcp.io/kubeconfig", kc.name) ∷ []);
        duration = some kc.spec.validity;
        private_key = rsa_key;
        usages = "client auth" ∷ [];
        common_name = kc.spec.username;
        subject = some (record empty_subject {
          organizations = L.sorted_set (kubeconfig_group kc ∷ kc.spec.groups);
        });
        issuer_ref = issuer issuer_name;
      } in
      record {
        name = get_certificate_name kc;
        reconcile = λ cert.
            templated
              (record cert { metadata = record cert.metadata { labels = kc.labels }; spec = spec })
              kc.spec.certificate_template;
      }
