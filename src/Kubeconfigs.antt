-- ===== src/Kubeconfigs.antt =====
-- The kubeconfig files that the operator writes into Secrets, for pods that mount them: kubeconfigs.go of
-- internal/resources/shard, rootshard and cacheserver.
pub mod Shards
pub mod RootShards
pub mod CacheServers
pub mod Files
use kcp_operator.Prelude.{
  ℕ, String, ◌<>◌, Option, none, some, List, [], ◌∷◌, ◌⊎◌, inl, inr, ◌==◌, if◌then◌else◌,
}
use kcp_operator.Prelude.Maps.{Map, insert, copy}
use kcp_operator.Prelude.Decimal.{print_nat}
use kcp_operator.Api.Shard.{ExternalConfig}

pub record Cluster : Type 0 where
  pub server : String
  pub certificate_authority : String

pub record Context : Type 0 where
  pub cluster : String
  pub auth_info : String

pub record AuthInfo : Type 0 where
  pub client_certificate : String
  pub client_key : String

pub record KubeconfigFile : Type 0 where
  pub clusters : Map Cluster
  pub contexts : Map Context
  pub auth_infos : Map AuthInfo
  pub current_context : String

pub record Secret : Type 0 where
  pub name : String
  pub labels : Map String
  pub data_entries : Map (List ℕ)

-- The name of a Secret, and how it is made of the one in the cluster; the second case is an error.
pub record NamedSecretReconciler : Type 0 where
  pub name : String
  pub reconcile : Secret → Secret ⊎ String

-- The files of the pods have one cluster, one user and one context, which joins them.
abbrev pub single_context : String → String → String → Cluster → AuthInfo → KubeconfigFile
single_context server_name context_name auth_info_name cluster auth_info = record {
  clusters = (server_name, cluster) ∷ [];
  contexts = (context_name, record { cluster = server_name; auth_info = auth_info_name }) ∷ [];
  auth_infos = (auth_info_name, auth_info) ∷ [];
  current_context = context_name;
}

-- The certificate and the key in a directory where the Secret of a certificate is mounted.
abbrev pub auth_info_at : String → AuthInfo
auth_info_at mount_path = record {
  client_certificate = mount_path <> "/tls.crt";
  client_key = mount_path <> "/tls.key";
}

abbrev or_port : Option ℕ → ℕ → ℕ
or_port none port = port
or_port (some private) port = private

-- Where a root shard is reached from outside; a private name wins.
unfoldable pub external_server : ExternalConfig → String
unfolding print_nat
external_server external =
    if external.private_hostname == ""
    then "https://" <> external.hostname <> ":" <> print_nat external.port
    else "https://"
      <> external.private_hostname
      <> ":"
      <> print_nat (or_port external.private_port external.port)

-- `write` is clientcmd.Write, which returns the bytes of a file or the text of an error.
module _ (write : KubeconfigFile → List ℕ ⊎ String) where
  unfoldable pub kubeconfig_secret : String → Map String → KubeconfigFile → NamedSecretReconciler
  unfolding copy insert
  kubeconfig_secret secret_name labels file = record {
    name = secret_name;
    reconcile = λ secret. elim (write file) [
      | inl bytes ↦ inl (record secret {
        labels = copy secret.labels labels;
        data_entries = insert "kubeconfig" bytes secret.data_entries;
      })
      | inr e ↦ inr e
    ];
  }
