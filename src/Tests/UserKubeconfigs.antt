-- ===== src/Tests/UserKubeconfigs.antt =====
-- The kubeconfig of a concrete user, for a front-proxy.
use kcp_operator.Prelude.{String, ◌<>◌, ◌≡◌, refl, false, none, some, [], ◌∷◌, inl, inr}
use kcp_operator.Prelude.Decimal.{print_nat}
use kcp_operator.Api.Certificates.{empty_spec}
use kcp_operator.Api.Kubeconfig.{Kubeconfig, get_target_workspace}
use kcp_operator.Render.Pods.{done}
use kcp_operator.Certificates.{empty_metadata}
use kcp_operator.UserKubeconfigs.{
  front_proxy_url, KubeconfigLibrary, UserFile, Resolved, user_file, front_proxy_config,
  start_config,
}
use kcp_operator.UserKubeconfigs.Controller.{Answers, reconcile, found_at}
use kcp_operator.UserKubeconfigs.Granted.{Names, granted, client_certificate-Names}
use kcp_operator.UserKubeconfigs.Completes.{Completes, reconcile-Completes}
use kcp_operator.UserKubeconfigs.Contexts.{LeadsToTarget, user_file-LeadsToTarget}
use kcp_operator.Tests.Samples.{root_shard, front_proxy}
use kcp_operator.Tests.Controllers.{library, library-IsSetLibrary}
use kcp_operator.Tests.Pem.{pem, pem-IsPem, secret_with, cert}

abbrev user : Kubeconfig
user = record {
  name = "jane";
  uid = "42";
  labels = [];
  deleting = false;
  finalizers = [];
  spec = record {
    target = record { root_shard_ref = none; shard_ref = none; front_proxy_ref = some "proxy" };
    username = "jane";
    groups = "developers" ∷ [];
    validity = "24h0m0s";
    secret_ref = "jane-kubeconfig";
    certificate_template = none;
    target_workspace = "root:org";
    authorization = none;
  };
  status = record { authorization = none };
}

abbrev urls : KubeconfigLibrary
urls = record {
  join_path = λ url path. inl (url <> path);
  request_path = λ workspace. "/clusters/" <> workspace;
  has_port = λ host. false;
  write = λ file. inl (1 ∷ []);
}

abbrev answers : Answers
answers = record {
  root_shard = λ name. inl (root_shard name);
  shard = λ name. inr "not found";
  front_proxy = λ name. inl (front_proxy name);
  secret = λ name. inl (secret_with (cert 1 ∷ []));
  certificate = λ name. some (
    record {
      name = name;
      revision = some 1;
      conditions = record { type_name = "Ready"; status = "True" } ∷ [];
    },
    name,
  );
  ensure_certificate = λ r. none;
  ensure_secret = λ r. none;
}

reconcile-Completes_example : Completes (reconcile answers urls pem library "kcp" user)
reconcile-Completes_example = reconcile-Completes urls pem pem-IsPem library answers "kcp" user

client_certificate-Names_example :
    Names
      (granted library library-IsSetLibrary user "root-client-ca"
        (record { name = "jane"; metadata = empty_metadata; spec = empty_spec }))
      "kubeconfig:jane"
    × ((g : String)
        → Names ("developers" ∷ []) g
        → Names
            (granted library library-IsSetLibrary user "root-client-ca"
              (record { name = "jane"; metadata = empty_metadata; spec = empty_spec }))
            g)
client_certificate-Names_example =
    client_certificate-Names library library-IsSetLibrary user "root-client-ca"
      (record { name = "jane"; metadata = empty_metadata; spec = empty_spec })

abbrev found : Resolved
found = found_at none (some (front_proxy "proxy")) none (root_shard "root")

abbrev file : UserFile
file =
    front_proxy_config "jane" (7 ∷ []) "https://kcp.example.com:443"
      "https://kcp.example.com:443/clusters/root:org"
      (start_config user (secret_with (cert 1 ∷ [])))

made : user_file urls user found (7 ∷ []) (secret_with (cert 1 ∷ [])) ≡ done (inl file)
unfolding user_file front_proxy_url print_nat get_target_workspace
made = refl

user_file-LeadsToTarget_example :
    LeadsToTarget user (7 ∷ []) (secret_with (cert 1 ∷ [])) urls found file
user_file-LeadsToTarget_example =
    user_file-LeadsToTarget user (7 ∷ []) (secret_with (cert 1 ∷ [])) urls found file made
