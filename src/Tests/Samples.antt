-- ===== src/Tests/Samples.antt =====
-- Concrete objects: two shards of a root shard, and the Deployment that is in the cluster.
use kcp_operator.Prelude.{String, true, eqb, if◌then◌else◌, Option, none, some, [], ◌∷◌}
use kcp_operator.Api.Pod.{
  Volume, VolumeMount, secret, ResourceRequirements, Metadata, PodSpec, Deployment,
  DeploymentTemplate,
}
use kcp_operator.Api.Shard.{CommonShardSpec, ShardSpec, RootShardSpec, AuthSpec, OidcConfiguration}
use kcp_operator.Api.Objects.{
  CompiledShard, Shard, RootShard, FrontProxy, CacheServer, VirtualWorkspace,
}
use kcp_operator.Render.Resources.{Heap}

abbrev pub oidc : OidcConfiguration
oidc = record {
  issuer_url = "https://issuer";
  client_id = "kcp";
  client_secret = "";
  groups_claim = "groups";
  username_claim = "email";
  groups_prefix = "";
  username_prefix = "";
  ca_file_ref = some (record { name = "oidc-ca"; key = "ca.crt" });
}

abbrev pub auth : AuthSpec
auth = record {
  oidc = some oidc;
  webhook = none;
  token_auth_file = none;
  service_account = some (record { enabled = true });
}

abbrev pub requirements : ResourceRequirements
requirements = record { limits = ("memory", "4Gi") ∷ []; requests = ("memory", "3Gi") ∷ [] }

abbrev pub extra_volume : Volume
extra_volume = record { name = "encryption"; source = secret "encryption-config" }

abbrev pub extra_mount : VolumeMount
extra_mount = record { name = "encryption"; read_only = true; mount_path = "/etc/encryption" }

abbrev pub common_spec : Option ResourceRequirements → CommonShardSpec
common_spec resources = record {
  cluster_domain = "";
  shard_base_url = "";
  etcd = record {
    endpoints = "https://etcd:2379" ∷ [];
    tls_config = some (record { secret_ref = "etcd-cert" });
    prefix = "/kcp";
  };
  image = none;
  replicas = none;
  resources = resources;
  audit = none;
  authorization = none;
  auth = some auth;
  kcp_virtual_workspace = none;
  deployment_template = none;
  ca_bundle_secret_ref = none;
  client_ca_bundle_ref = none;
  extra_args = [];
  extra_volumes = extra_volume ∷ [];
  extra_volume_mounts = extra_mount ∷ [];
  logging = none;
  certificate_templates = [];
}

abbrev pub shard_spec : Option ResourceRequirements → ShardSpec
shard_spec resources = record {
  common = common_spec resources;
  root_shard = some "root";
  cache = none;
}

abbrev pub root_shard_spec : RootShardSpec
root_shard_spec = record {
  common = common_spec none;
  external = record {
    hostname = "kcp.example.com";
    port = 443;
    private_hostname = "";
    private_port = none;
  };
  cache = record { reference = none };
  proxy = none;
  certificates = record {
    issuer_ref = some (record { name = "selfsigned"; kind = "Issuer"; group = "" });
    ca_secret_ref = none;
  };
}

abbrev pub compiled : String → Option ResourceRequirements → CompiledShard
compiled name resources = record {
  name = name;
  namespace = "kcp";
  labels = [];
  annotations = [];
  spec = record {
    shard = shard_spec resources;
    root_shard = record { name = "root"; spec = root_shard_spec };
    virtual_workspace = none;
    shards = "alpha" ∷ "beta" ∷ [];
  };
}

abbrev pub shard : String → Shard
shard name = record {
  name = name;
  namespace = "kcp";
  labels = [];
  annotations = [];
  spec = shard_spec none;
}

abbrev pub root_shard : String → RootShard
root_shard name = record {
  name = name;
  namespace = "kcp";
  labels = [];
  annotations = [];
  spec = root_shard_spec;
}

abbrev pub front_proxy : String → FrontProxy
front_proxy name = record {
  name = name;
  namespace = "kcp";
  labels = [];
  annotations = [];
  spec = record {
    root_shard = some "root";
    external_hostname = "kcp.example.com";
    external = record {
      hostname = "kcp.example.com";
      port = 443;
      private_hostname = "";
      private_port = none;
    };
    auth = none;
    ca_bundle_secret_ref = none;
    client_ca_bundle_ref = none;
    certificate_templates = [];
  };
}

abbrev pub cache_server : String → CacheServer
cache_server name = record {
  name = name;
  namespace = "kcp";
  labels = [];
  annotations = [];
  spec = record {
    cluster_domain = "";
    certificates = record { issuer_ref = none; ca_secret_ref = some "own-ca" };
    certificate_templates = [];
  };
}

abbrev pub virtual_workspace : String → VirtualWorkspace
virtual_workspace name = record {
  name = name;
  namespace = "kcp";
  labels = [];
  annotations = [];
  spec = record {
    target = record { root_shard_ref = none; shard_ref = some "alpha" };
    client_ca_bundle_ref = none;
    cluster_domain = "";
    external = record {
      hostname = "vw.example.com";
      port = 443;
      private_hostname = "";
      private_port = none;
    };
    certificate_templates = [];
  };
}

abbrev pub no_metadata : Metadata
no_metadata = record { annotations = []; labels = [] }

abbrev pub empty_pod : PodSpec
empty_pod = record {
  containers = [];
  volumes = [];
  image_pull_secrets = [];
  node_selector = [];
  affinity = none;
  tolerations = [];
  host_aliases = [];
  topology_spread_constraints = [];
}

abbrev pub empty_deployment : Deployment
empty_deployment = record {
  metadata = no_metadata;
  spec = record {
    replicas = none;
    selector = [];
    template = record { metadata = no_metadata; spec = empty_pod };
  };
}

-- The package's default limits and requests, at the addresses 0 and 1.
abbrev pub defaults : Heap
defaults = record {
  next = 2;
  cell = λ a.
      if eqb a 0
      then ("memory", "2Gi") ∷ ("cpu", "2") ∷ []
      else ("memory", "1Gi") ∷ ("cpu", "1") ∷ [];
}

abbrev pub template : DeploymentTemplate
template = record {
  metadata = none;
  spec = some (record {
    template = some (record {
      metadata =
          some (record { annotations = []; labels = ("app", "mine") ∷ ("team", "infra") ∷ [] });
      spec = none;
    });
  });
}

abbrev pub selected : Deployment
selected = record empty_deployment {
  spec = record empty_deployment.spec {
    selector = ("app", "kcp") ∷ [];
    template = record empty_deployment.spec.template {
      metadata = record { annotations = []; labels = ("app", "kcp") ∷ [] };
    };
  };
}
