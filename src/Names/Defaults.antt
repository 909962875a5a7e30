-- ===== src/Names/Defaults.antt =====
-- Constants, image settings and shared helpers of internal/resources/resources.go, and the names of
-- certificates and certificate authorities of sdk/apis/operator/v1alpha1/common.go.
use kcp_operator.Prelude.{String, ◌<>◌, Option, none, some, List, [], ◌∷◌, ◌==◌, if◌then◌else◌}
use kcp_operator.Prelude.Maps.{Map}
use kcp_operator.Api.Shard.{ImageSpec}

abbrev pub server_certificate : String
server_certificate = "server"

abbrev pub client_certificate : String
client_certificate = "client"

abbrev pub service_account_certificate : String
service_account_certificate = "service-account"

abbrev pub mounts_proxy_client_certificate : String
mounts_proxy_client_certificate = "mounts-proxy"

abbrev pub logical_cluster_admin_certificate : String
logical_cluster_admin_certificate = "logical-cluster-admin"

abbrev pub external_logical_cluster_admin_certificate : String
external_logical_cluster_admin_certificate = "external-logical-cluster-admin"

abbrev pub root_ca : String
root_ca = "root"

abbrev pub server_ca : String
server_ca = "server"

abbrev pub service_account_ca : String
service_account_ca = "service-account"

abbrev pub client_ca : String
client_ca = "client"

abbrev pub requestheader_client_ca : String
requestheader_client_ca = "requestheader-client"

abbrev pub ca_bundle_ca : String
ca_bundle_ca = "ca-bundle"

abbrev image_repository : String
image_repository = "ghcr.io/kcp-dev/kcp"

abbrev image_tag : String
image_tag = "v0.32.3"

abbrev pub front_proxy_common_name : String
front_proxy_common_name = "kcp-front-proxy"

abbrev pub root_shard_proxy_common_name : String
root_shard_proxy_common_name = "kcp-root-shard-proxy"

or_default : String → String → String
or_default val default = if val == "" then default else val

abbrev pub cluster_domain_or_default : String → String
cluster_domain_or_default cluster_domain =
    if cluster_domain == "" then "cluster.local" else cluster_domain

-- GetImageSettings: the image, its pull secrets, and the tag from which a semantic version is read.
unfoldable pub get_image_settings : Option ImageSpec → String × List String × String
unfolding or_default
get_image_settings none = (image_repository <> ":" <> image_tag, [], image_tag)
get_image_settings (some spec) =
    let repository = or_default spec.repository image_repository in
    let tag = or_default spec.tag image_tag in
    (repository <> ":" <> tag, spec.image_pull_secrets, tag)

unfoldable pub get_resource_labels : String → String → Map String
get_resource_labels inst component =
    ("app.kubernetes.io/managed-by", "kcp-operator")
    ∷ ("app.kubernetes.io/name", "kcp")
    ∷ ("app.kubernetes.io/instance", inst)
    ∷ ("app.kubernetes.io/component", component)
    ∷ []
