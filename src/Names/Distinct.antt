-- ===== src/Names/Distinct.antt =====
-- Names that two objects share (internal/resources/resources.go).
use text.Mathlib.TextLemmas.{append_assoc}
use kcp_operator.Prelude.{String, ◌<>◌, ◌≡◌, sym, ◌∙◌, ap}
use kcp_operator.Api.Objects.{RootShard, Shard, FrontProxy}
use kcp_operator.Names.Workloads.{get_shard_deployment_name, get_root_shard_deployment_name}
use kcp_operator.Names.Certificates.{
  get_front_proxy_certificate_name, get_root_shard_proxy_certificate_name,
}

-- The Deployments of shards and root shards share one space of names: a root shard that is named
-- like a shard with "-shard" behind it gets the Deployment name of that shard.
pub shard_deployment_collides :
    (s : Shard) (r : RootShard)
    → r.name ≡ s.name <> "-shard"
    → get_root_shard_deployment_name r ≡ get_shard_deployment_name s
unfolding get_root_shard_deployment_name get_shard_deployment_name
shard_deployment_collides s r h =
    ap (λ (n : String). n <> "-kcp") h ∙ append_assoc s.name "-shard" "-kcp"

-- A front-proxy that is named "proxy" gets, for each certificate, the name of the certificate of its
-- root shard's built-in proxy.
pub front_proxy_certificate_collides :
    (r : RootShard) (f : FrontProxy) (cert : String)
    → f.name ≡ "proxy"
    → get_front_proxy_certificate_name r f cert ≡ get_root_shard_proxy_certificate_name r cert
unfolding get_front_proxy_certificate_name get_root_shard_proxy_certificate_name
front_proxy_certificate_collides r f cert h =
    ap (λ (n : String). r.name <> "-" <> n <> "-" <> cert) h
    ∙ ap (λ (x : String). r.name <> x)
        (sym (append_assoc "-" "proxy" ("-" <> cert)) ∙ sym (append_assoc "-proxy" "-" cert))
