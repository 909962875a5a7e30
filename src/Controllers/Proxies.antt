-- ===== src/Controllers/Proxies.antt =====
-- Reconcile of internal/resources/frontproxy/reconciler.go with the bundles of ca_bundle.go, and
-- pkg/controller/frontproxy/controller.go.
use kcp_operator.Prelude.{
  String, ◌<>◌, Bool, Option, none, some, List, [], ◌∷◌, ◌⊎◌, inl, inr, if◌then◌else◌,
}
use kcp_operator.Prelude.Maps.{Map, lookup}
use kcp_operator.Api.Objects.{Shard, RootShard, FrontProxy}
use kcp_operator.Names.Defaults.{client_ca, server_ca}
use kcp_operator.Names.Certificates.{get_root_shard_ca_name}
use kcp_operator.Compile.{compiled_front_proxy_reconciler, mutate_keys}
use kcp_operator.Render.Pods.{Outcome, done, ◌>>=◌}
use kcp_operator.Status.{Certificate, certificate_revisions}
use kcp_operator.Children.{fetch_root_shard, get_root_shard_children}
use kcp_operator.Certificates.{CertificateLibrary, NamedCertificateReconciler}
use kcp_operator.Certificates.Proxies.{
  Proxy, server_certificate_reconciler, kubeconfig_certificate_reconciler,
  requestheader_certificate_reconciler,
}
use kcp_operator.Kubeconfigs.{NamedSecretReconciler}
use kcp_operator.Bundles.{Bytes, SecretReader, bundle_secret, merge_certificates}
use kcp_operator.Controllers.{
  Cluster, certificates, secrets, publish_front_proxy, Run, finished, failed, asking, or_return,
  or_note, reconcile_certificates, asked_certificates, wrapped, first_error, with_condition,
  followed_by,
}

unfoldable pub get_ca_bundle_secret_ref : Proxy → Option String
get_ca_bundle_secret_ref r = elim r.front_proxy [
  | none ↦ r.root_shard.spec.ca_bundle_secret_ref
  | some f ↦ f.spec.ca_bundle_secret_ref
]

unfoldable pub get_client_ca_bundle_secret_ref : Proxy → Option String
get_client_ca_bundle_secret_ref r = elim r.front_proxy [
  | none ↦ none
  | some f ↦ f.spec.client_ca_bundle_ref
]

unfoldable pub client_ca_bundle_secret_name : Proxy → String
client_ca_bundle_secret_name r = elim r.front_proxy [
  | none ↦ r.root_shard.name <> "-proxy-merged-client-ca"
  | some f ↦ f.name <> "-merged-client-ca"
]

unfoldable pub backend_ca_bundle_secret_name : Proxy → String
backend_ca_bundle_secret_name r = elim r.front_proxy [
  | none ↦ r.root_shard.name <> "-proxy-merged-ca-bundle"
  | some f ↦ f.name <> "-merged-ca-bundle"
]

abbrev owned_secret : Proxy → String → Bytes → NamedSecretReconciler
owned_secret r secret_name bytes = elim r.front_proxy [
  | none ↦ bundle_secret secret_name "operator.kcp.io/rootshard" r.root_shard.name (inl bytes)
  | some f ↦ bundle_secret secret_name "operator.kcp.io/front-proxy" f.name (inl bytes)
]

unfoldable pub client_ca_bundle_secret_reconciler : Proxy → List Bytes → NamedSecretReconciler
unfolding client_ca_bundle_secret_name merge_certificates
client_ca_bundle_secret_reconciler r client_cas =
    owned_secret r (client_ca_bundle_secret_name r) (merge_certificates client_cas)

unfoldable pub backend_ca_bundle_secret_reconciler : Proxy → List Bytes → NamedSecretReconciler
unfolding backend_ca_bundle_secret_name merge_certificates
backend_ca_bundle_secret_reconciler r cas =
    owned_secret r (backend_ca_bundle_secret_name r) (merge_certificates cas)

-- fetchTLSCert of the proxy, whose error names no request.
unfoldable pub fetch_proxy_cert : SecretReader → String → Bytes ⊎ String
unfolding lookup
fetch_proxy_cert get secret_name = elim (get secret_name) [
  | inr e ↦ inr e
  | inl entries ↦ elim (lookup "tls.crt" entries) [
    | none ↦ inr ("the Secret " <> secret_name <> " contains no tls.crt")
    | some bytes ↦ inl bytes
  ]
]

abbrev pub prepended : String → Bytes ⊎ String → List Bytes ⊎ String → List Bytes ⊎ String
prepended what (inr e) rest = inr ("failed to fetch " <> what <> ": " <> e)
prepended what (inl bytes) (inl certs) = inl (bytes ∷ certs)
prepended what (inl bytes) (inr e) = inr e

abbrev pub prepended_if :
    SecretReader → String → Option String → List Bytes ⊎ String → List Bytes ⊎ String
prepended_if get what none rest = rest
prepended_if get what (some secret_name) rest =
    prepended what (fetch_proxy_cert get secret_name) rest

unfoldable pub fetch_client_ca_certs : SecretReader → Proxy → List Bytes ⊎ String
unfolding fetch_proxy_cert get_root_shard_ca_name get_client_ca_bundle_secret_ref
fetch_client_ca_certs get r =
    prepended "ClientCA certificate"
      (fetch_proxy_cert get (get_root_shard_ca_name r.root_shard client_ca))
      (prepended_if get "RootShard client CA bundle" r.root_shard.spec.client_ca_bundle_ref (
        prepended_if get "additional client CA bundle" (get_client_ca_bundle_secret_ref r)
          (inl [])))

unfoldable pub fetch_backend_cas : SecretReader → Proxy → List Bytes ⊎ String
unfolding fetch_proxy_cert get_root_shard_ca_name get_ca_bundle_secret_ref
fetch_backend_cas get r =
    prepended "ServerCA certificate"
      (fetch_proxy_cert get (get_root_shard_ca_name r.root_shard server_ca))
      (prepended_if get "user CA bundle" (get_ca_bundle_secret_ref r) (inl []))

-- The Secret with the authorities of the backends, if a bundle is configured.
abbrev pub backend_secrets :
    Proxy → Option String → List Bytes ⊎ String → List NamedSecretReconciler ⊎ String
backend_secrets r none cas = inl []
backend_secrets r (some bundle) (inr e) = inr e
backend_secrets r (some bundle) (inl cas) = inl (backend_ca_bundle_secret_reconciler r cas ∷ [])

unfoldable pub secret_reconcilers : SecretReader → Proxy → List NamedSecretReconciler ⊎ String
unfolding fetch_client_ca_certs fetch_backend_cas get_ca_bundle_secret_ref
secret_reconcilers get r = elim (fetch_client_ca_certs get r) [
  | inr e ↦ inr e
  | inl client_cas ↦
      elim (backend_secrets r (get_ca_bundle_secret_ref r) (fetch_backend_cas get r)) [
        | inr e ↦ inr e
        | inl backend ↦ inl (client_ca_bundle_secret_reconciler r client_cas ∷ backend)
      ]
]

module _ (L : CertificateLibrary) where
  unfoldable pub certificate_reconcilers : Proxy → List NamedCertificateReconciler
  certificate_reconcilers r =
      server_certificate_reconciler L r
      ∷ kubeconfig_certificate_reconciler L r
      ∷ requestheader_certificate_reconciler L r
      ∷ []

  module _ (C : Cluster) where
    -- Reconcile of the proxy, with the certificates that it captures. An authority that cannot be
    -- fetched ends it before any request.
    unfoldable pub reconcile_proxy : Proxy → Run × List Certificate
    unfolding secret_reconcilers certificate_reconcilers reconcile_certificates asked_certificates
    reconcile_proxy r = elim (secret_reconcilers C.secret r) [
      | inr e ↦ (failed [] e, [])
      | inl reconcilers ↦
          let certs = certificate_reconcilers r in
          let captured = reconcile_certificates C.certificate certs in
          (
            asking (secrets reconcilers) (
                or_note (C.secrets reconcilers) (
                  asking (certificates (asked_certificates C.certificate certs))
                    (or_note captured.1 (finished [])))),
            captured.0,
          )
    ]

    unfoldable pub published : FrontProxy → RootShard → List Shard → Option (Map String) → Run
    unfolding mutate_keys
    published f root_shard shards none = finished []
    published f root_shard shards (some revisions) =
        let compiled =
          compiled_front_proxy_reconciler f root_shard shards
            (mutate_keys revisions "cert-" "-revision") in
        asking (publish_front_proxy compiled)
          (or_note (C.compiled_front_proxy compiled) (finished []))

    unfoldable pub reconcile_with : FrontProxy → RootShard → List Shard → Run
    unfolding reconcile_proxy published
    reconcile_with f root_shard shards =
        let proxy = reconcile_proxy (record { root_shard = root_shard; front_proxy = some f }) in
        followed_by L.aggregate proxy.0 "failed to reconcile"
          (published f root_shard shards (certificate_revisions proxy.1))

    abbrev listed_or_failed : FrontProxy → RootShard → List Shard × List String → Run
    listed_or_failed f root_shard children =
        or_return [] (wrapped "failed to list shards" (first_error children.1))
          (reconcile_with f root_shard children.0)

    -- reconcile of the front-proxy controller; `deleting` says that the deletion timestamp is set.
    unfoldable pub reconcile : FrontProxy → Bool → Outcome Run
    unfolding reconcile_with fetch_root_shard
    reconcile f deleting =
        let fetched = fetch_root_shard C.root_shard f.spec.root_shard in
        let run : Outcome Run = elim fetched.1 [
          | none ↦ done (finished (fetched.0 ∷ []))
          | some root_shard ↦
              (get_root_shard_children C.shards root_shard >>= (λ children.
                done (with_condition fetched.0 (listed_or_failed f root_shard children))))
        ] in
        if deleting then done (finished []) else run
