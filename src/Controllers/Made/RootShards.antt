-- ===== src/Controllers/Made/RootShards.antt =====
-- The Secrets that the reconciliation of a root shard makes (pkg/controller/rootshard/controller.go).
use kcp_operator.Prelude.{
  if◌then◌else◌, ℕ, String, ◌<>◌, ◌≡◌, sym, ap, subst, false, Option, none, some, is_some, List, [],
  ◌∷◌, ◌++◌, map, ◌⊎◌, inl, inr, Member,
}
use kcp_operator.Api.Certificates.{ObjectReference}
use kcp_operator.Api.Objects.{Shard, RootShard}
use kcp_operator.Certificates.{CertificateLibrary, NamedCertificateReconciler}
use kcp_operator.Certificates.Authorities.{no_issuer_ref, issued_root_ca, ca_certificate_reconciler}
use kcp_operator.Certificates.Secrets.{
  secret_of, root_ca_secret, server_ca_secret, requestheader_ca_secret, client_ca_secret,
  service_account_ca_secret,
}
use kcp_operator.Kubeconfigs.{KubeconfigFile}
use kcp_operator.Controllers.{Cluster, Run}
use kcp_operator.Controllers.Publishing.{done_injective}
use kcp_operator.Controllers.RootShards
use kcp_operator.Children.{get_root_shard_children}
use kcp_operator.Render.Pods.{Outcome, done, panic, ◌>>=◌}
use kcp_operator.Certificates.Authorities.{root_ca_certificate_reconciler}
use kcp_operator.Controllers.Made.{Made, no_note, asked-Member}

-- Behind the first seven values of a list.
at_seven :
    {n a b c d e f g : String} (rest : List String)
    → Member n rest
    → Member n (a ∷ b ∷ c ∷ d ∷ e ∷ f ∷ g ∷ rest)
at_seven rest m = inr (inr (inr (inr (inr (inr (inr m))))))

module _ (L : CertificateLibrary) (write : KubeconfigFile → List ℕ ⊎ String) (C : Cluster) where
  -- What a root shard with an issuer asks for.
  abbrev pub root_certificates : RootShard → ObjectReference → List NamedCertificateReconciler
  root_certificates r ref =
      RootShards.base_certificate_reconcilers L r ++ (issued_root_ca L r ref ∷ [])

  module _ (r : RootShard) (ref : ObjectReference) (children : List Shard × List String) where
    abbrev pub MadeForRootShard : String → Type 0
    MadeForRootShard n =
        Made n (RootShards.reconcile_with L write C r (root_certificates r ref) children).requests

    abbrev authorities : List String
    authorities = map secret_of (
        map (ca_certificate_reconciler L r) RootShards.intermediate_cas
        ++ (issued_root_ca L r ref ∷ []))

    abbrev pub RootSucceeds : Type 0
    RootSucceeds =
        (RootShards.reconcile_with L write C r (root_certificates r ref) children).errors ≡ []

    root_cert :
        (n : String)
        → RootSucceeds
        → Member n (map secret_of (root_certificates r ref))
        → MadeForRootShard n
    unfolding RootShards.reconcile_with
    root_cert n ok m =
        inl (asked-Member n C.certificate (root_certificates r ref) (no_note _ _ ok) m)

    pub root_authorities :
        RootSucceeds
        → MadeForRootShard (r.name <> "-ca")
          × MadeForRootShard (r.name <> "-server-ca")
          × MadeForRootShard (r.name <> "-requestheader-client-ca")
          × MadeForRootShard (r.name <> "-client-ca")
          × MadeForRootShard (r.name <> "-service-account-ca")
    unfolding RootShards.base_certificate_reconcilers
    root_authorities ok = (
      root_cert (r.name <> "-ca") ok
          (at_seven authorities (inr (inr (inr (inr (inl (sym (root_ca_secret L r ref)))))))),
      root_cert (r.name <> "-server-ca") ok
          (at_seven authorities (inl (sym (server_ca_secret L r)))),
      root_cert (r.name <> "-requestheader-client-ca") ok
          (at_seven authorities (inr (inl (sym (requestheader_ca_secret L r))))),
      root_cert (r.name <> "-client-ca") ok
          (at_seven authorities (inr (inr (inl (sym (client_ca_secret L r)))))),
      root_cert (r.name <> "-service-account-ca") ok
          (at_seven authorities (inr (inr (inr (inl (sym (service_account_ca_secret L r))))))),
    )

  abbrev pub RootShardRuns : RootShard → ObjectReference → Run → Type 0
  RootShardRuns r ref run =
      (children : List Shard × List String) × (run
        ≡ RootShards.reconcile_with L write C r (root_certificates r ref) children)

  with_children_runs :
      (r : RootShard) (ref : ObjectReference) (run : Run)
      (children : Outcome (List Shard × List String))
      → (children
          >>= (λ ch. done (RootShards.reconcile_with L write C r (root_certificates r ref) ch)))
        ≡ done run
      → RootShardRuns r ref run
  with_children_runs r ref run (panic m) ran = cc ran
  with_children_runs r ref run (done children) ran = (children, sym (done_injective ran))

  issued :
      (r : RootShard) (ref : ObjectReference)
      → r.spec.certificates.issuer_ref ≡ some ref
      → RootShards.certificate_reconcilers L r ≡ done (root_certificates r ref)
  unfolding RootShards.certificate_reconcilers root_ca_certificate_reconciler
  issued r ref e =
      ap
        (λ (o : Option ObjectReference).
          let with_root : Outcome (List NamedCertificateReconciler) =
            elim o [ none ↦ panic no_issuer_ref | some i ↦ done (issued_root_ca L r i) ]
            >>= (λ root. done (RootShards.base_certificate_reconcilers L r ++ (root ∷ []))) in
          if is_some o then with_root else done (RootShards.base_certificate_reconcilers L r))
        e

  -- The reconciliation of a root shard that has an issuer and is not being deleted.
  pub reconcile_runs :
      (r : RootShard) (ref : ObjectReference) (run : Run)
      → r.spec.certificates.issuer_ref ≡ some ref
      → RootShards.reconcile L write C r false ≡ done run
      → RootShardRuns r ref run
  unfolding RootShards.reconcile
  reconcile_runs r ref run e ran =
      with_children_runs r ref run (get_root_shard_children C.shards r) (
        subst
          (λ (x : Outcome (List NamedCertificateReconciler)).
            (x >>= (λ certs.
              get_root_shard_children C.shards r
              >>= (λ children. done (RootShards.reconcile_with L write C r certs children))))
            ≡ done run)
          (issued r ref e) ran)
