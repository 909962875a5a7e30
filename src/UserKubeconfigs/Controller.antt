-- ===== src/UserKubeconfigs/Controller.antt =====
-- pkg/controller/kubeconfig/controller.go
use kcp_operator.Prelude.{
  ℕ, String, ◌<>◌, Bool, false, Option, none, some, is_some, List, [], ◌∷◌, ◌++◌, ◌⊎◌, inl, inr,
  ◌==◌, ◌||◌, not, ◌&&◌, if◌then◌else◌,
}
use kcp_operator.Api.Kubeconfig.{Kubeconfig, get_certificate_name}
use kcp_operator.Api.Objects.{RootShard, Shard, FrontProxy}
use kcp_operator.Names.Defaults.{client_ca, server_ca}
use kcp_operator.Names.Certificates.{get_root_shard_ca_name}
use kcp_operator.Render.Pods.{Outcome, done, ◌>>=◌}
use kcp_operator.Status.{
  Condition, ConditionLibrary, condition_type_available, Certificate, certificate_ready,
  update_conditions,
}
use kcp_operator.Status.Phases.{ObjectStatus}
use kcp_operator.Certificates.{CertificateLibrary, NamedCertificateReconciler}
use kcp_operator.Kubeconfigs.{Secret, NamedSecretReconciler}
use kcp_operator.Bundles.{PemLibrary}
use kcp_operator.Controllers.{condition, reference_condition, named, Request, certificates, secrets}
use kcp_operator.UserKubeconfigs.{
  KubeconfigLibrary, Failure, told, Resolved, kubeconfig_secret_reconciler,
  client_certificate_reconciler,
}

-- What the cluster answers during a reconciliation; a text is an error. A certificate comes with the name
-- of its Secret, and is `none` for every error.
pub record Answers : Type 0 where
  pub root_shard : String → RootShard ⊎ String
  pub shard : String → Shard ⊎ String
  pub front_proxy : String → FrontProxy ⊎ String
  pub secret : String → Secret ⊎ String
  pub certificate : String → Option (Certificate × String)
  pub ensure_certificate : NamedCertificateReconciler → Option String
  pub ensure_secret : NamedSecretReconciler → Option String

pub record Run : Type 0 where
  pub requests : List Request
  pub conditions : List Condition
  pub failure : Option Failure

abbrev pub found_at : Option Shard → Option FrontProxy → Option Secret → RootShard → Resolved
found_at shard front_proxy ca_bundle r = record {
  root_shard = some r;
  shard = shard;
  front_proxy = front_proxy;
  ca_bundle = ca_bundle;
  client_cert_issuer = get_root_shard_ca_name r client_ca;
  server_ca = get_root_shard_ca_name r server_ca;
}

module _ (C : Answers) where
  abbrev pub at_root_shard : String → (RootShard → Resolved ⊎ String) → Resolved ⊎ String
  at_root_shard name next = elim (C.root_shard name) [
    | inl r ↦ next r
    | inr e ↦ inr ("failed to get RootShard: " <> e)
  ]

  abbrev pub via : String → Option String → (RootShard → Resolved ⊎ String) → Resolved ⊎ String
  via kind reference next = elim (named reference) [
    | none ↦ inr ("the " <> kind <> " does not reference a (valid) RootShard")
    | some name ↦ at_root_shard name next
  ]

  abbrev pub with_ca_bundle : String → FrontProxy → RootShard → Resolved ⊎ String
  with_ca_bundle namespace f r = elim f.spec.ca_bundle_secret_ref [
    | none ↦ inl (found_at none (some f) none r)
    | some name ↦ elim (C.secret name) [
      | inl bundle ↦ inl (found_at none (some f) (some bundle) r)
      | inr e ↦ inr ("failed to get CA bundle secret " <> namespace <> "/" <> name <> ": " <> e)
    ]
  ]

  -- The switch over the target.
  unfoldable pub resolve : String → Kubeconfig → Resolved ⊎ String
  unfolding get_root_shard_ca_name
  resolve namespace kc = elim kc.spec.target.root_shard_ref [
    | some name ↦ at_root_shard name (λ r. inl (found_at none none none r))
    | none ↦ elim kc.spec.target.shard_ref [
      | some name ↦ elim (C.shard name) [
        | inr e ↦ inr ("failed to get Shard: " <> e)
        | inl s ↦ via "Shard" s.spec.root_shard (λ r. inl (found_at (some s) none none r))
      ]
      | none ↦ elim kc.spec.target.front_proxy_ref [
        | some name ↦ elim (C.front_proxy name) [
          | inr e ↦ inr ("referenced FrontProxy '" <> name <> "' does not exist: " <> e)
          | inl f ↦ via "FrontProxy" f.spec.root_shard (with_ca_bundle namespace f)
        ]
        | none ↦ inr "no valid target for kubeconfig found"
      ]
    ]
  ]

  unfoldable pub get_certificate_secret : String → Option Secret ⊎ String
  unfolding certificate_ready
  get_certificate_secret name = elim (C.certificate name) [
    | none ↦ inl none
    | some (cert, secret_name) ↦
        let read : Option Secret ⊎ String = elim (C.secret secret_name) [
          | inl secret ↦ inl (some secret)
          | inr e ↦ inr e
        ] in
        if certificate_ready cert then read else inl none
  ]

  -- A Secret that is not there yet, or that could not be read, ends the reconciliation.
  abbrev pub or_wait :
      List Condition → String → Option Secret ⊎ String → (Secret → Outcome Run) → Outcome Run
  or_wait conditions what (inl none) next = done (record {
    requests = [];
    conditions =
        conditions
        ++ (condition condition_type_available "False" (what <> "SecretNotReady")
              "Server CA certificate is not ready yet"
            ∷ []);
    failure = none;
  })
  or_wait conditions what (inl (some secret)) next = next secret
  or_wait conditions what (inr e) next = done (record {
    requests = [];
    conditions =
        conditions
        ++ (condition condition_type_available "False" (what <> "SecretError")
              ("Failed to get server CA secret: " <> e)
            ∷ []);
    failure = some (told e);
  })

  abbrev pub failed : List Condition → Failure → Run
  failed conditions failure = record {
    requests = [];
    conditions = conditions;
    failure = some failure;
  }

  abbrev pub asking : Request → Run → Run
  asking request run = record run { requests = request ∷ run.requests }

  -- The last request, with the Secret of the kubeconfig.
  abbrev pub writing : List Condition → NamedSecretReconciler ⊎ Failure → Run
  writing conditions (inr failure) = failed conditions failure
  writing conditions (inl reconciler) =
      asking (secrets (reconciler ∷ [])) (elim (C.ensure_secret reconciler) [
        | some e ↦ failed conditions (told e)
        | none ↦ record {
          requests = [];
          conditions =
              conditions
              ++ (condition condition_type_available "True" "SecretsReady"
                    "Client certificate and server CA secrets are ready"
                  ∷ []);
          failure = none;
        }
      ])

  module _ (K : KubeconfigLibrary) (P : PemLibrary) (L : CertificateLibrary) where
    -- From where the target is resolved and the certificate is ensured.
    unfoldable pub reconcile_ensured : Kubeconfig → Resolved → List Condition → Outcome Run
    unfolding get_certificate_secret get_certificate_name kubeconfig_secret_reconciler
    reconcile_ensured kc found conditions =
        or_wait conditions "ClientCertificate" (get_certificate_secret (get_certificate_name kc))
          (λ cert_secret.
            or_wait conditions "ServerCA" (get_certificate_secret found.server_ca) (λ ca_secret.
              kubeconfig_secret_reconciler K P kc found ca_secret cert_secret
              >>= (λ made. done (writing conditions made))))

    unfoldable pub reconcile : String → Kubeconfig → Outcome Run
    unfolding resolve reconcile_ensured client_certificate_reconciler
    reconcile namespace kc = elim (resolve namespace kc) [
      | inr e ↦ done (failed (reference_condition "False" "ReferenceNotFound" e ∷ []) (told e))
      | inl found ↦
          let conditions =
            reference_condition "True" "ReferenceValid" "Target reference is valid" ∷ [] in
          let cert = client_certificate_reconciler L kc found.client_cert_issuer in
          let rest = reconcile_ensured kc found conditions in
          elim (C.ensure_certificate cert) [
            | some e ↦ done (asking (certificates (cert ∷ [])) (failed conditions (told e)))
            | none ↦ (rest >>= (λ run. done (asking (certificates (cert ∷ [])) run)))
          ]
    ]

-- Whether Reconcile asks for another reconciliation after five seconds.
abbrev pub any_not_ready : List Condition → Bool
any_not_ready [] = false
any_not_ready (c ∷ cs) =
    c.reason == "ClientCertificateSecretNotReady"
    || (c.reason == "ServerCASecretNotReady" || any_not_ready cs)

unfoldable pub requeues : Run → Bool
requeues run = not (is_some run.failure) && any_not_ready run.conditions

unfoldable pub get_target_name : Kubeconfig → String
get_target_name kc = elim kc.spec.target.root_shard_ref [
  | some name ↦ "RootShard/" <> name
  | none ↦ elim kc.spec.target.shard_ref [
    | some name ↦ "Shard/" <> name
    | none ↦ elim kc.spec.target.front_proxy_ref [ some name ↦ "FrontProxy/" <> name | none ↦ "" ]
  ]
]

abbrev pub kubeconfig_phase : Option Condition → String
kubeconfig_phase none = "Provisioning"
kubeconfig_phase (some c) =
    if c.status == "True"
    then "Ready"
    else (if c.status == "False" then "Failed" else "Provisioning")

-- The status that reconcileStatus arrives at.
unfoldable pub kubeconfig_status :
    ConditionLibrary → String → ℕ → List Condition → List Condition → ObjectStatus
unfolding update_conditions
kubeconfig_status L now generation old conditions =
    let cs = update_conditions L now generation old conditions in
    record { phase = kubeconfig_phase (L.find cs "ReferenceValid"); conditions = cs }
