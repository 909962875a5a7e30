-- ===== src/Controllers.antt =====
-- The controllers that create certificates and Secrets and publish compiled objects: reconcile of
-- pkg/controller/cacheserver, shard, rootshard, frontproxy and virtualworkspace, and the loops of
-- pkg/reconciling/zz_generated_reconcile.go. A reconciliation makes each request once, so what the cluster
-- answers in it is a record, and the requests are listed in the order in which they are made.
pub mod CacheServers
pub mod Proxies
pub mod RootShards
pub mod Shards
pub mod VirtualWorkspaces
pub mod Waiting
pub mod Made
pub mod Mounted
pub mod Publishing
pub mod Deletion
pub mod Finalizers
pub mod OwnCa
pub mod Readiness
pub mod Unready
use kcp_operator.Prelude.{
  if◌then◌else◌, ◌==◌, ℕ, String, ◌<>◌, Option, none, some, List, [], ◌∷◌, ◌++◌, ◌⊎◌, Bool, true,
  false,
}
use kcp_operator.Prelude.Maps.{Map}
use kcp_operator.Api.Objects.{
  RootShard, Shard, VirtualWorkspace, CompiledRootShard, CompiledShard, CompiledCacheServer,
  CompiledFrontProxy, CompiledVirtualWorkspace,
}
use kcp_operator.Render.Pods.{Outcome, done, panic}
use kcp_operator.Status.{Certificate, Condition, Answer}
use kcp_operator.Certificates.{NamedCertificateReconciler}
use kcp_operator.Certificates.Authorities.{Issuer}
use kcp_operator.Kubeconfigs.{KubeconfigFile, NamedSecretReconciler}
use kcp_operator.Bundles.{SecretReader}

-- How ensuring a certificate ends: done, failed after the reconciler saw the certificate of the cluster,
-- or failed before. The certificate is the one before the change, and empty if there was none.
pub data Ensured : Type 0 where
  ensured : Certificate → Ensured
  not_written : Certificate → String → Ensured
  not_read : String → Ensured

-- What the cluster answers during a reconciliation; a text is an error.
pub record Cluster : Type 0 where
  pub certificate : NamedCertificateReconciler → Ensured
  pub issuer : Issuer → Option String
  pub secrets : List NamedSecretReconciler → Option String
  pub root_shard : String → RootShard ⊎ String
  pub shard : String → Shard ⊎ String
  pub virtual_workspace : String → VirtualWorkspace ⊎ String
  pub shards : List Shard ⊎ String
  pub secret : SecretReader
  pub compiled_root_shard : CompiledRootShard → Option String
  pub compiled_shard : CompiledShard → Option String
  pub compiled_cache_server : CompiledCacheServer → Option String
  pub compiled_front_proxy : CompiledFrontProxy → Option String
  pub compiled_virtual_workspace : CompiledVirtualWorkspace → Option String
  pub patch_finalizers : List String → Option String
  -- The root workspace of a root shard: whether it can be reached, and the deletion of the kcp object of
  -- a shard there.
  pub connect : RootShard → Option String
  pub delete_kcp_shard : String → Answer (Unit {0})

-- Certificates and issuers are those that the loops come to; the list of Secrets is what the code hands to
-- the library's ReconcileSecrets, whose error says that not all of them are there.
pub data Request : Type 0 where
  certificates : List NamedCertificateReconciler → Request
  issuers : List Issuer → Request
  secrets : List NamedSecretReconciler → Request
  publish_root_shard : CompiledRootShard → Request
  publish_shard : CompiledShard → Request
  publish_cache_server : CompiledCacheServer → Request
  publish_front_proxy : CompiledFrontProxy → Request
  publish_virtual_workspace : CompiledVirtualWorkspace → Request
  patch_finalizers : List String → Request
  delete_kcp_shard : String → Request

-- A reconciliation: what it asked for, and the conditions and errors that it returns.
pub record Run : Type 0 where
  pub requests : List Request
  pub conditions : List Condition
  pub errors : List String

abbrev pub finished : List Condition → Run
finished conditions = record { requests = []; conditions = conditions; errors = [] }

abbrev pub failed : List Condition → String → Run
failed conditions e = record { requests = []; conditions = conditions; errors = e ∷ [] }

abbrev pub asking : Request → Run → Run
asking request run = record run { requests = request ∷ run.requests }

-- `if err := ...; err != nil { return conditions, err }`
abbrev pub or_return : List Condition → Option String → Run → Run
or_return conditions none run = run
or_return conditions (some e) run = failed conditions e

-- `if err := ...; err != nil { errs = append(errs, err) }`
abbrev pub or_note : Option String → Run → Run
or_note none run = run
or_note (some e) run = record run { errors = e ∷ run.errors }

-- ReconcileIssuers and its siblings stop at the first error.
abbrev pub reconcile_all {ℓ} : {A : Type ℓ} → (A → Option String) → List A → Option String
reconcile_all ensure [] = none
reconcile_all ensure (x ∷ xs) =
    let rest = reconcile_all ensure xs in elim (ensure x) [ none ↦ rest | some e ↦ some e ]

-- The objects that such a loop asks for.
abbrev pub asked_all {ℓ} : {A : Type ℓ} → (A → Option String) → List A → List A
asked_all ensure [] = []
asked_all ensure (x ∷ xs) =
    let rest = asked_all ensure xs in elim (ensure x) [ none ↦ x ∷ rest | some e ↦ x ∷ [] ]

-- ReconcileCertificates, with the certificates that `modifier.Capture` collects on the way.
unfoldable pub reconcile_certificates :
    (NamedCertificateReconciler → Ensured)
    → List NamedCertificateReconciler
    → List Certificate × Option String
reconcile_certificates ensure [] = ([], none)
reconcile_certificates ensure (r ∷ rs) =
    let rest = reconcile_certificates ensure rs in
    elim (ensure r) [
      | ensured cert ↦ (cert ∷ rest.0, rest.1)
      | not_written cert e ↦
          (cert ∷ [], some ("failed to ensure Certificate " <> r.name <> ": " <> e))
      | not_read e ↦ ([], some ("failed to ensure Certificate " <> r.name <> ": " <> e))
    ]

-- The certificates that it asks for: those behind the first failure are never asked for.
unfoldable pub asked_certificates :
    (NamedCertificateReconciler → Ensured)
    → List NamedCertificateReconciler
    → List NamedCertificateReconciler
asked_certificates ensure [] = []
asked_certificates ensure (r ∷ rs) =
    let rest = asked_certificates ensure rs in
    elim (ensure r) [ ensured cert ↦ r ∷ rest | not_written cert e ↦ r ∷ [] | not_read e ↦ r ∷ [] ]

-- The text of an error, with what failed before it.
abbrev pub wrapped : String → Option String → Option String
wrapped what none = none
wrapped what (some e) = some (what <> ": " <> e)

abbrev pub first_error : List String → Option String
first_error [] = none
first_error (e ∷ es) = some e

abbrev pub with_condition : Condition → Run → Run
with_condition cond run = record run { conditions = cond ∷ run.conditions }

abbrev pub condition : String → String → String → String → Condition
condition type_name status reason message = record {
  type_name = type_name;
  status = status;
  observed_generation = 0;
  transition_time = "";
  reason = reason;
  message = message;
}

abbrev pub reference_condition : String → String → String → Condition
reference_condition = condition "ReferenceValid"

-- A reference that is set; the code tests for nil and for an empty name.
abbrev pub named : Option String → Option String
named none = none
named (some name) = if name == "" then none else some name

-- A request for Secrets, whose error is noted.
abbrev pub noting_secrets : Cluster → List NamedSecretReconciler → Run → Run
noting_secrets C reconcilers run =
    asking (secrets reconcilers) (or_note (C.secrets reconcilers) run)

abbrev pub aggregated : (List String → String) → List String → Option String
aggregated aggregate [] = none
aggregated aggregate (e ∷ es) = some (aggregate (e ∷ es))

-- One run behind another; the errors of the first are aggregated to one error of the whole.
abbrev pub followed_by : (List String → String) → Run → String → Run → Run
followed_by aggregate first what second = record {
  requests = first.requests ++ second.requests;
  conditions = first.conditions ++ second.conditions;
  errors = (or_note (wrapped what (aggregated aggregate first.errors)) second).errors;
}
