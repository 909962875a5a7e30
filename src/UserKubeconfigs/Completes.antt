-- ===== src/UserKubeconfigs/Completes.antt =====
-- The reconciliation of a Kubeconfig (pkg/controller/kubeconfig/controller.go) ends, and reaches none of the
-- panics of internal/resources/kubeconfig/secret.go.
use kcp_operator.Prelude.{
  String, ◌≡◌, refl, Bool-cases, Option-cases, Option, none, some, List, [], ◌∷◌, ◌⊎◌, inl, inr,
}
use kcp_operator.Api.Kubeconfig.{Kubeconfig, get_target_workspace, get_certificate_name}
use kcp_operator.Render.Pods.{Outcome, done, ◌>>=◌}
use kcp_operator.Status.{Condition}
use kcp_operator.Certificates.{CertificateLibrary}
use kcp_operator.Kubeconfigs.{Secret}
use kcp_operator.Bundles.{Bytes, PemLibrary, IsPem}
use kcp_operator.Controllers.{reference_condition, certificates}
use kcp_operator.UserKubeconfigs.{
  KubeconfigLibrary, UserFile, told, unmerged, no_bundle, joined, secret_for, lacks_cert, Resolved,
  user_file, kubeconfig_secret_reconciler, client_certificate_reconciler,
}
use kcp_operator.UserKubeconfigs.Controller.{
  Answers, Run, resolve, get_certificate_secret, or_wait, writing, failed, asking,
  reconcile_ensured, reconcile,
}
use kcp_operator.Bundles.Totality.{sum_cases, merge_total}
use kcp_operator.UserKubeconfigs.Resolution.{Fits, resolve-Fits}

-- An outcome that is no panic.
abbrev pub Completes {ℓ} : {A : Type ℓ} → Outcome A → Type ℓ
Completes {A = A} o = (a : A) × (o ≡ done a)

module _ (K : KubeconfigLibrary) (kc : Kubeconfig) where
  joined-Completes :
      (url : String) (config : String → UserFile) → Completes (joined K kc url config)
  joined-Completes url config =
      elim (sum_cases (K.join_path url (K.request_path (get_target_workspace kc)))) [
        | inl (joined_url, e) ↦ (inl (config joined_url), rw (e, joined) refl)
        | inr (m, e) ↦ (inr (told m), rw (e, joined) refl)
      ]

  user_file-Completes :
      (found : Resolved) (ca_data : Bytes) (cert_secret : Secret)
      → Fits kc found
      → Completes (user_file K kc found ca_data cert_secret)
  unfolding user_file
  user_file-Completes found ca_data cert_secret (inl (name, e, (r, here))) =
      rw (e, here, user_file) (joined-Completes _ _)
  user_file-Completes found ca_data cert_secret (inr (inl (name, e1, e2, (s, here)))) =
      rw (e1, e2, here, user_file) (joined-Completes _ _)
  user_file-Completes found ca_data cert_secret (inr (inr (name, e1, e2, e3, (r, here)))) =
      rw (e1, e2, e3, here, user_file) (joined-Completes _ _)

bound-Completes :
    {A B : Type 0} (o : Outcome A) (f : A → B) → Completes o → Completes (o >>= (λ a. done (f a)))
bound-Completes o f (a, e) = (f a, rw e refl)

or_wait-Completes :
    (C : Answers) (conditions : List Condition) (what : String) (x : Option Secret ⊎ String)
    (next : Secret → Outcome Run)
    → ((s : Secret) → Completes (next s))
    → Completes (or_wait C conditions what x next)
or_wait-Completes C conditions what (inl none) next h = (_, refl)
or_wait-Completes C conditions what (inl (some secret)) next h = h secret
or_wait-Completes C conditions what (inr e) next h = (_, refl)

module _ (K : KubeconfigLibrary) (P : PemLibrary) (H : IsPem P) where
  kubeconfig_secret_reconciler-Completes :
      (kc : Kubeconfig) (found : Resolved) (ca_secret cert_secret : Secret)
      → Fits kc found
      → Completes (kubeconfig_secret_reconciler K P kc found ca_secret cert_secret)
  unfolding kubeconfig_secret_reconciler
  kubeconfig_secret_reconciler-Completes kc found ca_secret cert_secret fits =
      let (merged, merged_e) = merge_total P H (some ca_secret ∷ found.ca_bundle ∷ []) in
      elim (Bool-cases (lacks_cert found.ca_bundle)) [
        | inl lacks ↦ (inr no_bundle, rw lacks refl)
        | inr has ↦ elim (sum_cases merged) [
          | inr (v, e) ↦
              (inr (unmerged v), rw (has, merged_e, kubeconfig_secret_reconciler) (rw e refl))
          | inl (ca_data, e) ↦
              let (made, made_e) = user_file-Completes K kc found ca_data cert_secret fits in
              (
                secret_for K kc made,
                rw (has, merged_e, kubeconfig_secret_reconciler) (rw e (rw made_e refl)),
              )
        ]
      ]

  module _ (L : CertificateLibrary) (C : Answers) (namespace : String) (kc : Kubeconfig) where
    reconcile_ensured-Completes :
        (found : Resolved) (conditions : List Condition)
        → Fits kc found
        → Completes (reconcile_ensured C K P L kc found conditions)
    unfolding reconcile_ensured
    reconcile_ensured-Completes found conditions fits =
        or_wait-Completes C conditions "ClientCertificate"
          (get_certificate_secret C (get_certificate_name kc)) _
          (λ cert_secret.
            or_wait-Completes C conditions "ServerCA" (get_certificate_secret C found.server_ca) _
              (λ ca_secret.
                bound-Completes (kubeconfig_secret_reconciler K P kc found ca_secret cert_secret)
                  (writing C conditions)
                  (kubeconfig_secret_reconciler-Completes kc found ca_secret cert_secret fits)))

    -- Whatever the cluster answers, the reconciliation of a Kubeconfig ends with conditions and a
    -- result: the loop over the blocks of the CA certificates has enough fuel, and none of the panics of
    -- the code that writes the kubeconfig is reached.
    pub reconcile-Completes : Completes (reconcile C K P L namespace kc)
    unfolding reconcile
    reconcile-Completes = elim (sum_cases (resolve C namespace kc)) [
      | inr (m, e) ↦ (
        failed C (reference_condition "False" "ReferenceNotFound" m ∷ []) (told m),
        rw (e, reconcile) refl,
      )
      | inl (found, e) ↦
          let fits = resolve-Fits C namespace kc found e in
          let cert = client_certificate_reconciler L kc found.client_cert_issuer in
          let conditions =
            reference_condition "True" "ReferenceValid" "Target reference is valid" ∷ [] in
          elim (Option-cases (C.ensure_certificate cert)) [
            | inr (m, e2) ↦ (
              asking C (certificates (cert ∷ [])) (failed C conditions (told m)),
              rw (e, reconcile) (rw e2 refl),
            )
            | inl e2 ↦
                let (run, ran) = reconcile_ensured-Completes found conditions fits in
                (asking C (certificates (cert ∷ [])) run, rw (e, reconcile) (rw e2 (rw ran refl)))
          ]
    ]
