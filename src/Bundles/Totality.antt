-- ===== src/Bundles/Totality.antt =====
-- Merging the certificates of Secrets always gives a result (internal/resources/utils/certificates.go).
use kcp_operator.Prelude.{◌≡◌, refl, Option-cases, Option, none, some, List, [], ◌∷◌, ◌⊎◌, inl, inr}
use kcp_operator.Prelude.Maps.{lookup}
use kcp_operator.Kubeconfigs.{Secret}
use kcp_operator.Bundles.{
  Bytes, PemLibrary, IsPem, Verdict, valid, wrong_type, unparsable, remaining, judged, with_cert,
  merge_certificates, get_cert_from_secret, certs_from_secrets, merge_certificate_secrets,
}
use kcp_operator.Bundles.Validation.{validate_pem_certificate_total}

pub sum_cases : {A B : Type 0} (x : A ⊎ B) → ((a : A) × (x ≡ inl a)) ⊎ ((b : B) × (x ≡ inr b))
sum_cases (inl a) = inl (a, refl)
sum_cases (inr b) = inr (b, refl)

module _ (P : PemLibrary) (H : IsPem P) where
  judged_total :
      (cert : Bytes) (v : Verdict)
      → (x : Option Bytes ⊎ Verdict) × (judged P cert (some v) ≡ some x)
  judged_total cert valid = (_, refl)
  judged_total cert (wrong_type t) = (_, refl)
  judged_total cert unparsable = (_, refl)
  judged_total cert remaining = (_, refl)

  get_cert_total :
      (secret : Option Secret)
      → (x : Option Bytes ⊎ Verdict) × (get_cert_from_secret P secret ≡ some x)
  unfolding get_cert_from_secret
  get_cert_total none = (inl none, refl)
  get_cert_total (some secret) = elim (Option-cases (lookup "tls.crt" secret.data_entries)) [
    | inl e ↦ (inl none, rw (e, get_cert_from_secret) refl)
    | inr (cert, e) ↦
        let (v, judged_v) = validate_pem_certificate_total P H cert in
        let (x, made) = judged_total cert v in (x, rw (e, get_cert_from_secret) (rw judged_v made))
  ]

  with_cert_total :
      (cert : Option Bytes) (rest : List Bytes ⊎ Verdict)
      → (x : List Bytes ⊎ Verdict) × (with_cert P cert (some rest) ≡ some x)
  with_cert_total none rest = (rest, refl)
  with_cert_total (some cert) (inl certs) = (inl (cert ∷ certs), refl)
  with_cert_total (some cert) (inr v) = (inr v, refl)

  certs_total :
      (secrets : List (Option Secret))
      → (x : List Bytes ⊎ Verdict) × (certs_from_secrets P secrets ≡ some x)
  unfolding certs_from_secrets
  certs_total [] = (inl [], refl)
  certs_total (secret ∷ secrets) =
      let (rest, rest_e) = certs_total secrets in
      let (got, got_e) = get_cert_total secret in
      elim (sum_cases got) [
        | inl (cert, e) ↦
            let (x, made) = with_cert_total cert rest in
            (x, rw (got_e, certs_from_secrets) (rw (e, rest_e) made))
        | inr (v, e) ↦ (inr v, rw (got_e, certs_from_secrets) (rw e refl))
      ]

  pub merge_total :
      (secrets : List (Option Secret))
      → (x : Bytes ⊎ Verdict) × (merge_certificate_secrets P secrets ≡ some x)
  unfolding merge_certificate_secrets
  merge_total secrets =
      let (certs, e) = certs_total secrets in
      elim (sum_cases certs) [
        | inl (list, l) ↦
            (inl (merge_certificates list), rw (e, merge_certificate_secrets) (rw l refl))
        | inr (v, l) ↦ (inr v, rw (e, merge_certificate_secrets) (rw l refl))
      ]
