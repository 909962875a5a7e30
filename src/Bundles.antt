-- ===== src/Bundles.antt =====
-- Bundles of certificates: the functions of internal/resources/utils/certificates.go that merge
-- certificates in PEM form, and what the merged bundles of ca_bundle.go share. A text of bytes is a list
-- of numbers.
pub mod Validation
pub mod Totality
pub mod Reading
pub mod Owners
pub mod Authority
use kcp_operator.Prelude.{
  ℕ, zero, suc, ◌+◌, ◌≡◌, ◌<◌, String, ◌<>◌, Bool, true, false, not, Option, none, some, List, [],
  ◌∷◌, ◌++◌, ◌⊎◌, inl, inr, length, ◌==◌, All, if◌then◌else◌,
}
use kcp_operator.Prelude.Maps.{Map, lookup, insert}
use kcp_operator.Api.Objects.{Shard, RootShard, VirtualWorkspace}
use kcp_operator.Names.Defaults.{server_certificate, client_ca, server_ca}
use kcp_operator.Names.Certificates.{get_shard_certificate_name, get_root_shard_ca_name}
use kcp_operator.Certificates.{empty_list}
use kcp_operator.Kubeconfigs.{Secret, NamedSecretReconciler}

abbrev pub Bytes : Type 0
Bytes = List ℕ

pub record PemBlock : Type 0 where
  pub type_name : String
  pub bytes : Bytes

-- A block that `pem.Encode` can write: its type is that of certificates, and it has bytes.
abbrev pub IsCertificateBlock : PemBlock → Type 0
IsCertificateBlock b = (b.type_name ≡ "CERTIFICATE") × All (λ n. n < 256) b.bytes

-- `pem.Decode`, which returns the next block and what comes behind it, `x509.ParseCertificate`, of which
-- only the error is read, and `pem.Encode`, which the code does not call: it says what a block is.
pub record PemLibrary : Type 0 where
  pub decode : Bytes → Option (PemBlock × Bytes)
  pub parse_certificate : Bytes → Bool
  pub encode : PemBlock → Bytes

pub record IsPem (P : PemLibrary) : Type 0 where
  pub decode-nil : P.decode [] ≡ none
  -- A decoded block was part of the text.
  pub decode-shorter :
      (text : Bytes) (b : PemBlock) (rest : Bytes)
      → P.decode text ≡ some (b, rest)
      → length rest < length text
  pub decode-encode :
      (b : PemBlock) (rest : Bytes)
      → IsCertificateBlock b
      → P.decode (P.encode b ++ rest) ≡ some (b, rest)
  -- A line break before a block is skipped.
  pub decode-newline :
      (b : PemBlock) (rest : Bytes)
      → IsCertificateBlock b
      → P.decode (10 ∷ (P.encode b ++ rest)) ≡ some (b, rest)

pub data Verdict : Type 0 where
  valid : Verdict
  wrong_type : String → Verdict
  unparsable : Verdict
  remaining : Verdict

module _ (P : PemLibrary) where
  -- The loop over the blocks; `none` if the fuel does not suffice.
  unfoldable pub validate_blocks : ℕ → Bytes → Option Verdict
  validate_blocks zero text = none
  validate_blocks (suc fuel) text = elim (P.decode text) [
    | none ↦ some (if empty_list text then valid else remaining)
    | some (block, rest) ↦
        let next = validate_blocks fuel rest in
        if not (block.type_name == "CERTIFICATE")
        then some (wrong_type block.type_name)
        else (if not (P.parse_certificate block.bytes) then some unparsable else next)
  ]

  unfoldable pub validate_pem_certificate : Bytes → Option Verdict
  unfolding validate_blocks
  validate_pem_certificate text =
      if empty_list text then some valid else validate_blocks (length text + 1) text

-- The certificates that are not empty.
abbrev pub given : List Bytes → List Bytes
given [] = []
given (cert ∷ certs) = let rest = given certs in if empty_list cert then rest else cert ∷ rest

-- `bytes.Join(merged, "\n")`
abbrev pub join_lines : List Bytes → Bytes
join_lines [] = []
join_lines (cert ∷ []) = cert
join_lines (cert ∷ other ∷ certs) = cert ++ (10 ∷ join_lines (other ∷ certs))

unfoldable pub merge_certificates : List Bytes → Bytes
merge_certificates certs = join_lines (given certs)

-- getCertFromSecret: nothing for a Secret that is not there or has no certificate, and the verdict on
-- one that is not valid. The outer `none` is the loop's fuel.
module _ (P : PemLibrary) where
  abbrev pub judged : Bytes → Option Verdict → Option (Option Bytes ⊎ Verdict)
  judged cert none = none
  judged cert (some verdict) = some (elim verdict [
    | valid ↦ inl (some cert)
    | wrong_type t ↦ inr (wrong_type t)
    | unparsable ↦ inr unparsable
    | remaining ↦ inr remaining
  ])

  unfoldable pub get_cert_from_secret : Option Secret → Option (Option Bytes ⊎ Verdict)
  unfolding lookup validate_pem_certificate
  get_cert_from_secret none = some (inl none)
  get_cert_from_secret (some secret) = elim (lookup "tls.crt" secret.data_entries) [
    | none ↦ some (inl none)
    | some cert ↦ judged cert (validate_pem_certificate P cert)
  ]

  abbrev pub with_cert :
      Option Bytes → Option (List Bytes ⊎ Verdict) → Option (List Bytes ⊎ Verdict)
  with_cert none rest = rest
  with_cert (some cert) none = none
  with_cert (some cert) (some (inl certs)) = some (inl (cert ∷ certs))
  with_cert (some cert) (some (inr verdict)) = some (inr verdict)

  -- The first Secret with a bad certificate ends the loop.
  unfoldable pub certs_from_secrets : List (Option Secret) → Option (List Bytes ⊎ Verdict)
  unfolding get_cert_from_secret
  certs_from_secrets [] = some (inl [])
  certs_from_secrets (secret ∷ secrets) =
      let rest = certs_from_secrets secrets in
      elim (get_cert_from_secret secret) [
        | none ↦ none
        | some (inl cert) ↦ with_cert cert rest
        | some (inr verdict) ↦ some (inr verdict)
      ]

  unfoldable pub merge_certificate_secrets : List (Option Secret) → Option (Bytes ⊎ Verdict)
  unfolding certs_from_secrets merge_certificates
  merge_certificate_secrets secrets = elim (certs_from_secrets secrets) [
    | none ↦ none
    | some (inl certs) ↦ some (inl (merge_certificates certs))
    | some (inr verdict) ↦ some (inr verdict)
  ]

-- The client's answer to a request for a Secret of the namespace: its data, or the text of an error.
abbrev pub SecretReader : Type 0
SecretReader = String → Map Bytes ⊎ String

unfoldable pub fetch_tls_cert : SecretReader → String → Bytes ⊎ String
unfolding lookup
fetch_tls_cert get secret_name = elim (get secret_name) [
  | inr e ↦ inr ("failed to get secret " <> secret_name <> ": " <> e)
  | inl entries ↦ elim (lookup "tls.crt" entries) [
    | none ↦ inr ("secret " <> secret_name <> " missing tls.crt")
    | some bytes ↦ inl bytes
  ]
]

-- `cert, err := fetchTLSCert(...)`, with the error wrapped, and then the rest.
abbrev pub fetched : String → Bytes ⊎ String → (Bytes → Bytes ⊎ String) → Bytes ⊎ String
fetched what (inl bytes) rest = rest bytes
fetched what (inr e) rest = inr ("failed to get " <> what <> ": " <> e)

-- A certificate that is only fetched if it is configured.
abbrev pub fetched_if :
    SecretReader → String → Option String → (List Bytes → Bytes ⊎ String) → Bytes ⊎ String
fetched_if get what none rest = rest []
fetched_if get what (some secret_name) rest =
    fetched what (fetch_tls_cert get secret_name) (λ bytes. rest (bytes ∷ []))

-- The Secret with the merged certificates, and the label of its owner.
abbrev pub bundle_secret : String → String → String → Bytes ⊎ String → NamedSecretReconciler
bundle_secret secret_name label owner merged = record {
  name = secret_name;
  reconcile = λ secret. elim merged [
    | inr e ↦ inr e
    | inl bytes ↦ inl (record secret {
      data_entries = insert "tls.crt" bytes secret.data_entries;
      labels = insert label owner secret.labels;
    })
  ];
}
