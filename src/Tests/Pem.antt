-- ===== src/Tests/Pem.antt =====
-- A small encoding of blocks, which has the laws of PEM that the bundles rely on.
use kcp_operator.Names.Defaults.{server_certificate, server_ca}
use kcp_operator.Names.Certificates.{get_shard_certificate_name, get_root_shard_ca_name}
use kcp_operator.Bundles.Authority.{replaced, with_ca, shard_bundle_lacks_server_ca}
use kcp_operator.Tests.Samples.{shard, root_shard}
use kcp_operator.Prelude.{
  ◌≢◌, eqb, if◌then◌else◌, Bool-cases, ℕ, zero, suc, ◌≡◌, refl, sym, subst, ap, ◌∙◌, ◌<◌, true,
  Option, none, some, List, [], ◌∷◌, ◌++◌, length, arith, inl, inr,
}
use kcp_operator.Prelude.Maps.{lookup}
use kcp_operator.Kubeconfigs.{Secret}
use kcp_operator.Bundles.{
  Bytes, PemBlock, PemLibrary, IsPem, IsCertificateBlock, SecretReader, merge_certificates, valid,
  validate_pem_certificate, merge_certificate_secrets,
}
use kcp_operator.Bundles.Owners.{shard_ca_bundle, root_shard_ca_bundle}
use kcp_operator.Bundles.Validation.{IsCertificate, Reads}
use kcp_operator.Bundles.Reading.{bundle, Holds, merge_certificate_secrets-Reads}

-- The bytes, each one more than it is, and a zero behind them.
abbrev written : Bytes → Bytes
written [] = 0 ∷ []
written (n ∷ ns) = suc n ∷ written ns

abbrev with_byte : ℕ → Option (Bytes × Bytes) → Option (Bytes × Bytes)
with_byte n none = none
with_byte n (some (bytes, rest)) = some (n ∷ bytes, rest)

abbrev read : Bytes → Option (Bytes × Bytes)
read [] = none
read (zero ∷ text) = some ([], text)
read (suc n ∷ text) = with_byte n (read text)

abbrev as_block : Option (Bytes × Bytes) → Option (PemBlock × Bytes)
as_block none = none
as_block (some (bytes, rest)) = some (record { type_name = "CERTIFICATE"; bytes = bytes }, rest)

abbrev decode_at : Bytes → Option (PemBlock × Bytes)
decode_at [] = none
decode_at (n ∷ text) = as_block (read text)

-- A line break is skipped.
abbrev decode : Bytes → Option (PemBlock × Bytes)
decode [] = none
decode (n ∷ text) = if eqb n 10 then decode_at text else as_block (read text)

abbrev pub pem : PemLibrary
pem = record {
  decode = decode;
  parse_certificate = λ bytes. true;
  encode = λ b. 1 ∷ written b.bytes;
}

read-written : (bytes rest : Bytes) → read (written bytes ++ rest) ≡ some (bytes, rest)
read-written [] rest = refl
read-written (n ∷ ns) rest = rw (read-written ns rest) refl

with_byte-shorter :
    (n : ℕ) (text bytes rest : Bytes) (o : Option (Bytes × Bytes))
    → ((bs : Bytes) → o ≡ some (bs, rest) → length rest < length text)
    → with_byte n o ≡ some (bytes, rest)
    → length rest < length text
with_byte-shorter n text bytes rest none h e = cc e
with_byte-shorter n text bytes rest (some (bs, other)) h e =
    let same : other ≡ rest = cc e in h bs (ap (λ r. some (bs, r)) same)

read-shorter :
    (text bytes rest : Bytes) → read text ≡ some (bytes, rest) → length rest < length text
read-shorter [] bytes rest e = cc e
read-shorter (zero ∷ text) bytes rest e =
    let same : text ≡ rest = cc e in subst (λ r. length r < suc (length text)) same (omega arith)
read-shorter (suc n ∷ text) bytes rest e =
    let h = with_byte-shorter n text bytes rest (read text) (λ bs. read-shorter text bs rest) e in
    omega arith

as_block-shorter :
    (text : Bytes) (b : PemBlock) (rest : Bytes) (o : Option (Bytes × Bytes))
    → read text ≡ o
    → as_block o ≡ some (b, rest)
    → length rest < length text
as_block-shorter text b rest none r e = cc e
as_block-shorter text b rest (some (bytes, other)) r e =
    let same : other ≡ rest = cc e in
    read-shorter text bytes rest (r ∙ ap (λ x. some (bytes, x)) same)

decode_at-shorter :
    (text : Bytes) (b : PemBlock) (rest : Bytes)
    → decode_at text ≡ some (b, rest)
    → length rest < length text
decode_at-shorter [] b rest e = cc e
decode_at-shorter (n ∷ text) b rest e =
    let h = as_block-shorter text b rest (read text) refl e in omega arith

decode-shorter :
    (text : Bytes) (b : PemBlock) (rest : Bytes)
    → decode text ≡ some (b, rest)
    → length rest < length text
decode-shorter [] b rest e = cc e
decode-shorter (n ∷ text) b rest e = elim (Bool-cases (eqb n 10)) [
  | inl ten ↦ let h = decode_at-shorter text b rest (rw ten at e) in omega arith
  | inr other ↦ let h = as_block-shorter text b rest (read text) refl (rw other at e) in omega arith
]

same_block :
    (b : PemBlock) (rest : Bytes)
    → IsCertificateBlock b
    → as_block (read (written b.bytes ++ rest)) ≡ some (b, rest)
same_block b rest w =
    rw (read-written b.bytes rest)
      (ap (λ t. some (record { type_name = t; bytes = b.bytes }, rest)) (sym w.0))

pub pem-IsPem : IsPem pem
pem-IsPem = record {
  decode-nil = refl;
  decode-shorter = decode-shorter;
  decode-encode = same_block;
  decode-newline = same_block;
}

abbrev pub cert : ℕ → PemBlock
cert n = record { type_name = "CERTIFICATE"; bytes = n ∷ 7 ∷ [] }

abbrev pub secret_with : List PemBlock → Secret
secret_with bs = record {
  name = "ca";
  labels = [];
  data_entries = ("tls.key", []) ∷ ("tls.crt", bundle pem bs) ∷ [];
}

-- One Secret holds two certificates, the other holds one.
abbrev two_secrets : List (Option Secret)
two_secrets = some (secret_with (cert 1 ∷ cert 2 ∷ [])) ∷ some (secret_with (cert 3 ∷ [])) ∷ []

is_block : (n : ℕ) → n < 256 → IsCertificate pem (cert n)
is_block n h = ((refl, (h, (omega arith, tt))), refl)

two_secrets-Holds : Holds pem pem-IsPem two_secrets ((cert 1 ∷ cert 2 ∷ []) ∷ (cert 3 ∷ []) ∷ [])
unfolding lookup
two_secrets-Holds = (
  (secret_with (cert 1 ∷ cert 2 ∷ []), refl, refl),
  (is_block 1 (omega arith), (is_block 2 (omega arith), tt)),
  ((secret_with (cert 3 ∷ []), refl, refl), (is_block 3 (omega arith), tt), tt),
)

merge_certificate_secrets-Reads_example :
    (text : Bytes) × (merge_certificate_secrets pem two_secrets ≡ some (inl text))
    × Reads pem text (cert 1 ∷ cert 2 ∷ cert 3 ∷ [])
    × (validate_pem_certificate pem text ≡ some valid)
merge_certificate_secrets-Reads_example =
    merge_certificate_secrets-Reads pem pem-IsPem two_secrets
      ((cert 1 ∷ cert 2 ∷ []) ∷ (cert 3 ∷ []) ∷ []) two_secrets-Holds

-- The server CA changes, and the bundle of a shard does not.
abbrev answers : SecretReader
answers name = inl (("tls.crt", 4 ∷ []) ∷ [])

own_name :
    get_shard_certificate_name (shard "alpha") server_certificate
    ≢ get_root_shard_ca_name (root_shard "root") server_ca
unfolding get_shard_certificate_name get_root_shard_ca_name
own_name e = cc e

no_bundle : none ≢ some (get_root_shard_ca_name (root_shard "root") server_ca)
no_bundle e = cc e

shard_bundle_lacks_server_ca_example :
    (shard_ca_bundle
        (replaced answers (get_root_shard_ca_name (root_shard "root") server_ca) (with_ca (9 ∷ [])))
        (shard "alpha")
      ≡ shard_ca_bundle answers (shard "alpha"))
    × (root_shard_ca_bundle
          (replaced answers
            (get_root_shard_ca_name (root_shard "root") server_ca)
            (with_ca (9 ∷ [])))
          (root_shard "root")
        ≡ inl (merge_certificates ((9 ∷ []) ∷ [])))
shard_bundle_lacks_server_ca_example =
    shard_bundle_lacks_server_ca answers (9 ∷ []) (shard "alpha") (root_shard "root") own_name
      no_bundle refl
