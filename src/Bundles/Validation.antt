-- ===== src/Bundles/Validation.antt =====
-- The loop that validates certificates (validatePEMCertificate of internal/resources/utils/certificates.go).
use kcp_operator.Prelude.{
  ℕ, zero, suc, ◌+◌, ◌≡◌, refl, ◌<◌, Bool, true, not, Option, some, List, [], ◌∷◌, inl, inr, length,
  ◌==◌, arith, if◌then◌else◌, Bool-cases, Option-cases,
}
use kcp_operator.Certificates.{empty_list}
use kcp_operator.Bundles.{
  Bytes, PemBlock, PemLibrary, IsPem, IsCertificateBlock, Verdict, valid, wrong_type, unparsable,
  remaining, validate_blocks, validate_pem_certificate,
}

-- The text is a sequence of these blocks, and nothing else.
pub data Reads (P : PemLibrary) : Bytes → List PemBlock → Type 0 where
  ends : Reads P [] []
  reads :
      {text rest : Bytes} {b : PemBlock} {bs : List PemBlock}
      → P.decode text ≡ some (b, rest)
      → Reads P rest bs
      → Reads P text (b ∷ bs)

abbrev pub IsCertificate : PemLibrary → PemBlock → Type 0
IsCertificate P b = IsCertificateBlock b × (P.parse_certificate b.bytes ≡ true)

abbrev pub AllCertificates : PemLibrary → List PemBlock → Type 0
AllCertificates P [] = Unit
AllCertificates P (b ∷ bs) = IsCertificate P b × AllCertificates P bs

-- Every text is judged: the loop ends.
judged_next :
    (text : Bytes) (b : PemBlock) (parses : Bool) (next : Option Verdict) (v : Verdict)
    → next ≡ some v
    → (w : Verdict) × ((if not (b.type_name == "CERTIFICATE")
          then some (wrong_type b.type_name)
          else (if not parses then some unparsable else next))
        ≡ some w)
judged_next text b parses next v e = elim (Bool-cases (b.type_name == "CERTIFICATE")) [
  | inr other ↦ rw other (wrong_type b.type_name, refl)
  | inl typed ↦ elim (Bool-cases parses) [
    | inr p ↦ rw (typed, p) (unparsable, refl)
    | inl p ↦ rw (typed, p) (v, e)
  ]
]

module _ (P : PemLibrary) (H : IsPem P) where
  validate_blocks_total :
      (fuel : ℕ) (text : Bytes)
      → length text < fuel
      → (v : Verdict) × (validate_blocks P fuel text ≡ some v)
  unfolding validate_blocks
  validate_blocks_total zero text h = absurd (omega arith)
  validate_blocks_total (suc fuel) text h = elim (Option-cases (P.decode text)) [
    | inl e ↦ rw (e, validate_blocks) (if empty_list text then valid else remaining, refl)
    | inr (br, e) ↦
        let smaller = H.decode-shorter text br.0 br.1 e in
        let (v, ok) = validate_blocks_total fuel br.1 (omega arith) in
        rw (e, validate_blocks)
          (judged_next text br.0 (P.parse_certificate br.0.bytes) (validate_blocks P fuel br.1) v
            ok)
  ]

  -- Every text of bytes gets a verdict: the loop of validatePEMCertificate ends on all of them.
  pub validate_pem_certificate_total :
      (text : Bytes) → (v : Verdict) × (validate_pem_certificate P text ≡ some v)
  unfolding validate_pem_certificate
  validate_pem_certificate_total text = elim (Bool-cases (empty_list text)) [
    | inl e ↦ rw e (valid, refl)
    | inr e ↦ rw e (validate_blocks_total (length text + 1) text (omega arith))
  ]

  -- A text of certificates is valid.
  valid_blocks :
      (fuel : ℕ) (text : Bytes) (bs : List PemBlock)
      → Reads P text bs
      → AllCertificates P bs
      → length text < fuel
      → validate_blocks P fuel text ≡ some valid
  unfolding validate_blocks
  valid_blocks zero text bs r all h = absurd (omega arith)
  valid_blocks (suc fuel) text bs ends all h = rw (H.decode-nil, validate_blocks) refl
  valid_blocks (suc fuel) text bs (reads {rest = rest} {b = b} {bs = more} e r) all h =
      let smaller = H.decode-shorter text b rest e in
      rw (e, validate_blocks)
        (rw (all.0.0.0, all.0.1) (valid_blocks fuel rest more r all.1 (omega arith)))

  pub valid_text :
      (text : Bytes) (bs : List PemBlock)
      → Reads P text bs
      → AllCertificates P bs
      → validate_pem_certificate P text ≡ some valid
  unfolding validate_pem_certificate
  valid_text text bs r all = elim (Bool-cases (empty_list text)) [
    | inl e ↦ rw e refl
    | inr e ↦ rw e (valid_blocks (length text + 1) text bs r all (omega arith))
  ]
