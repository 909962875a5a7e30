-- ===== src/Bundles/Reading.antt =====
-- What is read back from merged certificates (internal/resources/utils/certificates.go).
use kcp_operator.Prelude.{
  All, ℕ, ◌≡◌, refl, sym, ◌∙◌, ap, false, Option, none, some, List, [], ◌∷◌, ◌++◌, ◌⊎◌, inl, inr,
  map, append_assoc,
}
use kcp_operator.Prelude.Maps.{lookup}
use kcp_operator.Kubeconfigs.{Secret}
use kcp_operator.Certificates.{empty_list}
use kcp_operator.Bundles.{
  Bytes, PemBlock, PemLibrary, IsPem, IsCertificateBlock, valid, validate_pem_certificate, given,
  join_lines, merge_certificates, get_cert_from_secret, certs_from_secrets,
  merge_certificate_secrets,
}
use kcp_operator.Bundles.Validation.{Reads, ends, reads, AllCertificates, valid_text}

-- A bundle: its blocks, one behind the other.
abbrev pub bundle : PemLibrary → List PemBlock → Bytes
bundle P [] = []
bundle P (b ∷ bs) = P.encode b ++ bundle P bs

abbrev pub all_blocks : List (List PemBlock) → List PemBlock
all_blocks [] = []
all_blocks (bs ∷ bundles) = bs ++ all_blocks bundles

abbrev AllBlocks : List PemBlock → Type 0
AllBlocks bs = All IsCertificateBlock bs

abbrev AllBundles : List (List PemBlock) → Type 0
AllBundles bundles = All (All IsCertificateBlock) bundles

List-cases : (text : Bytes) → (text ≡ []) ⊎ ((n : ℕ) × (ns : Bytes) × (text ≡ n ∷ ns))
List-cases [] = inl refl
List-cases (n ∷ ns) = inr (n, ns, refl)

join_lines-append :
    (front back : Bytes) (more : List Bytes)
    → join_lines ((front ++ back) ∷ more) ≡ front ++ join_lines (back ∷ more)
join_lines-append front back [] = refl
join_lines-append front back (cert ∷ more) = append_assoc front back (10 ∷ join_lines (cert ∷ more))

none-ne-some : {A : Type 0} {x : A} → none ≡ some x → ⊥
none-ne-some e = cc e

module _ (P : PemLibrary) (H : IsPem P) where
  encode_not_nil :
      (b : PemBlock) (rest : Bytes) → IsCertificateBlock b → empty_list (P.encode b ++ rest) ≡ false
  encode_not_nil b rest w = elim (List-cases (P.encode b ++ rest)) [
    | inl e ↦
        let nothing = sym H.decode-nil ∙ (ap P.decode (sym e) ∙ H.decode-encode b rest w) in
        elim (none-ne-some nothing) [ ]
    | inr (n, ns, e) ↦ rw e refl
  ]

  bundle_not_nil :
      (b : PemBlock) (bs : List PemBlock)
      → IsCertificateBlock b
      → empty_list (bundle P (b ∷ bs)) ≡ false
  bundle_not_nil b bs w = encode_not_nil b (bundle P bs) w

  -- The bundles that are not empty, joined behind some blocks.
  joined_behind :
      (bundles : List (List PemBlock)) (bs : List PemBlock)
      → AllBundles bundles
      → AllBlocks bs
      → Reads P
          (join_lines (bundle P bs ∷ given (map (bundle P) bundles)))
          (bs ++ all_blocks bundles)
  joined_behind bundles (b ∷ bs) ws w =
      let more = given (map (bundle P) bundles) in
      rw (join_lines-append (P.encode b) (bundle P bs) more) (
        reads (H.decode-encode b (join_lines (bundle P bs ∷ more)) w.0)
          (joined_behind bundles bs ws w.1))
  joined_behind [] [] ws w = ends
  joined_behind ([] ∷ bundles) [] ws w = joined_behind bundles [] ws.1 tt
  joined_behind ((c ∷ cs) ∷ bundles) [] ws w =
      let more = given (map (bundle P) bundles) in
      rw (bundle_not_nil c cs ws.0.0) (
        rw (join_lines-append (P.encode c) (bundle P cs) more) (
          reads (H.decode-newline c (join_lines (bundle P cs ∷ more)) ws.0.0)
            (joined_behind bundles cs ws.1 ws.0.1)))

  -- Merging bundles of certificates gives the text of all their blocks, in their order.
  pub merge_certificates-Reads :
      (bundles : List (List PemBlock))
      → AllBundles bundles
      → Reads P (merge_certificates (map (bundle P) bundles)) (all_blocks bundles)
  unfolding merge_certificates
  merge_certificates-Reads [] ws = ends
  merge_certificates-Reads ([] ∷ bundles) ws = merge_certificates-Reads bundles ws.1
  merge_certificates-Reads ((c ∷ cs) ∷ bundles) ws =
      rw (bundle_not_nil c cs ws.0.0) (joined_behind bundles (c ∷ cs) ws.1 ws.0)

  blocks_of : (bs : List PemBlock) → AllCertificates P bs → AllBlocks bs
  blocks_of [] w = tt
  blocks_of (b ∷ bs) w = (w.0.0, blocks_of bs w.1)

  AllCertificates-append :
      (bs cs : List PemBlock)
      → AllCertificates P bs
      → AllCertificates P cs
      → AllCertificates P (bs ++ cs)
  AllCertificates-append [] cs p q = q
  AllCertificates-append (b ∷ bs) cs p q = (p.0, AllCertificates-append bs cs p.1 q)

  -- Secrets that hold bundles of certificates, or nothing.
  abbrev pub Holds : List (Option Secret) → List (List PemBlock) → Type 0
  Holds [] [] = Unit
  Holds [] (bs ∷ bundles) = ⊥
  Holds (secret ∷ secrets) [] = ⊥
  Holds (secret ∷ secrets) (bs ∷ bundles) =
      ((s : Secret) × (secret ≡ some s) × (lookup "tls.crt" s.data_entries ≡ some (bundle P bs)))
      × AllCertificates P bs
      × Holds secrets bundles

  bundle-Reads : (bs : List PemBlock) → AllCertificates P bs → Reads P (bundle P bs) bs
  bundle-Reads [] w = ends
  bundle-Reads (b ∷ bs) w = reads (H.decode-encode b (bundle P bs) w.0.0) (bundle-Reads bs w.1)

  cert_of_bundle :
      (secret : Option Secret) (s : Secret) (bs : List PemBlock)
      → secret ≡ some s
      → lookup "tls.crt" s.data_entries ≡ some (bundle P bs)
      → AllCertificates P bs
      → get_cert_from_secret P secret ≡ some (inl (some (bundle P bs)))
  unfolding get_cert_from_secret
  cert_of_bundle secret s bs here stored all = rw here (
      rw (stored, get_cert_from_secret)
        (rw (valid_text P H (bundle P bs) bs (bundle-Reads bs all) all) refl))

  certs_from_secrets-bundles :
      (secrets : List (Option Secret)) (bundles : List (List PemBlock))
      → Holds secrets bundles
      → certs_from_secrets P secrets ≡ some (inl (map (bundle P) bundles))
  unfolding certs_from_secrets
  certs_from_secrets-bundles [] [] h = refl
  certs_from_secrets-bundles [] (bs ∷ bundles) h = elim h [ ]
  certs_from_secrets-bundles (secret ∷ secrets) [] h = elim h [ ]
  certs_from_secrets-bundles (secret ∷ secrets) (bs ∷ bundles) h =
      let (s, here, stored) = h.0 in
      let cert = cert_of_bundle secret s bs here stored h.1 in
      rw (cert, certs_from_secrets) (rw (certs_from_secrets-bundles secrets bundles h.2) refl)

  AllCertificates-blocks :
      (secrets : List (Option Secret)) (bundles : List (List PemBlock))
      → Holds secrets bundles
      → AllCertificates P (all_blocks bundles)
  AllCertificates-blocks [] [] h = tt
  AllCertificates-blocks [] (bs ∷ bundles) h = elim h [ ]
  AllCertificates-blocks (secret ∷ secrets) [] h = elim h [ ]
  AllCertificates-blocks (secret ∷ secrets) (bs ∷ bundles) h =
      AllCertificates-append bs (all_blocks bundles) h.1
        (AllCertificates-blocks secrets bundles h.2)

  bundles_of :
      (secrets : List (Option Secret)) (bundles : List (List PemBlock))
      → Holds secrets bundles
      → AllBundles bundles
  bundles_of [] [] h = tt
  bundles_of [] (bs ∷ bundles) h = elim h [ ]
  bundles_of (secret ∷ secrets) [] h = elim h [ ]
  bundles_of (secret ∷ secrets) (bs ∷ bundles) h =
      (blocks_of bs h.1, bundles_of secrets bundles h.2)

  -- Let Secrets hold bundles of certificates. Then merging them gives no error, the merged text is
  -- valid, and reading it gives the blocks of all bundles in their order.
  pub merge_certificate_secrets-Reads :
      (secrets : List (Option Secret)) (bundles : List (List PemBlock))
      → Holds secrets bundles
      → (text : Bytes) × (merge_certificate_secrets P secrets ≡ some (inl text))
        × Reads P text (all_blocks bundles)
        × (validate_pem_certificate P text ≡ some valid)
  unfolding merge_certificate_secrets
  merge_certificate_secrets-Reads secrets bundles h =
      let text = merge_certificates (map (bundle P) bundles) in
      let read = merge_certificates-Reads bundles (bundles_of secrets bundles h) in
      (
        text,
        rw (certs_from_secrets-bundles secrets bundles h, merge_certificate_secrets) refl,
        read,
        valid_text P H text (all_blocks bundles) read (AllCertificates-blocks secrets bundles h),
      )
