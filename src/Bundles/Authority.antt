-- ===== src/Bundles/Authority.antt =====
-- Which authorities the merged CA bundles of shards and root shards hold
-- (internal/resources/shard/ca_bundle.go and internal/resources/rootshard/ca_bundle.go).
use kcp_operator.Prelude.{
  String, ◌≡◌, refl, ap, ◌∙◌, fun_ext, ◌≢◌, ◌⊎◌, inl, inr, false, Option, none, some, List, [], ◌∷◌,
  ◌==◌, if◌then◌else◌, eq_iff, eq_refl, Bool-cases,
}
use kcp_operator.Prelude.Maps.{Map, lookup}
use kcp_operator.Api.Objects.{Shard, RootShard}
use kcp_operator.Names.Defaults.{server_certificate, server_ca}
use kcp_operator.Names.Certificates.{get_shard_certificate_name, get_root_shard_ca_name}
use kcp_operator.Bundles.{
  Bytes, SecretReader, fetch_tls_cert, fetched, fetched_if, merge_certificates,
}
use kcp_operator.Bundles.Owners.{shard_ca_bundle, root_shard_ca_bundle}

-- The same Secrets but for one, which gets another answer.
abbrev pub replaced : SecretReader → String → Map Bytes ⊎ String → SecretReader
replaced get name answer asked = if asked == name then answer else get asked

abbrev pub with_ca : Bytes → Map Bytes ⊎ String
with_ca ca = inl (("tls.crt", ca) ∷ [])

differ : (a b : String) → a ≢ b → (a == b) ≡ false
differ a b h = elim (Bool-cases (a == b)) [ inl e ↦ absurd (h ((eq_iff a b).0 e)) | inr e ↦ e ]

module _ (get : SecretReader) (name : String) (answer : Map Bytes ⊎ String) where
  fetch-replaced :
      (asked : String)
      → asked ≢ name
      → fetch_tls_cert (replaced get name answer) asked ≡ fetch_tls_cert get asked
  unfolding fetch_tls_cert
  fetch-replaced asked h = rw (differ asked name h, fetch_tls_cert) refl

  fetch-stored :
      (ca : Bytes) → answer ≡ with_ca ca → fetch_tls_cert (replaced get name answer) name ≡ inl ca
  unfolding fetch_tls_cert lookup
  fetch-stored ca e = rw (eq_refl, fetch_tls_cert) (rw e refl)

  fetched_if-replaced :
      (what : String) (asked : Option String) (k : List Bytes → Bytes ⊎ String)
      → asked ≢ some name
      → fetched_if (replaced get name answer) what asked k ≡ fetched_if get what asked k
  fetched_if-replaced what none k h = refl
  fetched_if-replaced what (some asked) k h = rw (fetch-replaced asked (λ e. h (ap some e))) refl

-- Let no Secret that the bundle of a shard is made of be that of its root shard's server CA. Then the
-- bundle does not depend on the server CA, while the bundle of a root shard without a bundle of the
-- user's is the server CA.
pub shard_bundle_lacks_server_ca :
    (get : SecretReader) (ca : Bytes) (shard : Shard) (root_shard : RootShard)
    → get_shard_certificate_name shard server_certificate
      ≢ get_root_shard_ca_name root_shard server_ca
    → shard.spec.ca_bundle_secret_ref ≢ some (get_root_shard_ca_name root_shard server_ca)
    → root_shard.spec.ca_bundle_secret_ref ≡ none
    → (shard_ca_bundle
          (replaced get (get_root_shard_ca_name root_shard server_ca) (with_ca ca))
          shard
        ≡ shard_ca_bundle get shard)
      × (root_shard_ca_bundle
            (replaced get (get_root_shard_ca_name root_shard server_ca) (with_ca ca))
            root_shard
          ≡ inl (merge_certificates (ca ∷ [])))
unfolding shard_ca_bundle root_shard_ca_bundle
shard_bundle_lacks_server_ca get ca shard root_shard own user none_given =
    let name = get_root_shard_ca_name root_shard server_ca in
    let answer = with_ca ca in
    let changed = replaced get name answer in
    let own_name = get_shard_certificate_name shard server_certificate in
    let rest = λ (g : SecretReader) (server : Bytes).
      fetched_if g "user CA bundle" shard.spec.ca_bundle_secret_ref
        (λ user. inl (merge_certificates (server ∷ user))) in
    (
      ap (λ (x : Bytes ⊎ String). fetched "ServerCA" x (rest changed))
            (fetch-replaced get name answer own_name own)
          ∙ ap (λ (k : Bytes → Bytes ⊎ String). fetched "ServerCA" (fetch_tls_cert get own_name) k)
              (fun_ext (λ (server : Bytes).
                fetched_if-replaced get name answer "user CA bundle" shard.spec.ca_bundle_secret_ref
                  (λ user. inl (merge_certificates (server ∷ user))) user)),
      rw (fetch-stored get name answer ca refl, root_shard_ca_bundle)
          (rw (none_given, root_shard_ca_bundle) refl),
    )
