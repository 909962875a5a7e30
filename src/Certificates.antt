-- ===== src/Certificates.antt =====
-- The certificates that the operator asks cert-manager for: ApplyCertificateTemplate of
-- internal/resources/utils/certificates.go here, and the certificates of each component in the modules
-- below.
pub mod Urls
pub mod Secrets
pub mod Shards
pub mod RootShards
pub mod Authorities
pub mod Proxies
pub mod CacheServers
pub mod VirtualWorkspaces
use kcp_operator.Prelude.{
  ℕ, String, ◌≡◌, Bool, ◌&&◌, false, Option, none, some, is_some, List, [], ◌∷◌, ◌++◌, ◌==◌,
  contains, ltb, if◌then◌else◌,
}
use kcp_operator.Prelude.Maps.{Map}
use kcp_operator.Prelude.Decimal.{ℤ, pos, negsuc}
use kcp_operator.Api.Pod.{Metadata}
use kcp_operator.Api.Certificates.{
  ObjectReference, PrivateKey, X509Subject, CertificateSpec, Certificate, CertificateSpecTemplate,
  CertificateTemplate, empty_subject,
}
use kcp_operator.Render.Templates.{merge_maps, merge_metadata}

-- `sets.List(sets.New(xs...))` of the API machinery, `url.Parse` with `Hostname`, which gives nothing for
-- a text that is no URL, and the text of `kerrors.NewAggregate(errs)`.
pub record CertificateLibrary : Type 0 where
  pub sorted_set : List String → List String
  pub parse_hostname : String → Option String
  pub aggregate : List String → String

pub record IsSetLibrary (L : CertificateLibrary) : Type 0 where
  pub contains-sorted_set :
      (xs : List String) (a : String) → contains (L.sorted_set xs) a ≡ contains xs a

abbrev pub empty_list {ℓ} : {A : Type ℓ} → List A → Bool
empty_list [] = Bool.true
empty_list (x ∷ xs) = false

abbrev pub is_positive : ℤ → Bool
is_positive (pos n) = ltb 0 n
is_positive (negsuc n) = false

-- `if override != "" { value = override }`
abbrev pub override : String → String → String
override value new = if new == "" then value else new

abbrev pub or_option {ℓ} : {A : Type ℓ} → Option A → Option A → Option A
or_option none b = b
or_option (some a) b = some a

abbrev pub empty_metadata : Metadata
empty_metadata = record { annotations = []; labels = [] }

abbrev pub empty_private_key : PrivateKey
empty_private_key = record { algorithm = ""; encoding = ""; rotation_policy = ""; size = pos 0 }

abbrev or_value {ℓ} : {A : Type ℓ} → Option A → A → A
or_value none b = b
or_value (some a) b = a

unfoldable pub apply_certificate_private_key_template :
    Option PrivateKey → Option PrivateKey → Option PrivateKey
apply_certificate_private_key_template pk none = pk
apply_certificate_private_key_template pk (some tpl) =
    let old = or_value pk empty_private_key in
    some (record {
      algorithm = override old.algorithm tpl.algorithm;
      encoding = override old.encoding tpl.encoding;
      rotation_policy = override old.rotation_policy tpl.rotation_policy;
      size = if is_positive tpl.size then tpl.size else old.size;
    })

unfoldable pub apply_secret_template : Option Metadata → Option Metadata → Option Metadata
unfolding merge_metadata
apply_secret_template old none = old
apply_secret_template old (some tpl) =
    some (merge_metadata (or_value old empty_metadata) (some tpl))

module _ (L : CertificateLibrary) where
  unfoldable pub merge_slices : List String → List String → List String
  merge_slices a b = L.sorted_set (a ++ b)

  unfoldable pub apply_certificate_subject_template :
      Option X509Subject → Option X509Subject → Option X509Subject
  unfolding merge_slices
  apply_certificate_subject_template subj none = subj
  apply_certificate_subject_template subj (some tpl) =
      let old = or_value subj empty_subject in
      some (record {
        organizations = merge_slices old.organizations tpl.organizations;
        countries = merge_slices old.countries tpl.countries;
        organizational_units = merge_slices old.organizational_units tpl.organizational_units;
        localities = merge_slices old.localities tpl.localities;
        provinces = merge_slices old.provinces tpl.provinces;
        street_addresses = merge_slices old.street_addresses tpl.street_addresses;
        postal_codes = merge_slices old.postal_codes tpl.postal_codes;
        serial_number = override old.serial_number tpl.serial_number;
      })

  -- DNS names of a template replace those of the certificate if it names another issuer too.
  unfoldable pub merged_dns_names : List String → CertificateSpecTemplate → List String
  unfolding merge_slices
  merged_dns_names old tpl =
      if empty_list tpl.dns_names
      then old
      else (if is_some tpl.issuer_ref then tpl.dns_names else merge_slices old tpl.dns_names)

  unfoldable pub apply_certificate_spec_template :
      CertificateSpec → Option CertificateSpecTemplate → CertificateSpec
  unfolding merge_slices merged_dns_names apply_secret_template
      apply_certificate_private_key_template apply_certificate_subject_template
  apply_certificate_spec_template spec none = spec
  apply_certificate_spec_template spec (some tpl) = record spec {
    dns_names = merged_dns_names spec.dns_names tpl;
    ip_addresses = merge_slices spec.ip_addresses tpl.ip_addresses;
    duration = or_option tpl.duration spec.duration;
    renew_before = or_option tpl.renew_before spec.renew_before;
    secret_template = apply_secret_template spec.secret_template tpl.secret_template;
    issuer_ref = or_value tpl.issuer_ref spec.issuer_ref;
    private_key = apply_certificate_private_key_template spec.private_key tpl.private_key;
    subject = apply_certificate_subject_template spec.subject tpl.subject;
  }

  unfoldable pub apply_certificate_template : Certificate → CertificateTemplate → Certificate
  unfolding merge_metadata apply_certificate_spec_template
  apply_certificate_template cert tpl = record cert {
    metadata = merge_metadata cert.metadata tpl.metadata;
    spec = apply_certificate_spec_template cert.spec tpl.spec;
  }

-- The name of a certificate, and how it is made of the one in the cluster, which is empty if there is
-- none.
pub record NamedCertificateReconciler : Type 0 where
  pub name : String
  pub reconcile : Certificate → Certificate

-- `cert.SetLabels(labels)` and `cert.Spec = spec`, and then the template.
abbrev pub with_spec :
    CertificateLibrary
    → Map String
    → CertificateSpec
    → CertificateTemplate
    → Certificate
    → Certificate
with_spec L labels spec tpl cert =
    apply_certificate_template L
      (record cert { metadata = record cert.metadata { labels = labels }; spec = spec }) tpl

abbrev pub default_certificate_duration : Option String
default_certificate_duration = some "8760h0m0s"

abbrev pub default_certificate_renewal : Option String
default_certificate_renewal = some "168h0m0s"

abbrev pub default_ca_duration : Option String
default_ca_duration = some "87600h0m0s"

abbrev pub default_ca_renewal : Option String
default_ca_renewal = some "720h0m0s"

abbrev pub rsa_key : Option PrivateKey
rsa_key = some (record { algorithm = "RSA"; encoding = ""; rotation_policy = ""; size = pos 4096 })

abbrev pub labelled : Map String → Option Metadata
labelled labels = some (record { annotations = []; labels = labels })

abbrev pub in_organization : String → Option X509Subject
in_organization name = some (record empty_subject { organizations = name ∷ [] })

abbrev pub issuer : String → ObjectReference
issuer name = record { name = name; kind = "Issuer"; group = "cert-manager.io" }

abbrev pub virtual_workspaces_certificate : String
virtual_workspaces_certificate = "virtual-workspaces"

abbrev pub requestheader_certificate : String
requestheader_certificate = "requestheader"

abbrev pub kubeconfig_certificate : String
kubeconfig_certificate = "kubeconfig"

abbrev pub operator_certificate : String
operator_certificate = "kcp-operator"
