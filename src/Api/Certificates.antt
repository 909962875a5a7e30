-- ===== src/Api/Certificates.antt =====
-- Certificates as cert-manager takes them, with the fields that the operator sets, and the templates
-- with which a user overrides them (sdk/apis/operator/v1alpha1/common.go). The times are the texts of
-- durations.
use kcp_operator.Prelude.{String, ◌<>◌, Bool, false, Option, none, some, List, []}
use kcp_operator.Prelude.Maps.{Map, lookup}
use kcp_operator.Prelude.Decimal.{ℤ}
use kcp_operator.Api.Pod.{Metadata}

pub record ObjectReference : Type 0 where
  pub name : String
  pub kind : String
  pub group : String

pub record PrivateKey : Type 0 where
  pub algorithm : String
  pub encoding : String
  pub rotation_policy : String
  pub size : ℤ

pub record X509Subject : Type 0 where
  pub organizations : List String
  pub countries : List String
  pub organizational_units : List String
  pub localities : List String
  pub provinces : List String
  pub street_addresses : List String
  pub postal_codes : List String
  pub serial_number : String

pub record CertificateSpec : Type 0 where
  pub is_ca : Bool
  pub common_name : String
  pub secret_name : String
  pub secret_template : Option Metadata
  pub duration : Option String
  pub renew_before : Option String
  pub private_key : Option PrivateKey
  pub subject : Option X509Subject
  pub usages : List String
  pub dns_names : List String
  pub ip_addresses : List String
  pub issuer_ref : ObjectReference

pub record Certificate : Type 0 where
  pub name : String
  pub metadata : Metadata
  pub spec : CertificateSpec

-- The values that Go gives to fields that a literal leaves out.
abbrev pub empty_subject : X509Subject
empty_subject = record {
  organizations = [];
  countries = [];
  organizational_units = [];
  localities = [];
  provinces = [];
  street_addresses = [];
  postal_codes = [];
  serial_number = "";
}

abbrev pub empty_spec : CertificateSpec
empty_spec = record {
  is_ca = false;
  common_name = "";
  secret_name = "";
  secret_template = none;
  duration = none;
  renew_before = none;
  private_key = none;
  subject = none;
  usages = [];
  dns_names = [];
  ip_addresses = [];
  issuer_ref = record { name = ""; kind = ""; group = "" };
}

pub record CertificateSpecTemplate : Type 0 where
  pub subject : Option X509Subject
  pub issuer_ref : Option ObjectReference
  pub dns_names : List String
  pub ip_addresses : List String
  pub secret_template : Option Metadata
  pub duration : Option String
  pub renew_before : Option String
  pub private_key : Option PrivateKey

pub record CertificateTemplate : Type 0 where
  pub metadata : Option Metadata
  pub spec : Option CertificateSpecTemplate

abbrev or_no_template : Option CertificateTemplate → CertificateTemplate
or_no_template none = record { metadata = none; spec = none }
or_no_template (some tpl) = tpl

-- A key that is not in the map gives the empty template.
unfoldable pub certificate_template : Map CertificateTemplate → String → CertificateTemplate
unfolding lookup
certificate_template templates cert = or_no_template (lookup cert templates)

unfoldable pub ca_template : Map CertificateTemplate → String → CertificateTemplate
unfolding lookup
ca_template templates ca = or_no_template (lookup (ca <> "-ca") templates)

pub record CertificateAuthorities : Type 0 where
  pub issuer_ref : Option ObjectReference
  pub ca_secret_ref : Option String
