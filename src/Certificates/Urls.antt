-- ===== src/Certificates/Urls.antt =====
-- ExtractHostnameFromURL of internal/resources/utils/url.go, and how the DNS names of certificates use it.
use kcp_operator.Prelude.{String, Option, none, some, List, [], ◌∷◌, ◌==◌, if◌then◌else◌}
use kcp_operator.Certificates.{CertificateLibrary}

abbrev or_empty : Option String → String
or_empty none = ""
or_empty (some host) = host

module _ (L : CertificateLibrary) where
  unfoldable pub extract_hostname_from_url : String → String
  extract_hostname_from_url raw_url =
      if raw_url == "" then "" else or_empty (L.parse_hostname raw_url)

  -- The host of a base URL, if one is set and has a host.
  unfoldable pub host_of_url : String → List String
  unfolding extract_hostname_from_url
  host_of_url base_url =
      let hostname = extract_hostname_from_url base_url in
      if base_url == "" then [] else (if hostname == "" then [] else hostname ∷ [])
