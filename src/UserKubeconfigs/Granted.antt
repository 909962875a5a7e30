-- ===== src/UserKubeconfigs/Granted.antt =====
-- The certificate of a Kubeconfig (internal/resources/kubeconfig/certificate.go) and the bindings of the RBAC
-- controller (internal/resources/kubeconfig/rbac.go), which name a group of it.
use kcp_operator.Prelude.{
  String, ◌≡◌, refl, ◌∙◌, ap, ◌||◌, eq_refl, arith, true, Option, none, some, List, [], ◌∷◌, ◌++◌,
  contains, contains-append,
}
use kcp_operator.Api.Certificates.{
  CertificateTemplate, CertificateSpecTemplate, Certificate, CertificateSpec, X509Subject,
}
use kcp_operator.Api.Kubeconfig.{Kubeconfig}
use kcp_operator.Rbac.Controller.{group_subject}
use kcp_operator.Certificates.{
  CertificateLibrary, IsSetLibrary, apply_certificate_template, apply_certificate_spec_template,
  apply_certificate_subject_template, merge_slices,
}
use kcp_operator.UserKubeconfigs.{client_certificate_reconciler, templated}

-- The groups that the API server reads from a client certificate.
abbrev pub organizations_of : Option X509Subject → List String
organizations_of none = []
organizations_of (some subject) = subject.organizations

abbrev pub Names : List String → String → Type 0
Names groups g = contains groups g ≡ true

module _ (L : CertificateLibrary) (laws : IsSetLibrary L) where
  merged-Names : (a b : List String) (g : String) → Names a g → Names (merge_slices L a b) g
  unfolding merge_slices
  merged-Names a b g h =
      laws.contains-sorted_set (a ++ b) g ∙ (contains-append a b g ∙ ap (λ x. x || contains b g) h)

  subject-Names :
      (subject : X509Subject) (tpl : Option X509Subject) (g : String)
      → Names subject.organizations g
      → Names (organizations_of (apply_certificate_subject_template L (some subject) tpl)) g
  unfolding apply_certificate_subject_template
  subject-Names subject none g h = h
  subject-Names subject (some tpl) g h = merged-Names subject.organizations tpl.organizations g h

  spec-Names :
      (spec : CertificateSpec) (subject : X509Subject) (tpl : Option CertificateSpecTemplate)
      (g : String)
      → spec.subject ≡ some subject
      → Names subject.organizations g
      → Names (organizations_of (apply_certificate_spec_template L spec tpl).subject) g
  unfolding apply_certificate_spec_template
  spec-Names spec subject none g e h = rw e h
  spec-Names spec subject (some tpl) g e h = rw e (subject-Names subject tpl.subject g h)

  templated-Names :
      (cert : Certificate) (subject : X509Subject) (tpl : Option CertificateTemplate) (g : String)
      → cert.spec.subject ≡ some subject
      → Names subject.organizations g
      → Names (organizations_of (templated L cert tpl).spec.subject) g
  unfolding apply_certificate_template
  templated-Names cert subject none g e h = rw e h
  templated-Names cert subject (some tpl) g e h = spec-Names cert.spec subject tpl.spec g e h

  module _ (kc : Kubeconfig) (issuer_name : String) (cert : Certificate) where
    -- The groups of the certificate that the Kubeconfig controller asks for.
    abbrev pub granted : List String
    granted =
        organizations_of
          ((client_certificate_reconciler L kc issuer_name).reconcile cert).spec.subject

    granted-Names :
        (g : String) → Names ((group_subject kc).name ∷ kc.spec.groups) g → Names granted g
    unfolding client_certificate_reconciler
    granted-Names g h =
        templated-Names _ _ kc.spec.certificate_template g refl
          (laws.contains-sorted_set ((group_subject kc).name ∷ kc.spec.groups) g ∙ h)

    -- Whatever template a Kubeconfig has, and whatever certificate is in the cluster: the certificate
    -- that its controller asks for carries the group to which the RBAC controller binds the roles of the
    -- Kubeconfig, and the groups of its spec.
    pub client_certificate-Names :
        Names granted (group_subject kc).name
        × ((g : String) → Names kc.spec.groups g → Names granted g)
    unfolding contains
    client_certificate-Names = (
      granted-Names (group_subject kc).name (rw eq_refl refl),
      λ g h. granted-Names g (rw (h, contains) (ground arith)),
    )
