-- ===== src/Tests/Revisions.antt =====
-- Revision labels of a concrete pod.
use kcp_operator.Prelude.{
  String, ◌≡◌, refl, ap, ◌⊎◌, inl, inr, Bool, true, Option, none, some, [], ◌∷◌,
}
use kcp_operator.Prelude.Maps.{lookup, copy}
use kcp_operator.Api.Pod.{secret}
use kcp_operator.Revisions.{
  Resource, a_secret, a_config_map, Reference, Fetched, found, not_found, loaded, EnvPodTemplate,
  reference_label, references, add_revision_labels_to_pod_spec,
}
use kcp_operator.Revisions.Recorded.{In}
use kcp_operator.Revisions.Uses.{
  Uses, by_container, names_secret, names_config_map, the_reference, is_optional-some,
}
use kcp_operator.Revisions.Scan.{Uses-In}
use kcp_operator.Revisions.Detected.{
  Shows, NoClash, IsAvailable, add_revision_labels_to_pod_spec-Shows, revisions_detected,
  add_revision_labels_to_pod_spec_succeeds,
}

abbrev same_text : String → String
same_text s = s

-- A certificate is mounted, an init container takes its environment from a ConfigMap that may be missing,
-- and a container takes a variable from a Secret.
abbrev pod : EnvPodTemplate
pod = record {
  labels = ("app", "kcp") ∷ [];
  volumes = record { name = "cert"; source = secret "tls" } ∷ [];
  init_containers =
      record {
        env = [];
        env_from =
            record {
              config_map_ref = some (record { name = "settings"; optional = some true });
              secret_ref = none;
            }
            ∷ [];
      }
      ∷ [];
  containers =
      record {
        env =
            record {
              config_map_ref = none;
              secret_ref = some (record { name = "token"; optional = none });
            }
            ∷ [];
        env_from = [];
      }
      ∷ [];
}

abbrev cluster : Resource → String → Fetched
cluster a_secret name = found "7"
cluster a_config_map name = not_found

abbrev cert : Reference
cert = the_reference a_secret "tls" none

abbrev settings : Reference
settings = the_reference a_config_map "settings" (some true)

abbrev token : Reference
token = the_reference a_secret "token" none

-- The references of the pod, one by one.
three : (r : Reference) → In r (references pod) → (r ≡ cert) ⊎ ((r ≡ settings) ⊎ (r ≡ token))
three r (inl e) = inl e
three r (inr (inl e)) = inr (inl e)
three r (inr (inr (inl e))) = inr (inr e)
three r (inr (inr (inr i))) = elim i [ ]

agree :
    (a b : Reference)
    → (a ≡ cert) ⊎ ((a ≡ settings) ⊎ (a ≡ token))
    → (b ≡ cert) ⊎ ((b ≡ settings) ⊎ (b ≡ token))
    → reference_label same_text a ≡ reference_label same_text b
    → cluster a.resource a.name ≡ cluster b.resource b.name
agree a b (inl x) (inl y) e = cc (x, y)
agree a b (inl x) (inr (inl y)) e = cc (x, y, e)
agree a b (inl x) (inr (inr y)) e = cc (x, y)
agree a b (inr (inl x)) (inl y) e = cc (x, y, e)
agree a b (inr (inl x)) (inr (inl y)) e = cc (x, y)
agree a b (inr (inl x)) (inr (inr y)) e = cc (x, y, e)
agree a b (inr (inr x)) (inl y) e = cc (x, y)
agree a b (inr (inr x)) (inr (inl y)) e = cc (x, y, e)
agree a b (inr (inr x)) (inr (inr y)) e = cc (x, y)

no_clash : NoClash same_text cluster pod
no_clash r1 r2 n1 n2 f1 f2 (u1, u2) e =
    agree (the_reference r1 n1 f1) (the_reference r2 n2 f2)
      (three (the_reference r1 n1 f1) (Uses-In pod r1 n1 f1 u1))
      (three (the_reference r2 n2 f2) (Uses-In pod r2 n2 f2 u2)) e

abbrev labelled : EnvPodTemplate
labelled = record pod {
  labels =
      ("app", "kcp")
      ∷ ("operator.kcp.io/secret-token-rev", "7")
      ∷ ("operator.kcp.io/secret-tls-rev", "7")
      ∷ [];
}

runs : add_revision_labels_to_pod_spec same_text cluster pod ≡ loaded labelled
unfolding add_revision_labels_to_pod_spec lookup copy
runs = refl

token-Uses : Uses pod a_secret "token" none
token-Uses =
    by_container
      (record {
        env =
            record {
              config_map_ref = none;
              secret_ref = some (record { name = "token"; optional = none });
            }
            ∷ [];
        env_from = [];
      })
      (record {
        config_map_ref = none;
        secret_ref = some (record { name = "token"; optional = none });
      })
      (record { name = "token"; optional = none }) (inr (inl refl)) (inl (inl refl))
      (names_secret refl)

settings-Uses : Uses pod a_config_map "settings" (some true)
settings-Uses =
    by_container
      (record {
        env = [];
        env_from =
            record {
              config_map_ref = some (record { name = "settings"; optional = some true });
              secret_ref = none;
            }
            ∷ [];
      })
      (record {
        config_map_ref = some (record { name = "settings"; optional = some true });
        secret_ref = none;
      })
      (record { name = "settings"; optional = some true }) (inl (inl refl)) (inr (inl refl))
      (names_config_map refl)

add_revision_labels_to_pod_spec-Shows_example :
    Shows same_text cluster a_config_map "settings" (some true) labelled.labels
add_revision_labels_to_pod_spec-Shows_example =
    add_revision_labels_to_pod_spec-Shows same_text cluster pod labelled no_clash runs a_config_map
      "settings" (some true) settings-Uses

not_optional : (flag : Option Bool) → flag ≡ none → flag ≡ some true → ⊥
not_optional flag e f = cc (e, f)

revisions_detected_example :
    (revision : String) × (cluster a_secret "token" ≡ found revision)
    × (cluster a_secret "token" ≡ found revision)
revisions_detected_example =
    revisions_detected same_text cluster cluster pod labelled labelled no_clash no_clash runs runs
      refl a_secret "token" none token-Uses (not_optional none refl)

available :
    (resource : Resource) (name : String) (flag : Option Bool)
    → (the_reference resource name flag ≡ cert)
      ⊎ ((the_reference resource name flag ≡ settings) ⊎ (the_reference resource name flag ≡ token))
    → IsAvailable same_text cluster resource name flag
available resource name flag (inl e) = inl ("7", cc e)
available resource name flag (inr (inl e)) =
    inr (is_optional-some flag (ap (λ (x : Reference). x.optional) e), cc e)
available resource name flag (inr (inr e)) = inl ("7", cc e)

all-IsAvailable :
    (resource : Resource) (name : String) (flag : Option Bool)
    → Uses pod resource name flag
    → IsAvailable same_text cluster resource name flag
all-IsAvailable resource name flag u =
    available resource name flag
      (three (the_reference resource name flag) (Uses-In pod resource name flag u))

add_revision_labels_to_pod_spec_succeeds_example :
    (after : EnvPodTemplate) × (add_revision_labels_to_pod_spec same_text cluster pod
      ≡ loaded after)
add_revision_labels_to_pod_spec_succeeds_example =
    add_revision_labels_to_pod_spec_succeeds same_text cluster pod all-IsAvailable
