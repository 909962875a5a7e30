-- ===== src/Revisions/Detected.antt =====
-- What the labels of a pod template show of the Secrets and ConfigMaps that its pods use.
use kcp_operator.Prelude.{
  if_true, String, ◌≡◌, refl, sym, ◌∙◌, ap, subst, ◌⊎◌, inl, inr, true, some, Option-cases, List,
  [], ◌∷◌, Bool, Option,
}
use kcp_operator.Prelude.Maps.{Map, lookup, insert, copy, lookup-copy, or_else}
use kcp_operator.Revisions.{
  Resource, Reference, Fetched, found, not_found, Loaded, loaded, mount_not_found, load_error,
  load_then, reference_label, load, load_all, label_fetched, references, EnvPodTemplate,
  add_revision_labels_to_pod_spec, get_label_name, is_optional,
}
use kcp_operator.Revisions.Uses.{Uses, the_reference, is_optional-some}
use kcp_operator.Revisions.Scan.{Uses-In, In-Uses}
use kcp_operator.Revisions.Recorded.{
  In, NoCollision, Stems, IsRecorded, IsRecorded-Grows, load_all-AllKept, some-injective,
  loaded-injective, if_some, if_none,
}

module _ (hash : String → String) where
  -- The labels show the revision of an object that the pod uses, or it is optional and not there.
  abbrev pub Shows :
      (Resource → String → Fetched) → Resource → String → Option Bool → Map String → Type 0
  Shows fetch resource name flag labels =
      ((revision : String) × (fetch resource name ≡ found revision)
        × (lookup (get_label_name hash resource name) labels ≡ some revision))
      ⊎ ((flag ≡ some true) × (fetch resource name ≡ not_found))

  -- No two objects that a pod uses and that have different revisions get one label name.
  abbrev pub NoClash : (Resource → String → Fetched) → EnvPodTemplate → Type 0
  NoClash fetch ps =
      (r1 r2 : Resource) (n1 n2 : String) (f1 f2 : Option Bool)
      → Uses ps r1 n1 f1 × Uses ps r2 n2 f2
      → get_label_name hash r1 n1 ≡ get_label_name hash r2 n2
      → fetch r1 n1 ≡ fetch r2 n2

  NoClash-NoCollision :
      (fetch : Resource → String → Fetched) (ps : EnvPodTemplate)
      → NoClash fetch ps
      → NoCollision hash fetch (references ps)
  NoClash-NoCollision fetch ps h a b (i, j) e =
      let (r1, n1, f1, u1, s1) = In-Uses ps a i in
      let (r2, n2, f2, u2, s2) = In-Uses ps b j in
      let fetched = λ (r : Reference). fetch r.resource r.name in
      ap fetched s1
      ∙ h r1 r2 n1 n2 f1 f2 (u1, u2)
          (sym (ap (reference_label hash) s1) ∙ e ∙ ap (reference_label hash) s2)
      ∙ sym (ap fetched s2)

  IsRecorded-Shows :
      (fetch : Resource → String → Fetched) (resource : Resource) (name : String)
      (flag : Option Bool) (labels : Map String)
      → IsRecorded hash fetch [] (the_reference resource name flag) labels
      → Shows fetch resource name flag labels
  IsRecorded-Shows fetch resource name flag labels (inl h) = inl h
  IsRecorded-Shows fetch resource name flag labels (inr h) = inr (is_optional-some flag h.0, h.1)

  no-Stems : (fetch : Resource → String → Fetched) (all : List Reference) → Stems hash fetch all []
  unfolding lookup
  no-Stems fetch all l v e = cc e

  copied :
      (l v : String) (dst src : Map String)
      → lookup l src ≡ some v
      → lookup l (copy dst src) ≡ some v
  copied l v dst src e = lookup-copy l dst src ∙ ap (λ o. or_else o (lookup l dst)) e

  added-IsRecorded :
      (fetch : Resource → String → Fetched) (ps after : EnvPodTemplate) (s : Loaded (Map String))
      → NoCollision hash fetch (references ps)
      → load_all hash fetch (references ps) [] ≡ s
      → load_then s (λ revision_labels.
        loaded (record ps { labels = copy (copy [] ps.labels) revision_labels }))
        ≡ loaded after
      → (r : Reference) → In r (references ps)
      → IsRecorded hash fetch [] r after.labels
  added-IsRecorded fetch ps after (loaded m) agree e f r i =
      let kept =
        load_all-AllKept hash fetch (references ps) (references ps) [] m agree (λ x j. j)
          (no-Stems fetch (references ps)) e in
      subst (λ (p : EnvPodTemplate). IsRecorded hash fetch [] r p.labels) (loaded-injective f)
        (IsRecorded-Grows hash fetch (references ps) r m (copy (copy [] ps.labels) m)
          (λ l v h. copied l v (copy [] ps.labels) m h) (kept.recorded r i))
  added-IsRecorded fetch ps after mount_not_found agree e f r i = cc f
  added-IsRecorded fetch ps after (load_error m) agree e f r i = cc f

  shown_both :
      (before now : Resource → String → Fetched) (resource : Resource) (name : String)
      (flag : Option Bool) (l1 l2 : Map String)
      → l1 ≡ l2
      → (flag ≡ some true → ⊥)
      → Shows before resource name flag l1
      → Shows now resource name flag l2
      → (revision : String) × (before resource name ≡ found revision)
        × (now resource name ≡ found revision)
  shown_both before now resource name flag l1 l2 same n (inl h) (inl k) = (
    h.0,
    h.1,
    k.1
        ∙ ap found (
            some-injective
              (sym k.2 ∙ ap (lookup (get_label_name hash resource name)) (sym same) ∙ h.2)),
  )
  shown_both before now resource name flag l1 l2 same n (inr h) k = elim (n h.0) [ ]
  shown_both before now resource name flag l1 l2 same n (inl h) (inr k) = elim (n k.0) [ ]

  -- If the label names of what a pod uses do not clash, then after a rendering without an error each
  -- Secret or ConfigMap that the pod uses, by a volume or by the environment of a container or init
  -- container, is there and its label is its revision, or the use says that it is optional and
  -- there is no such object.
  pub add_revision_labels_to_pod_spec-Shows :
      (fetch : Resource → String → Fetched) (ps after : EnvPodTemplate)
      → NoClash fetch ps
      → add_revision_labels_to_pod_spec hash fetch ps ≡ loaded after
      → (resource : Resource) (name : String) (flag : Option Bool) → Uses ps resource name flag
      → Shows fetch resource name flag after.labels
  unfolding add_revision_labels_to_pod_spec
  add_revision_labels_to_pod_spec-Shows fetch ps after agree e resource name flag u =
      IsRecorded-Shows fetch resource name flag after.labels (
        added-IsRecorded fetch ps after (load_all hash fetch (references ps) [])
          (NoClash-NoCollision fetch ps agree) refl e (the_reference resource name flag)
          (Uses-In ps resource name flag u))

  -- A change of a Secret or ConfigMap restarts the pods: if a pod template is rendered at two times, the
  -- label names of what it uses clash at neither, and the labels are the same, then each Secret or
  -- ConfigMap that it uses and does not say is optional was found with the same revision both times. A
  -- use is a Secret or ConfigMap volume, or a variable or a source of the environment of a container
  -- or init container; projected volumes are none.
  pub revisions_detected :
      (before now : Resource → String → Fetched) (ps ps1 ps2 : EnvPodTemplate)
      → NoClash before ps
      → NoClash now ps
      → add_revision_labels_to_pod_spec hash before ps ≡ loaded ps1
      → add_revision_labels_to_pod_spec hash now ps ≡ loaded ps2
      → ps1.labels ≡ ps2.labels
      → (resource : Resource) (name : String) (flag : Option Bool) → Uses ps resource name flag
      → (flag ≡ some true → ⊥)
      → (revision : String) × (before resource name ≡ found revision)
        × (now resource name ≡ found revision)
  revisions_detected before now ps ps1 ps2 agree1 agree2 e1 e2 same resource name flag u needed =
      shown_both before now resource name flag ps1.labels ps2.labels same needed
        (add_revision_labels_to_pod_spec-Shows before ps ps1 agree1 e1 resource name flag u)
        (add_revision_labels_to_pod_spec-Shows now ps ps2 agree2 e2 resource name flag u)

  -- The object of a use is there, or the use says that it is optional, and the client answers that it is
  -- missing.
  abbrev pub IsAvailable : (Resource → String → Fetched) → Resource → String → Option Bool → Type 0
  IsAvailable fetch resource name flag =
      ((revision : String) × (fetch resource name ≡ found revision))
      ⊎ ((flag ≡ some true) × (fetch resource name ≡ not_found))

  abbrev HasReference : (Resource → String → Fetched) → Reference → Type 0
  HasReference fetch r =
      ((revision : String) × (fetch r.resource r.name ≡ found revision))
      ⊎ ((r.optional ≡ true) × (fetch r.resource r.name ≡ not_found))

  load_available :
      (fetch : Resource → String → Fetched) (r : Reference) (labels : Map String)
      → HasReference fetch r
      → (m : Map String) × (load hash fetch r labels ≡ loaded m)
  load_available fetch r labels a =
      let key = lookup (reference_label hash r) labels in
      let fetched = label_fetched hash fetch (fetch r.resource r.name) r labels in
      elim (Option-cases key) [
        | inr v ↦ (labels, if_some key (loaded labels) fetched v.0 v.1)
        | inl n ↦ elim a [
          | inl h ↦ (
            insert (reference_label hash r) h.0 labels,
            if_none key (loaded labels) fetched n
                ∙ ap (λ (x : Fetched). label_fetched hash fetch x r labels) h.1,
          )
          | inr h ↦ (
            labels,
            if_none key (loaded labels) fetched n
                ∙ ap (λ (x : Fetched). label_fetched hash fetch x r labels) h.1
                ∙ if_true r.optional (loaded labels) mount_not_found h.0,
          )
        ]
      ]

  load_all_available :
      (fetch : Resource → String → Fetched) (rs : List Reference) (labels : Map String)
      → ((r : Reference) → In r rs → HasReference fetch r)
      → (m : Map String) × (load_all hash fetch rs labels ≡ loaded m)
  load_all_available fetch [] labels h = (labels, refl)
  load_all_available fetch (r ∷ rs) labels h =
      let (m, e) = load_available fetch r labels (h r (inl refl)) in
      let (n, f) = load_all_available fetch rs m (λ x i. h x (inr i)) in
      (n, ap (λ (s : Loaded (Map String)). load_then s (load_all hash fetch rs)) e ∙ f)

  available_use :
      (fetch : Resource → String → Fetched) (resource : Resource) (name : String)
      (flag : Option Bool)
      → IsAvailable fetch resource name flag
      → HasReference fetch (the_reference resource name flag)
  available_use fetch resource name flag (inl h) = inl h
  available_use fetch resource name flag (inr h) = inr (ap is_optional h.0, h.1)

  available_reference :
      (fetch : Resource → String → Fetched) (ps : EnvPodTemplate)
      → ((resource : Resource) (name : String) (flag : Option Bool)
          → Uses ps resource name flag
          → IsAvailable fetch resource name flag)
      → (r : Reference) → In r (references ps)
      → HasReference fetch r
  available_reference fetch ps h r i =
      let (resource, name, flag, u, same) = In-Uses ps r i in
      subst (HasReference fetch) (sym same)
        (available_use fetch resource name flag (h resource name flag u))

  -- If every Secret or ConfigMap that a pod uses is there, or the variable or source of the environment
  -- that uses it says that it is optional and it is missing, then adding the revision labels returns
  -- no error. The object of a volume has to be there, even if the volume says that it is optional.
  pub add_revision_labels_to_pod_spec_succeeds :
      (fetch : Resource → String → Fetched) (ps : EnvPodTemplate)
      → ((resource : Resource) (name : String) (flag : Option Bool)
          → Uses ps resource name flag
          → IsAvailable fetch resource name flag)
      → (after : EnvPodTemplate) × (add_revision_labels_to_pod_spec hash fetch ps ≡ loaded after)
  unfolding add_revision_labels_to_pod_spec
  add_revision_labels_to_pod_spec_succeeds fetch ps h =
      let (m, e) = load_all_available fetch (references ps) [] (available_reference fetch ps h) in
      (
        record ps { labels = copy (copy [] ps.labels) m },
        ap
            (λ (s : Loaded (Map String)). load_then s (λ revision_labels.
              loaded (record ps { labels = copy (copy [] ps.labels) revision_labels })))
            e,
      )
