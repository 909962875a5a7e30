-- ===== src/Revisions/Recorded.antt =====
-- Which revisions the labels of a pod template hold.
use kcp_operator.Prelude.{
  if_true, if_false, String, ◌≡◌, refl, sym, ◌∙◌, ap, subst, ◌⊎◌, inl, inr, true, Option, none,
  some, Option-cases, Bool-cases, List, [], ◌∷◌, ◌==◌, eq_iff, eq_refl, arith, if◌then◌else◌,
  is_some,
}
use kcp_operator.Prelude.Maps.{Map, lookup, insert, lookup-insert}
use kcp_operator.Revisions.{
  Resource, Reference, Fetched, found, not_found, broken, Loaded, loaded, mount_not_found,
  load_error, load_then, reference_label, load, load_all, label_fetched,
}

abbrev pub In : Reference → List Reference → Type 0
In r [] = ⊥
In r (x ∷ xs) = (r ≡ x) ⊎ In r xs

pub some-injective : {A : Type 0} {x y : A} → some x ≡ some y → x ≡ y
some-injective e = cc e

pub loaded-injective : {A : Type 0} {x y : A} → loaded x ≡ loaded y → x ≡ y
loaded-injective e = cc e

pub if_some :
    {A : Type 0} (o : Option String) (x y : A) (v : String)
    → o ≡ some v
    → (if is_some o then x else y) ≡ x
if_some none x y v e = cc e
if_some (some w) x y v e = refl

pub if_none :
    {A : Type 0} (o : Option String) (x y : A) → o ≡ none → (if is_some o then x else y) ≡ y
if_none none x y e = refl
if_none (some w) x y e = cc e

if_same : (k : String) (a b : Option String) → (if k == k then a else b) ≡ a
if_same k a b = ground (arith, eq_refl k)

module _ (hash : String → String) where
  -- References of a pod that have one label name are to objects of one revision: the hash of no
  -- name that the pod uses collides with that of another.
  abbrev pub NoCollision : (Resource → String → Fetched) → List Reference → Type 0
  NoCollision fetch all =
      (a b : Reference)
      → In a all × In b all
      → reference_label hash a ≡ reference_label hash b
      → fetch a.resource a.name ≡ fetch b.resource b.name

  module _ (fetch : Resource → String → Fetched) (all : List Reference) where
    -- Each label is the revision of an object that the pod refers to.
    abbrev pub Stems : Map String → Type 0
    Stems labels =
        (l revision : String)
        → lookup l labels ≡ some revision
        → (a : Reference) × In a all
          × (reference_label hash a ≡ l)
          × (fetch a.resource a.name ≡ found revision)

    abbrev pub Grows : Map String → Map String → Type 0
    Grows before after =
        (l revision : String) → lookup l before ≡ some revision → lookup l after ≡ some revision

    -- The label of a reference is the revision of the object, which is there unless it is optional.
    abbrev pub IsRecorded : Reference → Map String → Type 0
    IsRecorded r labels =
        ((revision : String) × (fetch r.resource r.name ≡ found revision)
          × (lookup (reference_label hash r) labels ≡ some revision))
        ⊎ ((r.optional ≡ true) × (fetch r.resource r.name ≡ not_found))

    record Kept (r : Reference) (before after : Map String) : Type 0 where
      stems : Stems after
      grows : Grows before after
      recorded : IsRecorded r after

    insert-Kept :
        (r : Reference) (revision : String) (labels : Map String)
        → In r all
        → fetch r.resource r.name ≡ found revision
        → lookup (reference_label hash r) labels ≡ none
        → Stems labels
        → Kept r labels (insert (reference_label hash r) revision labels)
    insert-Kept r revision labels i f fresh stems = record {
      stems = λ l v e.
          let e' = sym (lookup-insert (reference_label hash r) l revision labels) ∙ e in
          elim (Bool-cases (reference_label hash r == l)) [
            | inl same ↦ (
              r,
              i,
              (eq_iff (reference_label hash r) l).0 same,
              f ∙ ap found (ground (arith, e', same)),
            )
            | inr other ↦ stems l v (ground (arith, e', other))
          ];
      grows = λ l v e.
          lookup-insert (reference_label hash r) l revision labels
          ∙ ground (arith, e, fresh, eq_iff (reference_label hash r) l);
      recorded = inl (
        revision,
        f,
        lookup-insert (reference_label hash r) (reference_label hash r) revision labels
            ∙ if_same (reference_label hash r) (some revision)
                (lookup (reference_label hash r) labels),
      );
    }

    -- A reference whose label is there already: it stems from an object of the same revision.
    present-Kept :
        (r : Reference) (revision : String) (labels : Map String)
        → NoCollision fetch all
        → In r all
        → Stems labels
        → lookup (reference_label hash r) labels ≡ some revision
        → Kept r labels labels
    present-Kept r revision labels agree i stems e =
        let (a, j, l, f) = stems (reference_label hash r) revision e in
        record {
          stems = stems;
          grows = λ l v h. h;
          recorded = inl (revision, agree r a (i, j) (sym l) ∙ f, e);
        }

    label_fetched-Kept :
        (r : Reference) (reply : Fetched) (labels after : Map String)
        → In r all
        → Stems labels
        → lookup (reference_label hash r) labels ≡ none
        → fetch r.resource r.name ≡ reply
        → label_fetched hash fetch reply r labels ≡ loaded after
        → Kept r labels after
    label_fetched-Kept r (found v) labels after i stems fresh f e =
        subst (Kept r labels) (loaded-injective e) (insert-Kept r v labels i f fresh stems)
    label_fetched-Kept r not_found labels after i stems fresh f e = elim (Bool-cases r.optional) [
      | inl o ↦
          subst (Kept r labels)
            (loaded-injective (sym (if_true r.optional (loaded labels) mount_not_found o) ∙ e))
            (record { stems = stems; grows = λ l v h. h; recorded = inr (o, f) })
      | inr n ↦ cc (sym (if_false r.optional (loaded labels) mount_not_found n) ∙ e)
    ]
    label_fetched-Kept r (broken m) labels after i stems fresh f e = cc e

    load-Kept :
        (r : Reference) (labels after : Map String)
        → NoCollision fetch all
        → In r all
        → Stems labels
        → load hash fetch r labels ≡ loaded after
        → Kept r labels after
    load-Kept r labels after agree i stems e =
        let key = lookup (reference_label hash r) labels in
        let fetched = label_fetched hash fetch (fetch r.resource r.name) r labels in
        elim (Option-cases key) [
          | inr v ↦
              subst (Kept r labels)
                (loaded-injective (sym (if_some key (loaded labels) fetched v.0 v.1) ∙ e))
                (present-Kept r v.0 labels agree i stems v.1)
          | inl n ↦
              label_fetched-Kept r (fetch r.resource r.name) labels after i stems n refl
                (sym (if_none key (loaded labels) fetched n) ∙ e)
        ]

    pub IsRecorded-Grows :
        (r : Reference) (before after : Map String)
        → Grows before after
        → IsRecorded r before
        → IsRecorded r after
    IsRecorded-Grows r before after g (inl h) = inl (h.0, h.1, g (reference_label hash r) h.0 h.2)
    IsRecorded-Grows r before after g (inr h) = inr h

    pub record AllKept (rs : List Reference) (before after : Map String) : Type 0 where
      pub grows : Grows before after
      pub recorded : (r : Reference) → In r rs → IsRecorded r after

    step-AllKept :
        (r : Reference) (rs : List Reference) (labels after : Map String) (s : Loaded (Map String))
        → ((m : Map String) → load hash fetch r labels ≡ loaded m → Kept r labels m)
        → ((m : Map String)
            → Stems m
            → load_all hash fetch rs m ≡ loaded after
            → AllKept rs m after)
        → load hash fetch r labels ≡ s
        → load_then s (load_all hash fetch rs) ≡ loaded after
        → AllKept (r ∷ rs) labels after
    step-AllKept r rs labels after (loaded m) first rest e f =
        let k = first m e in
        let more = rest m k.stems f in
        record {
          grows = λ l v h. more.grows l v (k.grows l v h);
          recorded = λ x i. elim i [
            | inl same ↦
                subst (λ (y : Reference). IsRecorded y after) (sym same)
                  (IsRecorded-Grows r m after more.grows k.recorded)
            | inr later ↦ more.recorded x later
          ];
        }
    step-AllKept r rs labels after mount_not_found first rest e f = cc f
    step-AllKept r rs labels after (load_error m) first rest e f = cc f

    pub load_all-AllKept :
        (rs : List Reference) (labels after : Map String)
        → NoCollision fetch all
        → ((r : Reference) → In r rs → In r all)
        → Stems labels
        → load_all hash fetch rs labels ≡ loaded after
        → AllKept rs labels after
    load_all-AllKept [] labels after agree within stems e = record {
      grows = λ l v h. subst (λ (m : Map String). lookup l m ≡ some v) (loaded-injective e) h;
      recorded = λ r i. elim i [ ];
    }
    load_all-AllKept (r ∷ rs) labels after agree within stems e =
        step-AllKept r rs labels after (load hash fetch r labels)
          (λ m h. load-Kept r labels m agree (within r (inl refl)) stems h)
          (λ m st h. load_all-AllKept rs m after agree (λ x i. within x (inr i)) st h) refl e
