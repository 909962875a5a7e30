-- ===== src/Children/Members.antt =====
-- Which shards are the children of a root shard, and when the search dereferences a nil pointer.
use kcp_operator.Prelude.{
  String, ◌≡◌, refl, sym, ◌∙◌, ap, ◌⊎◌, ◌↔◌, inl, inr, true, false, Option, none, some, Bool-cases,
  List, [], ◌∷◌, ◌==◌, eq_iff, if◌then◌else◌,
}
use kcp_operator.Api.Objects.{RootShard, Shard}
use kcp_operator.Render.Pods.{Outcome, done, panic, ◌>>=◌}
use kcp_operator.Children.{
  In, referring, insert_by_name, sort_by_name, get_root_shard_children, nil_dereference,
  comes_before,
}

-- The condition under which a shard belongs to a root shard.
abbrev pub RefersTo : String → Shard → Type 0
RefersTo root s = s.spec.root_shard ≡ some root

abbrev pub HasReference : Shard → Type 0
HasReference s = (name : String) × (s.spec.root_shard ≡ some name)

some-injective : {A : Type 0} {x y : A} → some x ≡ some y → x ≡ y
some-injective e = cc e

In-insert :
    (x s : Shard) (shards : List Shard) → In x (insert_by_name s shards) ↔ ((x ≡ s) ⊎ In x shards)
In-insert x s [] = (λ h. h, λ h. h)
In-insert x s (t ∷ shards) =
    let ih = In-insert x s shards in
    elim (Bool-cases (comes_before s.name t.name)) [
      | inl b ↦ rw b (λ h. h, λ h. h)
      | inr b ↦ rw b (
        λ h. elim h [
          | inl e ↦ inr (inl e)
          | inr i ↦ elim (ih.0 i) [ inl e ↦ inl e | inr j ↦ inr (inr j) ]
        ],
        λ h. elim h [
          | inl e ↦ inr (ih.1 (inl e))
          | inr i ↦ elim i [ inl e ↦ inl e | inr j ↦ inr (ih.1 (inr j)) ]
        ],
      )
    ]

In-sort : (x : Shard) (shards : List Shard) → In x (sort_by_name shards) ↔ In x shards
In-sort x [] = (λ h. h, λ h. h)
In-sort x (s ∷ shards) =
    let ih = In-sort x shards in
    let inserted = In-insert x s (sort_by_name shards) in
    (
      λ h. elim (inserted.0 h) [ inl e ↦ inl e | inr i ↦ inr (ih.0 i) ],
      λ h. elim h [ inl e ↦ inserted.1 (inl e) | inr i ↦ inserted.1 (inr (ih.1 i)) ],
    )

-- The loop returns the shards that refer to the root shard.
abbrev Selects : String → List Shard → List Shard → Type 0
Selects root shards found = (x : Shard) → In x found ↔ (In x shards × RefersTo root x)

refers_same :
    (root name : String) (s x : Shard)
    → s.spec.root_shard ≡ some name
    → (name == root) ≡ true
    → x ≡ s
    → RefersTo root x
refers_same root name s x e same q =
    ap (λ (t : Shard). t.spec.root_shard) q ∙ e ∙ ap some ((eq_iff name root).0 same)

not_refers :
    (root name : String) (s x : Shard)
    → s.spec.root_shard ≡ some name
    → (name == root) ≡ false
    → x ≡ s
    → RefersTo root x
    → ⊥
not_refers root name s x e other q r =
    let same = some-injective (sym e ∙ ap (λ (t : Shard). t.spec.root_shard) (sym q) ∙ r) in
    cc (other, (eq_iff name root).1 same)

Selects-cons :
    (root name : String) (s : Shard) (shards found : List Shard)
    → s.spec.root_shard ≡ some name
    → Selects root shards found
    → Selects root (s ∷ shards) (if name == root then s ∷ found else found)
Selects-cons root name s shards found e h x = elim (Bool-cases (name == root)) [
  | inl same ↦ rw same (
    λ i. elim i [
      | inl q ↦ (inl q, refers_same root name s x e same q)
      | inr j ↦ let r = (h x).0 j in (inr r.0, r.1)
    ],
    λ r. elim r.0 [ inl q ↦ inl q | inr j ↦ inr ((h x).1 (j, r.1)) ],
  )
  | inr other ↦ rw other (
    λ i. let r = (h x).0 i in (inr r.0, r.1),
    λ r. elim r.0 [
      | inl q ↦ elim (not_refers root name s x e other q r.1) [ ]
      | inr j ↦ (h x).1 (j, r.1)
    ],
  )
]

abbrev choose : String → Shard → Outcome (List Shard) → Option String → Outcome (List Shard)
choose root s rest o = elim o [
  | none ↦ panic nil_dereference
  | some name ↦ (rest >>= (λ found. done (if name == root then s ∷ found else found)))
]

both_panic :
    (root : String) (s : Shard) (o : Option String)
    → choose root s (panic nil_dereference) o ≡ panic nil_dereference
both_panic root s none = refl
both_panic root s (some name) = refl

referring-Selects :
    (root : String) (shards : List Shard)
    → ((x : Shard) → In x shards → HasReference x)
    → (found : List Shard) × (referring root shards ≡ done found) × Selects root shards found
referring-Selects root [] h = ([], refl, λ x. (λ i. elim i [ ], λ r. r.0))
referring-Selects root (s ∷ shards) h =
    let (found, e, selects) = referring-Selects root shards (λ x i. h x (inr i)) in
    let (name, r) = h s (inl refl) in
    (
      if name == root then s ∷ found else found,
      ap (choose root s (referring root shards)) r
          ∙ ap (λ (o : Outcome (List Shard)). choose root s o (some name)) e,
      Selects-cons root name s shards found r selects,
    )

referring-panics :
    (root : String) (shards : List Shard) (x : Shard)
    → In x shards
    → x.spec.root_shard ≡ none
    → referring root shards ≡ panic nil_dereference
referring-panics root [] x i n = elim i [ ]
referring-panics root (s ∷ shards) x (inl e) n =
    ap (choose root s (referring root shards)) (ap (λ (t : Shard). t.spec.root_shard) (sym e) ∙ n)
referring-panics root (s ∷ shards) x (inr i) n =
    ap (λ (o : Outcome (List Shard)). choose root s o s.spec.root_shard)
      (referring-panics root shards x i n)
    ∙ both_panic root s s.spec.root_shard

-- If the shards of the namespace can be listed, and each has a reference, then the children of a root
-- shard are exactly those that refer to it, and there is no error.
pub get_root_shard_children-In :
    (shards : List Shard) (root_shard : RootShard)
    → ((x : Shard) → In x shards → HasReference x)
    → (children : List Shard) × (get_root_shard_children (inl shards) root_shard
        ≡ done (children, []))
      × ((x : Shard) → In x children ↔ (In x shards × RefersTo root_shard.name x))
unfolding get_root_shard_children
get_root_shard_children-In shards root_shard h =
    let (found, e, selects) = referring-Selects root_shard.name shards h in
    (
      sort_by_name found,
      ap (λ (o : Outcome (List Shard)). o >>= (λ l. done (sort_by_name l, []))) e,
      λ x. (λ i. (selects x).0 ((In-sort x found).0 i), λ r. (In-sort x found).1 ((selects x).1 r)),
    )

-- If the shards of the namespace can be listed, and one has no reference, then the search for the children of any root shard
-- dereferences a nil pointer.
pub get_root_shard_children-panics :
    (shards : List Shard) (root_shard : RootShard) (x : Shard)
    → In x shards
    → x.spec.root_shard ≡ none
    → get_root_shard_children (inl shards) root_shard ≡ panic nil_dereference
unfolding get_root_shard_children
get_root_shard_children-panics shards root_shard x i n =
    ap (λ (o : Outcome (List Shard)). o >>= (λ l. done (sort_by_name l, [])))
      (referring-panics root_shard.name shards x i n)
