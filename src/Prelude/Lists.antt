-- ===== src/Prelude/Lists.antt =====
-- Lists measured by native numbers, and membership tests on lists of texts.
use Prim.Native.Nat.{ℕ, suc, ◌+◌}
use Prim.Native.String.{String}
use mathlib.Core.Path.{◌≡◌, refl}
use mathlib.Core.Bool.{Bool, true, false, ◌||◌}
use mathlib.Core.Logic.{◌⊎◌, inl, inr}
use mathlib.Core.List.{List, [], ◌∷◌, ◌++◌}
use native.Mathlib.Omega.{arith}
use text.Mathlib.Text.{◌==◌}
use kcp_operator.Prelude.Tests.{if◌then◌else◌}

module _ {ℓ} {A : Type ℓ} where
  abbrev pub length : List A → ℕ
  length [] = 0
  length (x ∷ xs) = suc (length xs)

  pub length-append : (xs ys : List A) → length (xs ++ ys) ≡ length xs + length ys
  length-append [] ys = omega arith
  length-append (x ∷ xs) ys = omega (arith, length-append xs ys)

  -- The elements that pass a test, in order.
  abbrev pub keep : (A → Bool) → List A → List A
  keep p [] = []
  keep p (x ∷ xs) = let rest = keep p xs in if p x then x ∷ rest else rest

  pub keep-keep :
      (p q : A → Bool) (xs : List A)
      → ((a : A) → q a ≡ true → p a ≡ true)
      → keep p (keep q xs) ≡ keep q xs
  keep-keep p q [] h = refl
  keep-keep p q (x ∷ xs) h = ground (arith, h x, keep-keep p q xs h)

-- A predicate holds of every element.
abbrev pub All {ℓ κ} : {A : Type ℓ} → (A → Type κ) → List A → Type κ
All P (a ∷ rest) = P a × All P rest
All P [] = Unit

pub All-append {ℓ κ} :
    {A : Type ℓ} (P : A → Type κ) (front back : List A)
    → All P front
    → All P back
    → All P (front ++ back)
All-append P (a ∷ front) back (p, ps) qs = (p, All-append P front back ps qs)
All-append P [] back ps qs = qs

pub All-map {ℓ κ ν} :
    {A : Type ℓ} (P : A → Type κ) (Q : A → Type ν)
    → ((a : A) → P a → Q a)
    → (xs : List A) → All P xs
    → All Q xs
All-map P Q f [] h = tt
All-map P Q f (x ∷ xs) h = (f x h.0, All-map P Q f xs h.1)

-- slices.Contains, and Has of a set of texts.
unfoldable pub contains : List String → String → Bool
contains [] a = false
contains (x ∷ xs) a = x == a || contains xs a

pub contains-append :
    (xs ys : List String) (a : String) → contains (xs ++ ys) a ≡ (contains xs a || contains ys a)
unfolding contains
contains-append [] ys a = refl
contains-append (x ∷ xs) ys a = ground (arith, contains-append xs ys a)

-- A value is one of a list.
abbrev pub Member : {A : Type 0} → A → List A → Type 0
Member a [] = ⊥
Member a (x ∷ xs) = (a ≡ x) ⊎ Member a xs

pub Member-append_left : {A : Type 0} (a : A) (xs ys : List A) → Member a xs → Member a (xs ++ ys)
Member-append_left a (x ∷ xs) ys (inl e) = inl e
Member-append_left a (x ∷ xs) ys (inr m) = inr (Member-append_left a xs ys m)
Member-append_left a [] ys m = elim m [ ]

pub Member-append_right : {A : Type 0} (a : A) (xs ys : List A) → Member a ys → Member a (xs ++ ys)
Member-append_right a [] ys m = m
Member-append_right a (x ∷ xs) ys m = inr (Member-append_right a xs ys m)
