-- ===== src/Prelude/Maps.antt =====
-- Go maps with text keys, as association lists: a nil map and an empty map are both `[]`, and the
-- order of entries, which Go leaves open, is never read.
use Prim.Native.String.{String}
use mathlib.Core.Path.{◌≡◌, refl}
use mathlib.Core.Option.{Option, none, some}
use mathlib.Core.List.{List, [], ◌∷◌}
use native.Mathlib.Omega.{arith}
use text.Mathlib.Text.{◌==◌}
use text.Mathlib.TextEquality.{eq_iff}
use kcp_operator.Prelude.Tests.{if◌then◌else◌}

abbrev pub Map {ℓ} : Type ℓ → Type ℓ
Map V = List (String × V)

module _ {ℓ} {V : Type ℓ} where
  -- `m[key]`, with whether the key is there.
  unfoldable pub lookup : String → Map V → Option V
  lookup key ((other, value) ∷ entries) = if other == key then some value else lookup key entries
  lookup key [] = none

  -- `m[key] = value`
  unfoldable pub insert : String → V → Map V → Map V
  insert key value ((other, old) ∷ entries) =
      let rest = insert key value entries in
      if other == key then (key, value) ∷ entries else (other, old) ∷ rest
  insert key value [] = (key, value) ∷ []

  -- `maps.Copy(dst, src)`
  unfoldable pub copy : Map V → Map V → Map V
  unfolding insert
  copy dst [] = dst
  copy dst ((k, v) ∷ src) = insert k v (copy dst src)

  pub lookup-insert :
      (key asked : String) (value : V) (entries : Map V)
      → lookup asked (insert key value entries)
        ≡ (if key == asked then some value else lookup asked entries)
  unfolding insert lookup
  lookup-insert key asked value ((other, old) ∷ entries) = ground (
    lookup-insert key asked value entries,
    eq_iff other key,
    eq_iff other asked,
    eq_iff key asked,
    arith,
  )
  lookup-insert key asked value [] = refl

  -- The first of two optional values.
  abbrev pub or_else : Option V → Option V → Option V
  or_else none b = b
  or_else (some a) b = some a

  -- What is copied wins over what was there.
  pub lookup-copy :
      (j : String) (dst src : Map V)
      → lookup j (copy dst src) ≡ or_else (lookup j src) (lookup j dst)
  unfolding copy lookup
  lookup-copy j dst [] = refl
  lookup-copy j dst ((k, v) ∷ src) =
      ground (arith, lookup-insert k j v (copy dst src), lookup-copy j dst src)
