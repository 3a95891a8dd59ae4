-- ===== src/Prelude/Maps.antt =====
-- Go's `map[string]V` as an association list: `m[k]`, `m[k] = v` and `delete(m, k)`, with the
-- values in an order that no law reads.
use Prim.Native.String.{String}
use mathlib.Core.Path.{◌≡◌, refl}
use mathlib.Core.Bool.{Bool, true, false}
use mathlib.Core.Option.{Option, none, some}
use mathlib.Core.List.{List, [], ◌∷◌}
use native.Mathlib.Omega.{arith}
use text.Mathlib.Text.{◌==◌}
use text.Mathlib.TextEquality.{eq_iff}
use text.Mathlib.TextPositions.{eq_refl}
use mathlib.Core.Logic.{◌≢◌}
use bonnie.Prelude.Tests.{if◌then◌else◌}

abbrev pub Map {ℓ} : Type ℓ → Type ℓ
Map V = List (String × V)

-- Where the test of two texts says so, they can stand for one another in a third.
same_key : (i k j : String) → i == k ≡ true → (i == j) ≡ (k == j)
same_key i k j h = ground (arith, eq_iff i k, eq_iff i j, eq_iff k j)

other_key : (i k j : String) → i == k ≡ false → i == j ≡ true → k == j ≡ false
other_key i k j h g = ground (arith, eq_iff i k, eq_iff i j, eq_iff k j)

module _ {ℓ} {V : Type ℓ} where
  -- The test of one entry against the key that is asked for.
  abbrev pub is_at : String → String × V → Bool
  is_at key entry = entry.0 == key

  unfoldable pub lookup : String → Map V → Option V
  lookup key [] = none
  lookup key (entry ∷ rest) = if is_at key entry then some entry.1 else lookup key rest

  unfoldable pub insert : String → V → Map V → Map V
  insert key value [] = (key, value) ∷ []
  insert key value (entry ∷ rest) =
      let later = insert key value rest in
      if is_at key entry then (key, value) ∷ rest else entry ∷ later

  -- The entry may stand anywhere, and an older one below it is no longer seen.
  unfoldable pub erase : String → Map V → Map V
  erase key [] = []
  erase key (entry ∷ rest) =
      let later = erase key rest in if is_at key entry then later else entry ∷ later

  pub lookup-insert :
      (key asked : String) (value : V) (m : Map V)
      → lookup asked (insert key value m) ≡ (if key == asked then some value else lookup asked m)
  unfolding lookup insert
  lookup-insert key asked value [] = refl
  lookup-insert key asked value (entry ∷ rest) = ground (
    arith,
    same_key entry.0 key asked,
    other_key entry.0 key asked,
    lookup-insert key asked value rest,
  )

  pub lookup-erase :
      (key asked : String) (m : Map V)
      → lookup asked (erase key m) ≡ (if key == asked then none else lookup asked m)
  unfolding lookup erase
  lookup-erase key asked [] = ground arith
  lookup-erase key asked (entry ∷ rest) =
      ground (
        arith,
        same_key entry.0 key asked,
        other_key entry.0 key asked,
        lookup-erase key asked rest,
      )

  pub lookup-insert_self :
      (key : String) (value : V) (m : Map V) → lookup key (insert key value m) ≡ some value
  lookup-insert_self key value m = rw (lookup-insert key key value m, eq_refl key) refl

  pub lookup-erase_self : (key : String) (m : Map V) → lookup key (erase key m) ≡ none
  lookup-erase_self key m = rw (lookup-erase key key m, eq_refl key) refl

  pub lookup-insert_ne :
      (k j : String) (v : V) (m : Map V) → k ≢ j → lookup j (insert k v m) ≡ lookup j m
  lookup-insert_ne k j v m h = ground (arith, lookup-insert k j v m, eq_iff k j)

  pub lookup-erase_ne : (k j : String) (m : Map V) → k ≢ j → lookup j (erase k m) ≡ lookup j m
  lookup-erase_ne k j m h = ground (arith, lookup-erase k j m, eq_iff k j)
