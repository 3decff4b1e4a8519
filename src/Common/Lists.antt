-- ===== src/Common/Lists.antt =====
-- Lists measured by native numbers, and dictionaries as association lists.
use Prim.Native.Nat.{ℕ, zero, suc, ◌+◌}
use Prim.Native.String.{String}
use mathlib.Core.Path.{◌≡◌}
use mathlib.Core.List.{List, [], ◌∷◌, ◌++◌}
use mathlib.Core.Option.{Option, none, some}
use native.Mathlib.Omega.{arith}
use text.Mathlib.Text.{◌==◌}
use text.Mathlib.TextEquality.{eq_iff}
use uplink_relay.Common.Tests.{if◌then◌else◌}

module _ {ℓ} {A : Type ℓ} where
  abbrev pub length : List A → ℕ
  length [] = 0
  length (x ∷ xs) = suc (length xs)

  abbrev pub get_elem? : List A → ℕ → Option A
  get_elem? [] i = none
  get_elem? (x ∷ xs) zero = some x
  get_elem? (x ∷ xs) (suc i) = get_elem? xs i

  pub length-append : (xs ys : List A) → length (xs ++ ys) ≡ length xs + length ys
  length-append [] ys = omega arith
  length-append (x ∷ xs) ys = omega (arith, length-append xs ys)

-- Every element has the property.
abbrev pub All {ℓ ℓ'} : {Entry : Type ℓ} → (Entry → Type ℓ') → List Entry → Type ℓ'
All Holds [] = Unit
All Holds (entry ∷ later) = Holds entry × All Holds later

-- A Go map as the list of its entries: reading, assigning and deleting a key.
module _ {ℓ} {Value : Type ℓ} where
  unfoldable pub lookup : (key : String) (items : List (String × Value)) → Option Value
  lookup key [] = none
  lookup key ((k, value) ∷ items) = if k == key then some value else lookup key items

  unfoldable pub without : (key : String) (items : List (String × Value)) → List (String × Value)
  without key [] = []
  without key ((k, value) ∷ items) =
      let rest = without key items in if k == key then rest else (k, value) ∷ rest

  unfoldable pub insert :
      (key : String) (value : Value) (items : List (String × Value)) → List (String × Value)
  unfolding without
  insert key value items = (key, value) ∷ without key items

  pub lookup-without :
      (key other : String) (items : List (String × Value))
      → lookup other (without key items) ≡ (if key == other then none else lookup other items)
  unfolding lookup without
  lookup-without key other [] = ground arith
  lookup-without key other ((k, value) ∷ items) =
      ground (arith, lookup-without key other items, eq_iff k key, eq_iff k other, eq_iff key other)

  -- Reading a key after assigning one: the new value at the same key, else what was there.
  pub lookup-insert :
      (key other : String) (value : Value) (items : List (String × Value))
      → lookup other (insert key value items)
        ≡ (if key == other then some value else lookup other items)
  unfolding lookup insert
  lookup-insert key other value items = ground (arith, lookup-without key other items)
