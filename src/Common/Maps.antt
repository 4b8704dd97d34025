-- ===== src/Common/Maps.antt =====
-- A hash map with numbers for keys, as the association list of its entries in no particular order.
-- `insert` replaces the entry of a key that is present, as the standard library's map does.
use ngrok_rs.Common.Tests.{◌==◌, if◌then◌else◌}
use ngrok_rs.Common.Lists.{length}
use Prim.Native.Nat.{ℕ, ◌+◌, ◌≤◌}
use mathlib.Core.Path.{◌≡◌, refl}
use mathlib.Core.Option.{Option, none, some}
use mathlib.Core.List.{List, [], ◌∷◌}
use native.Mathlib.Omega.{arith}

module _ {ℓ} {Value : Type ℓ} where
  unfoldable pub lookup : ℕ → List (ℕ × Value) → Option Value
  lookup key [] = none
  lookup key ((key', value) ∷ rest) = if key' == key then some value else lookup key rest

  unfoldable pub insert : ℕ → Value → List (ℕ × Value) → List (ℕ × Value)
  insert key new [] = (key, new) ∷ []
  insert key new ((key', old) ∷ rest) =
      if key' == key then (key, new) ∷ rest else (key', old) ∷ insert key new rest

  unfoldable pub remove : ℕ → List (ℕ × Value) → List (ℕ × Value)
  remove key [] = []
  remove key ((key', old) ∷ rest) =
      if key' == key then remove key rest else (key', old) ∷ remove key rest

  pub lookup-insert :
      (key other : ℕ) (new : Value) (entries : List (ℕ × Value))
      → lookup other (insert key new entries)
        ≡ (if key == other then some new else lookup other entries)
  unfolding lookup insert
  lookup-insert key other new [] = refl
  lookup-insert key other new (entry ∷ rest) = ground (arith, lookup-insert key other new rest)

  pub lookup-remove :
      (key other : ℕ) (entries : List (ℕ × Value))
      → lookup other (remove key entries) ≡ (if key == other then none else lookup other entries)
  unfolding lookup remove
  lookup-remove key other [] = ground arith
  lookup-remove key other (entry ∷ rest) = ground (arith, lookup-remove key other rest)

  -- A new key takes one more entry, a key that is present none.
  pub length-insert_new :
      (key : ℕ) (new : Value) (entries : List (ℕ × Value))
      → lookup key entries ≡ none
      → length (insert key new entries) ≡ length entries + 1
  unfolding lookup insert
  length-insert_new key new [] e = omega arith
  length-insert_new key new (entry ∷ rest) e = ground (arith, length-insert_new key new rest)

  pub length-insert_old :
      (key : ℕ) (new old : Value) (entries : List (ℕ × Value))
      → lookup key entries ≡ some old
      → length (insert key new entries) ≡ length entries
  unfolding lookup insert
  length-insert_old key new old [] e = cc
  length-insert_old key new old (entry ∷ rest) e =
      ground (arith, length-insert_old key new old rest)

  pub length-insert_le :
      (key : ℕ) (new : Value) (entries : List (ℕ × Value))
      → length (insert key new entries) ≤ length entries + 1
  unfolding insert
  length-insert_le key new [] = omega arith
  length-insert_le key new (entry ∷ rest) = ground (arith, length-insert_le key new rest)

  pub length-remove_le :
      (key : ℕ) (entries : List (ℕ × Value)) → length (remove key entries) ≤ length entries
  unfolding remove
  length-remove_le key [] = omega arith
  length-remove_le key (entry ∷ rest) = ground (arith, length-remove_le key rest)
