-- ===== src/Prelude/Assoc.antt =====
-- A Go map with text keys as an association list, in the order in which its keys were first set.
use Prim.Native.String.{String}
use mathlib.Core.Path.{◌≡◌, refl}
use mathlib.Core.Logic.{inl, inr}
use mathlib.Core.List.{List, [], ◌∷◌}
use mathlib.Core.Option.{Option, none, some}
use native.Mathlib.Omega.{arith}
use text.Mathlib.Text.{◌==◌}
use text.Mathlib.TextEquality.{eq_iff}
use pushboy.Prelude.Tests.{if◌then◌else◌, Bool-cases}

module _ {ℓ} {V : Type ℓ} where
  unfoldable pub lookup : String → List (String × V) → Option V
  lookup key [] = none
  lookup key ((id, value) ∷ rest) =
      let found = lookup key rest in if id == key then some value else found

  unfoldable pub insert : String → V → List (String × V) → List (String × V)
  insert key value [] = (key, value) ∷ []
  insert key value ((id, old) ∷ rest) =
      let later = insert key value rest in
      if id == key then (id, value) ∷ rest else (id, old) ∷ later

  pub lookup-insert :
      (rows : List (String × V)) (key other : String) (value : V)
      → lookup other (insert key value rows)
        ≡ (if key == other then some value else lookup other rows)
  unfolding lookup insert
  lookup-insert [] key other value = refl
  lookup-insert ((id, old) ∷ rest) key other value =
      ground (
        arith,
        lookup-insert rest key other value,
        eq_iff id other,
        eq_iff id key,
        eq_iff key other,
      )

  -- No key stands twice.
  abbrev pub Distinct : List (String × V) → Type ℓ
  Distinct [] = Unit
  Distinct ((k, v) ∷ m) = (lookup k m ≡ none) × Distinct m

  pub insert-Distinct :
      (k : String) (v : V) (m : List (String × V)) → Distinct m → Distinct (insert k v m)
  unfolding lookup insert
  insert-Distinct k v [] h = (refl, tt)
  insert-Distinct k v ((j, w) ∷ m) h = elim (Bool-cases (j == k)) [
    | inl e ↦ rw e h
    | inr e ↦
        rw e (rw lookup-insert (ground (arith, eq_iff k j, eq_iff j k)), insert-Distinct k v m h.1)
  ]
