-- ===== src/Base/Map.antt =====
-- `HashMap<String, V>` as an association list with distinct keys. New keys go to the end; the
-- source's iteration order is unspecified.
use mathlib.Core.Path.{◌≡◌, refl}
use mathlib.Core.Bool.{Bool, true, false}
use mathlib.Core.Option
use mathlib.Core.Option.{Option, none, some}
use mathlib.Core.List.{List, [], ◌∷◌}
use native.Mathlib.Omega.{arith}
use cloud_job_orchestrator.Base.Tests.{if◌then◌else◌}
use cloud_job_orchestrator.Base.Text.{Text, eq_text, eq_text_iff}

abbrev pub Map : Type 0 → Type 0
Map V = List (Text × V)

module _ {V : Type 0} where
  -- get, contains_key, insert, and get_mut followed by a write through the reference.
  unfoldable pub lookup : Text → Map V → Option V
  lookup k [] = none
  lookup k ((j, v) ∷ m) = if eq_text j k then some v else lookup k m

  unfoldable pub contains_key : Text → Map V → Bool
  unfolding lookup
  contains_key k m = elim (lookup k m) [ none ↦ false | some v ↦ true ]

  unfoldable pub insert : Text → V → Map V → Map V
  insert k v [] = (k, v) ∷ []
  insert k v ((j, w) ∷ m) = if eq_text j k then (j, v) ∷ m else (j, w) ∷ insert k v m

  unfoldable pub adjust : Text → (V → V) → Map V → Map V
  adjust k f [] = []
  adjust k f ((j, w) ∷ m) = if eq_text j k then (j, f w) ∷ m else (j, w) ∷ adjust k f m

  pub lookup-insert :
      (k j : Text) (v : V) (m : Map V)
      → lookup j (insert k v m) ≡ (if eq_text k j then some v else lookup j m)
  unfolding lookup insert
  lookup-insert k j v [] = refl
  lookup-insert k j v ((i, w) ∷ m) =
      ground (arith, eq_text_iff k j, eq_text_iff i k, eq_text_iff i j, lookup-insert k j v m)

  pub lookup-adjust :
      (k j : Text) (f : V → V) (m : Map V)
      → lookup j (adjust k f m) ≡ (if eq_text k j then Option.map f (lookup j m) else lookup j m)
  unfolding lookup adjust
  lookup-adjust k j f [] = ground arith
  lookup-adjust k j f ((i, w) ∷ m) =
      ground (arith, eq_text_iff k j, eq_text_iff i k, eq_text_iff i j, lookup-adjust k j f m)

  -- No key stands twice.
  abbrev pub Distinct : Map V → Type 0
  Distinct [] = Unit
  Distinct ((k, v) ∷ m) = (lookup k m ≡ none) × Distinct m

  pub insert-Distinct : (k : Text) (v : V) (m : Map V) → Distinct m → Distinct (insert k v m)
  unfolding insert lookup
  insert-Distinct k v [] d = (refl, tt)
  insert-Distinct k v ((j, w) ∷ m) d =
      ground (arith, insert-Distinct k v m, lookup-insert k j v m, eq_text_iff k j, eq_text_iff j k)

  pub adjust-Distinct : (k : Text) (f : V → V) (m : Map V) → Distinct m → Distinct (adjust k f m)
  unfolding adjust
  adjust-Distinct k f [] d = tt
  adjust-Distinct k f ((j, w) ∷ m) d =
      ground (arith, adjust-Distinct k f m, lookup-adjust k j f m, eq_text_iff k j, eq_text_iff j k)

  -- `values_mut`.
  unfoldable pub map_values : (V → V) → Map V → Map V
  map_values f [] = []
  map_values f ((j, w) ∷ m) = (j, f w) ∷ map_values f m

  pub lookup-map_values :
      (f : V → V) (j : Text) (m : Map V) → lookup j (map_values f m) ≡ Option.map f (lookup j m)
  unfolding lookup map_values
  lookup-map_values f j [] = refl
  lookup-map_values f j ((i, w) ∷ m) = ground (arith, lookup-map_values f j m)

  pub map_values-Distinct : (f : V → V) (m : Map V) → Distinct m → Distinct (map_values f m)
  unfolding map_values
  map_values-Distinct f [] d = tt
  map_values-Distinct f ((j, w) ∷ m) d =
      ground (arith, map_values-Distinct f m, lookup-map_values f j m)
