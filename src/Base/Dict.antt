-- ===== src/Base/Dict.antt =====
-- Dictionaries with text keys, for JavaScript's objects and maps: a list of keys and values, in the
-- order in which the keys came.
use Prim.Native.String.{String}
use mathlib.Core.Path.{◌≡◌, refl}
use mathlib.Core.Bool.{false}
use mathlib.Core.List.{List, [], ◌∷◌}
use mathlib.Core.Option.{Option, none, some}
use native.Mathlib.Omega.{arith}
use text.Mathlib.Text.{◌==◌ as str_eq}
use text.Mathlib.TextEquality.{eq_iff}
use text.Mathlib.TextPositions.{eq_refl}
use micro_saas_api.Base.Tests.{if◌then◌else◌}

module _ {ℓ} {V : Type ℓ} where
  -- `d[k]`, `d.get(k)`
  unfoldable pub lookup : String → List (String × V) → Option V
  lookup k [] = none
  lookup k ((j, v) ∷ c) = if str_eq j k then some v else lookup k c

  -- `d[k] = v`, `{ ...d, [k]: v }`, `d.set(k, v)`
  unfoldable pub insert : String → V → List (String × V) → List (String × V)
  insert k v [] = (k, v) ∷ []
  insert k v ((j, w) ∷ c) = if str_eq j k then (k, v) ∷ c else (j, w) ∷ insert k v c

  -- `{ ...d, ...more }`
  unfoldable pub merge : List (String × V) → List (String × V) → List (String × V)
  unfolding insert
  merge c [] = c
  merge c ((k, v) ∷ more) = merge (insert k v c) more

  -- `delete d[k]`
  unfoldable pub delete : String → List (String × V) → List (String × V)
  delete k [] = []
  delete k ((j, v) ∷ c) = let rest = delete k c in if str_eq j k then rest else (j, v) ∷ rest

  pub lookup-insert :
      (k j : String) (v : V) (c : List (String × V))
      → lookup j (insert k v c) ≡ (if str_eq k j then some v else lookup j c)
  unfolding lookup insert
  lookup-insert k j v [] = refl
  lookup-insert k j v ((i, w) ∷ c) =
      ground (arith, eq_iff k j, eq_iff i k, eq_iff i j, lookup-insert k j v c)

  pub lookup-insert_self :
      (k : String) (v : V) (c : List (String × V)) → lookup k (insert k v c) ≡ some v
  lookup-insert_self k v c = rw (lookup-insert k k v c, eq_refl k) refl

  pub lookup-delete_self : (k : String) (c : List (String × V)) → lookup k (delete k c) ≡ none
  unfolding lookup delete
  lookup-delete_self k [] = refl
  lookup-delete_self k ((j, v) ∷ c) = ground (arith, lookup-delete_self k c)

  pub lookup-delete_other :
      (k j : String) (c : List (String × V))
      → str_eq j k ≡ false
      → lookup k (delete j c) ≡ lookup k c
  unfolding lookup delete
  lookup-delete_other k j [] h = refl
  lookup-delete_other k j ((i, v) ∷ c) h =
      ground (arith, eq_iff i j, eq_iff i k, eq_iff j k, h, lookup-delete_other k j c h)

  pub lookup-insert_other :
      (k j : String) (v : V) (c : List (String × V))
      → str_eq j k ≡ false
      → lookup k (insert j v c) ≡ lookup k c
  lookup-insert_other k j v c h = rw (lookup-insert j k v c, h) refl
