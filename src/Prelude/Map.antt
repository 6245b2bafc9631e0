-- ===== src/Prelude/Map.antt =====
-- JavaScript's `Map` with text keys, as an association list in insertion order: `set` writes an
-- existing key in place and appends a new one.
use Prim.Native.Nat.{ℕ, ◌+◌, ◌≤◌}
use Prim.Native.String.{String}
use mathlib.Core.Path.{◌≡◌, refl}
use mathlib.Core.Bool.{Bool}
use mathlib.Core.Option.{Option, none, some}
use mathlib.Core.List.{List, [], ◌∷◌}
use text.Mathlib.TextEquality.{eq_iff}
use native.Mathlib.Omega.{arith}
use hugin_agent.Prelude.Tests.{str_eq, if◌then◌else◌, is_some}
use hugin_agent.Prelude.Lists.{length}

abbrev pub Map {ℓ} : Type ℓ → Type ℓ
Map V = List (String × V)

module _ {ℓ} {V : Type ℓ} where
  unfoldable pub get : List (String × V) → String → Option V
  get [] k = none
  get ((j, v) ∷ m) k = if str_eq j k then some v else get m k

  unfoldable pub set : List (String × V) → String → V → List (String × V)
  set [] k v = (k, v) ∷ []
  set ((j, w) ∷ m) k v = if str_eq j k then (j, v) ∷ m else (j, w) ∷ set m k v

  -- `delete`
  unfoldable pub remove : List (String × V) → String → List (String × V)
  remove [] k = []
  remove ((j, w) ∷ m) k = let rest = remove m k in if str_eq j k then rest else (j, w) ∷ rest

  unfoldable pub has : List (String × V) → String → Bool
  unfolding get
  has m k = is_some (get m k)

  abbrev pub size : List (String × V) → ℕ
  size m = length m

  pub get-set :
      (m : List (String × V)) (k j : String) (v : V)
      → get (set m k v) j ≡ (if str_eq k j then some v else get m j)
  unfolding get set
  get-set [] k j v = refl
  get-set ((i, w) ∷ m) k j v = ground (arith, eq_iff k j, eq_iff i k, eq_iff i j, get-set m k j v)

  pub get-remove :
      (m : List (String × V)) (k j : String)
      → get (remove m k) j ≡ (if str_eq k j then none else get m j)
  unfolding get remove
  get-remove [] k j = ground arith
  get-remove ((i, w) ∷ m) k j = ground (arith, eq_iff k j, eq_iff i k, eq_iff i j, get-remove m k j)

  pub size-set-le : (m : List (String × V)) (k : String) (v : V) → size (set m k v) ≤ size m + 1
  unfolding set
  size-set-le [] k v = omega arith
  size-set-le ((i, w) ∷ m) k v = ground (arith, size-set-le m k v)

  pub size-remove-le : (m : List (String × V)) (k : String) → size (remove m k) ≤ size m
  unfolding remove
  size-remove-le [] k = omega arith
  size-remove-le ((i, w) ∷ m) k = ground (arith, size-remove-le m k)
