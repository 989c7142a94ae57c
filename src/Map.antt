-- ===== src/Map.antt =====
-- The `Map<string, V>` that every in-memory store of the program is: an association list in
-- insertion order, as the language's `Map` iterates. `set` writes in place where the key is
-- there and appends where it is not.
pub mod Laws
use stellar_true_stub.Common.{
  ℕ, String, Bool, Option, none, some, List, [], ◌∷◌, if◌then◌else◌, is_some, str_eq, map, length,
}

abbrev pub Map {ℓ} : Type ℓ → Type ℓ
Map V = List (String × V)

module _ {ℓ} {V : Type ℓ} where
  unfoldable pub get : String → Map V → Option V
  get k [] = none
  get k ((j, v) ∷ m) = if str_eq j k then some v else get k m

  unfoldable pub set : String → V → Map V → Map V
  set k v [] = (k, v) ∷ []
  set k v ((j, w) ∷ m) = if str_eq j k then (j, v) ∷ m else (j, w) ∷ set k v m

  -- `delete`, without its result.
  unfoldable pub remove : String → Map V → Map V
  remove k [] = []
  remove k ((j, w) ∷ m) = if str_eq j k then remove k m else (j, w) ∷ remove k m

  abbrev pub has : String → Map V → Bool
  has k m = is_some (get k m)

  abbrev pub values : Map V → List V
  values m = map (λ e. e.1) m

  abbrev pub size : Map V → ℕ
  size m = length m
