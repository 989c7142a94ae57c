-- ===== src/Map/Laws.antt =====
-- The laws of `Map`: what a read sees after a write or a removal.
use stellar_true_stub.Common.{
  ℕ, ◌+◌, ◌≤◌, ◌≡◌, refl, inl, inr, String, Option, none, some, [], ◌∷◌, if◌then◌else◌, str_eq,
  eq_iff, arith, Bool-cases, subst,
}
use stellar_true_stub.Map.{Map, get, set, remove, has, size}

module _ {ℓ} {V : Type ℓ} where
  pub get-set :
      (k j : String) (v : V) (m : Map V)
      → get j (set k v m) ≡ (if str_eq k j then some v else get j m)
  unfolding get set
  get-set k j v [] = refl
  get-set k j v ((i, w) ∷ m) = ground (arith, eq_iff k j, eq_iff i k, eq_iff i j, get-set k j v m)

  pub get-remove :
      (k j : String) (m : Map V) → get j (remove k m) ≡ (if str_eq k j then none else get j m)
  unfolding get remove
  get-remove k j [] = ground arith
  get-remove k j ((i, w) ∷ m) = ground (arith, eq_iff k j, eq_iff i k, eq_iff i j, get-remove k j m)

  pub size-set :
      (k : String) (v : V) (m : Map V) → size (set k v m) ≡ (if has k m then size m else size m + 1)
  unfolding get set
  size-set k v [] = refl
  size-set k v ((i, w) ∷ m) = ground (arith, size-set k v m)

  pub size-remove_le : (k : String) (m : Map V) → size (remove k m) ≤ size m
  unfolding remove
  size-remove_le k [] = ground arith
  size-remove_le k ((i, w) ∷ m) = ground (arith, size-remove_le k m)

module _ {ℓ κ} {V : Type ℓ} (P : String → V → Type κ) where
  -- `P` holds of every entry that a read finds.
  abbrev pub Every : Map V → Type (ℓ ⊔ κ)
  Every m = (k : String) (v : V) → get k m ≡ some v → P k v

  pub Every-nil : Every []
  unfolding get
  Every-nil k v e = cc

  pub Every-set : (k : String) (v : V) (m : Map V) → P k v → Every m → Every (set k v m)
  Every-set k v m p h j w e = elim (Bool-cases (str_eq k j)) [
    | inl same ↦
        let found : some v ≡ some w = rw (get-set, same) at e in
        let here : v ≡ w = cc in subst (λ x. P x w) ((eq_iff k j).0 same) (subst (P k) here p)
    | inr other ↦ h j w (rw (get-set, other) at e)
  ]

  pub Every-remove : (k : String) (m : Map V) → Every m → Every (remove k m)
  Every-remove k m h j w e = elim (Bool-cases (str_eq k j)) [
    | inl same ↦ let gone : none ≡ some w = rw (get-remove, same) at e in cc
    | inr other ↦ h j w (rw (get-remove, other) at e)
  ]

module _ {ℓ} {V : Type ℓ} where
  -- The later of two writes of one key stands, at the place of the first.
  pub set-set : (k : String) (v w : V) (m : Map V) → set k w (set k v m) ≡ set k w m
  unfolding set
  set-set k v w [] = ground (arith, eq_iff k k)
  set-set k v w ((i, u) ∷ m) = ground (arith, eq_iff i k, set-set k v w m)

  -- Writing back what was read changes nothing.
  pub set-get : (k : String) (v : V) (m : Map V) → get k m ≡ some v → set k v m ≡ m
  unfolding get set
  set-get k v [] h = cc
  set-get k v ((i, u) ∷ m) h = ground (arith, eq_iff i k, set-get k v m)

module _ {ℓ} {V : Type ℓ} (f : V → ℕ) where
  -- A measure of the values, summed over the map.
  unfoldable pub total : Map V → ℕ
  total [] = 0
  total ((k, v) ∷ m) = f v + total m

  abbrev pub measure_of : Option V → ℕ
  measure_of none = 0
  measure_of (some v) = f v

  -- A write adds the measure of what it writes and takes that of what was there.
  pub total-set :
      (k : String) (v : V) (m : Map V) → total (set k v m) + measure_of (get k m) ≡ total m + f v
  unfolding total get set
  total-set k v [] = omega arith
  total-set k v ((j, w) ∷ m) = ground (arith, total-set k v m)

  pub total-remove_le : (k : String) (m : Map V) → total (remove k m) ≤ total m
  unfolding total remove
  total-remove_le k [] = omega arith
  total-remove_le k ((j, w) ∷ m) = ground (arith, total-remove_le k m)

  -- No value measures more than the whole map.
  pub measure_of_le-total : (k : String) (m : Map V) → measure_of (get k m) ≤ total m
  unfolding total get
  measure_of_le-total k [] = omega arith
  measure_of_le-total k ((j, w) ∷ m) = ground (arith, measure_of_le-total k m)
