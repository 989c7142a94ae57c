-- ===== src/Common/Lists.antt =====
-- Lists measured by native numbers, predicates on all elements, and Boolean searches.
use Prim.Native.Nat.{ℕ, zero, suc, ◌+◌, ◌-◌, ◌≤◌}
use mathlib.Core.Path.{◌≡◌, refl, sym, ap, ◌∙◌}
use mathlib.Core.Bool.{Bool, true, false, ◌&&◌, ◌||◌}
use mathlib.Core.Logic.{◌↔◌, ◌⊎◌, inl, inr}
use stellar_true_stub.Common.Tests.{if◌then◌else◌, Bool-cases, leb}
use mathlib.Core.List.{List, [], ◌∷◌, ◌++◌}
use native.Mathlib.Omega.{arith}

module _ {ℓ} {A : Type ℓ} where
  abbrev pub length : List A → ℕ
  length [] = 0
  length (x ∷ xs) = suc (length xs)

  abbrev pub any : (A → Bool) → List A → Bool
  any p [] = false
  any p (x ∷ xs) = p x || any p xs

  abbrev pub all : (A → Bool) → List A → Bool
  all p [] = true
  all p (x ∷ xs) = p x && all p xs

  pub length-append : (xs ys : List A) → length (xs ++ ys) ≡ length xs + length ys
  length-append [] ys = omega arith
  length-append (x ∷ xs) ys = omega (arith, length-append xs ys)

  pub any-append : (p : A → Bool) (xs ys : List A) → any p (xs ++ ys) ≡ (any p xs || any p ys)
  any-append p [] ys = refl
  any-append p (x ∷ xs) ys = ground (arith, any-append p xs ys)

module _ {ℓ κ} {A : Type ℓ} (P : A → Type κ) where
  abbrev pub All : List A → Type κ
  All [] = Unit
  All (x ∷ xs) = P x × All xs

  pub All-append : (xs ys : List A) → All xs → All ys → All (xs ++ ys)
  All-append [] ys _ k = k
  All-append (x ∷ xs) ys (p, h) k = (p, All-append xs ys h k)

module _ {ℓ} {A : Type ℓ} where
  abbrev pub drop : ℕ → List A → List A
  drop zero xs = xs
  drop (suc n) [] = []
  drop (suc n) (x ∷ xs) = drop n xs

  pub length-drop : (n : ℕ) (xs : List A) → length (drop n xs) ≡ length xs - n
  length-drop zero xs = omega arith
  length-drop (suc n) [] = omega arith
  length-drop (suc n) (x ∷ xs) = omega (arith, length-drop n xs)

module _ {ℓ} {A : Type ℓ} where
  -- `filter` with a Boolean test.
  abbrev pub filter : (A → Bool) → List A → List A
  filter p [] = []
  filter p (x ∷ xs) = if p x then x ∷ filter p xs else filter p xs

  -- `x` is an element of the list.
  pub data Mem (x : A) : List A → Type ℓ where
    here : {y : A} {ys : List A} → x ≡ y → Mem x (y ∷ ys)
    there : {y : A} {ys : List A} → Mem x ys → Mem x (y ∷ ys)

  pub Mem-cons : (x y : A) (zs : List A) → Mem x (y ∷ zs) → (x ≡ y) ⊎ Mem x zs
  Mem-cons x y zs (here same) = inl same
  Mem-cons x y zs (there h) = inr h

  kept : (p : A → Bool) (x : A) (xs : List A) → Mem x (filter p xs) → Mem x xs × (p x ≡ true)
  kept p x [] h = elim h [ ]
  kept p x (y ∷ ys) h = elim (Bool-cases (p y)) [
    | inl passes ↦ elim (Mem-cons x y (filter p ys) (rw passes at h)) [
      | inl same ↦ (here same, ap p same ∙ passes)
      | inr later ↦ let (m, e) = kept p x ys later in (there m, e)
    ]
    | inr dropped ↦ let (m, e) = kept p x ys (rw dropped at h) in (there m, e)
  ]

  keep : (p : A → Bool) (x : A) (xs : List A) → Mem x xs → p x ≡ true → Mem x (filter p xs)
  keep p x [] h passes = elim h [ ]
  keep p x (y ∷ ys) (here same) passes =
      let first : p y ≡ true = sym (ap p same) ∙ passes in rw first (here same)
  keep p x (y ∷ ys) (there h) passes =
      let later = keep p x ys h passes in
      elim (Bool-cases (p y)) [
        | inl first ↦ rw first (there later)
        | inr dropped ↦ rw dropped later
      ]

  pub filter-Mem :
      (p : A → Bool) (x : A) (xs : List A) → Mem x (filter p xs) ↔ (Mem x xs × (p x ≡ true))
  filter-Mem p x xs = (kept p x xs, λ (h, passes). keep p x xs h passes)

module _ {ℓ} {A : Type ℓ} where
  abbrev pub take : ℕ → List A → List A
  take zero xs = []
  take (suc n) [] = []
  take (suc n) (x ∷ xs) = x ∷ take n xs

  pub take-drop : (n : ℕ) (xs : List A) → take n xs ++ drop n xs ≡ xs
  take-drop zero xs = refl
  take-drop (suc n) [] = refl
  take-drop (suc n) (x ∷ xs) = ap (λ t. x ∷ t) (take-drop n xs)

  pub drop-drop : (m n : ℕ) (xs : List A) → drop n (drop m xs) ≡ drop (m + n) xs
  drop-drop zero n xs = let sum : n ≡ 0 + n = omega arith in ap (λ k. drop k xs) sum
  drop-drop (suc m) zero [] = let sum : suc m ≡ suc m + 0 = omega arith in ap (λ k. drop k []) sum
  drop-drop (suc m) (suc n) [] =
      let sum : suc (m + suc n) ≡ suc m + suc n = omega arith in ap (λ k. drop k []) sum
  drop-drop (suc m) n (x ∷ xs) =
      let sum : suc (m + n) ≡ suc m + n = omega arith in
      drop-drop m n xs ∙ ap (λ k. drop k (x ∷ xs)) sum

  pub length-take :
      (n : ℕ) (xs : List A) → length (take n xs) ≡ (if leb n (length xs) then n else length xs)
  length-take zero xs = ground arith
  length-take (suc n) [] = ground arith
  length-take (suc n) (x ∷ xs) = ground (arith, length-take n xs)

  pub drop_all : (n : ℕ) (xs : List A) → length xs ≤ n → drop n xs ≡ []
  drop_all zero [] h = refl
  drop_all (suc n) [] h = refl
  drop_all zero (x ∷ xs) h = absurd (omega (arith, h))
  drop_all (suc n) (x ∷ xs) h = drop_all n xs (omega (arith, h))
