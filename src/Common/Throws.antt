-- ===== src/Common/Throws.antt =====
-- Code that reads and writes a store and may throw. The store that a call leaves behind is part
-- of its result on every path, so that what a throwing call has written is visible.
use mathlib.Core.Bool.{Bool, true, false}

-- What a call returns or throws.
pub data Result {ℓ} (E A : Type ℓ) : Type ℓ where
  ok : A → Result E A
  err : E → Result E A

abbrev pub Action {ℓ} : Type ℓ → Type ℓ → Type ℓ → Type ℓ
Action S E A = S → S × Result E A

abbrev pub continue {ℓ} : {S E A B : Type ℓ} → S × Result E A → (A → Action S E B) → S × Result E B
continue (s, ok a) f = f a s
continue (s, err e) f = (s, err e)

infixl 5 ◌>>=◌ ◌>>◌
abbrev pub ◌>>=◌ {ℓ} : {S E A B : Type ℓ} → Action S E A → (A → Action S E B) → Action S E B
◌>>=◌ m f s = continue (m s) f

abbrev pub ◌>>◌ {ℓ} : {S E A B : Type ℓ} → Action S E A → Action S E B → Action S E B
◌>>◌ m k s = continue (m s) (λ _. k)

abbrev pub pure {ℓ} : {S E A : Type ℓ} → A → Action S E A
pure a s = (s, ok a)

abbrev pub throw {ℓ} : {S E A : Type ℓ} → E → Action S E A
throw e s = (s, err e)

-- The store, read.
abbrev pub get_store {ℓ} : {S E : Type ℓ} → Action S E S
get_store s = (s, ok s)

-- The store, written.
abbrev pub put_store {ℓ} : {S E : Type ℓ} → S → Action S E (Unit {ℓ})
put_store s _ = (s, ok tt)

-- A call that returns, as a test.
abbrev pub is_ok {ℓ} : {E A : Type ℓ} → Result E A → Bool
is_ok (ok _) = true
is_ok (err _) = false
