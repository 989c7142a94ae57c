-- ===== src/Frontend/Retry/Backoff.antt =====
-- How often retry.ts calls its function, what it returns, and how long it waits.
use stellar_true_stub.Common.{
  ℕ, zero, suc, ◌+◌, ◌*◌, ◌^◌, ◌≤◌, ◌<◌, ◌≡◌, ◌⊎◌, refl, inl, inr, Bool, true, false, not, Option,
  none, some, List, [], ◌∷◌, Result, ok, err, arith, Bool-cases, ap, subst, sym,
}
use native.Mathlib.Numerals.{add-one}
use native.Mathlib.Nat.{zero-add, add-zero, pow-suc}
use stellar_true_stub.Frontend.Retry.{Effect, called, retried, slept, loop, retry_with_backoff}

module _ {E : Type 0} where
  -- How often the function is called.
  abbrev pub calls : List (Effect E) → ℕ
  calls [] = 0
  calls (called n ∷ es) = suc (calls es)
  calls (retried n e ∷ es) = calls es
  calls (slept ms ∷ es) = calls es

  -- How long the loop waits in all.
  abbrev pub total_wait : List (Effect E) → ℕ
  total_wait [] = 0
  total_wait (called n ∷ es) = total_wait es
  total_wait (retried n e ∷ es) = total_wait es
  total_wait (slept ms ∷ es) = ms + total_wait es

module _ {E A : Type 0} (is_transient : E → Bool) (fn : ℕ → Result E A) (base : ℕ) where
  -- A result after which the loop makes no further call.
  abbrev pub decides : Result E A → Bool
  decides (ok a) = true
  decides (err e) = not (is_transient e)

  -- The result of a call as that of the whole.
  abbrev pub outcome : Result E A → Result (Option E) A
  outcome (ok a) = ok a
  outcome (err e) = err (some e)

  abbrev looped : ℕ → ℕ → Option E → List (Effect E) × Result (Option E) A
  looped left attempt last = loop is_transient fn base left attempt last

  loop_last :
      (left attempt : ℕ) (last : Option E)
      → (decides (fn attempt) ≡ true) ⊎ (left ≡ 0)
      → looped (suc left) attempt last ≡ (called attempt ∷ [], outcome (fn attempt))
  unfolding loop
  loop_last zero attempt last stop = ground arith
  loop_last (suc left) attempt last stop = ground arith

  loop_next :
      (left attempt : ℕ) (last : Option E)
      → decides (fn attempt) ≡ false
      → (e : E) × (fn attempt ≡ err e)
        × (looped (suc (suc left)) attempt last ≡ (
          called attempt
              ∷ retried (attempt + 1) e
              ∷ slept (base * 2 ^ attempt)
              ∷ (looped (suc left) (suc attempt) (some e)).0,
          (looped (suc left) (suc attempt) (some e)).1,
        ))
  unfolding loop
  loop_next left attempt last h = by_result (fn attempt) refl
    where
      by_result :
          (r : Result E A)
          → fn attempt ≡ r
          → (e : E) × (fn attempt ≡ err e)
            × (looped (suc (suc left)) attempt last ≡ (
              called attempt
                  ∷ retried (attempt + 1) e
                  ∷ slept (base * 2 ^ attempt)
                  ∷ (looped (suc left) (suc attempt) (some e)).0,
              (looped (suc left) (suc attempt) (some e)).1,
            ))
      by_result (ok a) g = absurd (ground arith)
      by_result (err e) g = (e, g, ground arith)

  shift : (a d : ℕ) → a + suc d ≡ suc a + d
  shift a d = omega arith

  loop-stops :
      (left attempt d : ℕ) (last : Option E)
      → d ≤ left
      → ((j : ℕ) → j < d → decides (fn (attempt + j)) ≡ false)
      → (decides (fn (attempt + d)) ≡ true) ⊎ (d ≡ left)
      → ((looped (suc left) attempt last).1 ≡ outcome (fn (attempt + d)))
        × (calls (looped (suc left) attempt last).0 ≡ suc d)
  loop-stops left attempt zero last le go stop =
      rw (add-zero, loop_last left attempt last (ground (arith, add-zero attempt))) (refl, refl)
  loop-stops zero attempt (suc d) last le go stop = absurd (omega arith)
  loop-stops (suc left) attempt (suc d) last le go stop =
      let (e, g, same) = loop_next left attempt last (rw add-zero at (go 0 (omega arith))) in
      let ih =
        loop-stops left (suc attempt) d (some e) (omega arith)
          (λ j lt. subst (λ n. decides (fn n) ≡ false) (shift attempt j) (go (suc j) (omega arith)))
          (subst (λ n. (decides (fn n) ≡ true) ⊎ (d ≡ left)) (shift attempt d) (ground arith)) in
      rw (same, shift) (ih.0, ap suc ih.1)

  doubled : (attempt : ℕ) → base * 2 ^ suc attempt ≡ 2 * (base * 2 ^ attempt)
  doubled attempt = rw pow-suc (grind arith)

  wait_once : (attempt : ℕ) → base * 2 ^ (attempt + 1) ≡ 2 * (0 + base * 2 ^ attempt)
  wait_once attempt = simp (add-one, pow-suc) (grind arith)

  loop-wait :
      (left attempt : ℕ) (last : Option E)
      → base * 2 ^ (attempt + calls (looped (suc left) attempt last).0)
        ≡ 2 * (total_wait (looped (suc left) attempt last).0 + base * 2 ^ attempt)
  loop-wait zero attempt last = rw (loop_last zero attempt last (inr refl)) (wait_once attempt)
  loop-wait (suc left) attempt last = elim (Bool-cases (decides (fn attempt))) [
    | inl stop ↦ rw (loop_last (suc left) attempt last (inl stop)) (wait_once attempt)
    | inr go ↦
        let (e, g, same) = loop_next left attempt last go in
        let ih = loop-wait left (suc attempt) (some e) in
        rw (same, shift) (omega (arith, ih, doubled attempt))
  ]

  -- With at least one attempt, the function is called up to and including the first call that
  -- returns or throws an error that is not transient, or up to the last attempt where there is no
  -- such call, and what that call returned or threw is what comes out. The attempts before it all
  -- threw transient errors.
  pub retry-stops :
      (n i : ℕ)
      → i ≤ n
      → ((j : ℕ) → j < i → decides (fn j) ≡ false)
      → (decides (fn i) ≡ true) ⊎ (i ≡ n)
      → ((retry_with_backoff is_transient fn base (suc n)).1 ≡ outcome (fn i))
        × (calls (retry_with_backoff is_transient fn base (suc n)).0 ≡ suc i)
  unfolding retry_with_backoff
  retry-stops n i le go stop =
      let from_zero : (j : ℕ) → j ≡ 0 + j = λ j. omega arith in
      subst
        (λ k.
          ((looped (suc n) 0 none).1 ≡ outcome (fn k)) × (calls (looped (suc n) 0 none).0 ≡ suc i))
        (sym (from_zero i))
        (loop-stops n 0 i none le
          (λ j lt. subst (λ k. decides (fn k) ≡ false) (from_zero j) (go j lt))
          (subst (λ k. (decides (fn k) ≡ true) ⊎ (i ≡ n)) (from_zero i) stop))

  -- With at least one attempt, the total wait and the number of calls go together: the total wait and
  -- one base delay make half of the base delay times 2 to the number of calls, as the waits double
  -- from the base delay on and there is one between two calls.
  pub retry-wait :
      (n : ℕ)
      → let effects = (retry_with_backoff is_transient fn base (suc n)).0 in
        2 * (total_wait effects + base) ≡ base * 2 ^ calls effects
  unfolding retry_with_backoff
  retry-wait n =
      let c = calls (looped (suc n) 0 none).0 in
      let total =
        subst (λ k. base * 2 ^ k ≡ 2 * (total_wait (looped (suc n) 0 none).0 + base * 2 ^ 0))
          (zero-add c) (loop-wait n 0 none) in
      omega (arith, total)
