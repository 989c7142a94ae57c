-- ===== src/Frontend/Retry.antt =====
-- apps/frontend/src/lib/retry.ts: retries with exponential back-off. What the caught value tells
-- is a record with the fields that are read, or `none` where it is null or undefined; a status
-- that is no number is an absent one. Lower-casing is Unicode's and is the parameter `lower`. The
-- function that is retried is given by what each of its calls returns or throws, and what the
-- loop does besides is a list of effects.
pub mod Transient
pub mod Backoff
mod Examples
use Prim.Native.Char.{Char, code}
use Prim.Native.String
use stellar_true_stub.Common.{
  ℕ, zero, suc, ◌+◌, ◌-◌, ◌*◌, ◌^◌, String, Bool, true, false, ◌&&◌, ◌||◌, Option, none, some, List,
  [], ◌∷◌, ◌++◌, if◌then◌else◌, ◌==◌, any, or_else, get_or_else, Result, ok, err, str_eq,
}

-- What `isTransientError` reads of an error.
pub record HttpErrorLike : Type 0 where
  pub response_status : Option ℕ
  pub status : Option ℕ
  pub message : Option String

is_prefix : String → String → Bool
is_prefix String.[] s = true
is_prefix (String.◌∷◌ c p) String.[] = false
is_prefix (String.◌∷◌ c p) (String.◌∷◌ d s) = code c == code d && is_prefix p s

-- `s.includes(p)`.
pub includes : String → String → Bool
unfolding is_prefix
includes String.[] p = is_prefix p String.[]
includes (String.◌∷◌ c s) p = is_prefix p (String.◌∷◌ c s) || includes s p

abbrev pub definitive_patterns : List String
definitive_patterns =
    "insufficient" ∷ "balance" ∷ "rejected" ∷ "invalid signature" ∷ "bad auth" ∷ "unauthorized" ∷ []

abbrev transient_patterns : List String
transient_patterns =
    "timeout" ∷ "timed out" ∷ "network error" ∷ "network request failed" ∷ "econnreset"
    ∷ "econnrefused" ∷ "fetch failed" ∷ "503" ∷ "504" ∷ "429" ∷ "sequence" ∷ "eagain" ∷ "try again"
    ∷ "rate limit" ∷ "service unavailable" ∷ []

-- The verdict of a status code, if it has one.
pub status_verdict : Option ℕ → Option Bool
status_verdict none = none
status_verdict (some status) =
    if status == 400 || status == 401 || status == 403
    then some false
    else if status == 429 || status == 503 || status == 504
    then some true
    else none

pub message_verdict : String → Bool
message_verdict message =
    if any (includes message) definitive_patterns
    then false
    else if any (includes message) transient_patterns
    then true
    else true

abbrev lowered : (String → String) → Option String → String
lowered lower none = String.[]
lowered lower (some m) = lower m

pub is_transient_error : (String → String) → Option HttpErrorLike → Bool
unfolding status_verdict message_verdict
is_transient_error lower none = false
is_transient_error lower (some e) =
    get_or_else (status_verdict (or_else e.response_status e.status))
      (message_verdict (lowered lower e.message))

-- What the loop does, in order: a call of the function, a call of `onRetry`, a wait.
pub data Effect (E : Type 0) : Type 0 where
  called : ℕ → Effect E
  retried : ℕ → E → Effect E
  slept : ℕ → Effect E

module _ {E A : Type 0} (is_transient : E → Bool) (fn : ℕ → Result E A) (base_delay_ms : ℕ) where
  -- The loop from `attempt` on, with `left` rounds to go; `last` is `lastError`. What is thrown at
  -- the end is `undefined` where no round was made.
  loop : ℕ → ℕ → Option E → List (Effect E) × Result (Option E) A
  loop zero attempt last = ([], err last)
  loop (suc left) attempt last = elim (fn attempt) [
    | ok a ↦ (called attempt ∷ [], ok a)
    | err e ↦
        if is_transient e
        then elim left [
          | zero ↦ (called attempt ∷ [], err (some e))
          | suc _ ↦
              let (effects, result) = loop left (suc attempt) (some e) in
              (
                called attempt
                    ∷ retried (attempt + 1) e
                    ∷ slept (base_delay_ms * 2 ^ attempt)
                    ∷ effects,
                result,
              )
        ]
        else (called attempt ∷ [], err (some e))
  ]

  pub retry_with_backoff : ℕ → List (Effect E) × Result (Option E) A
  unfolding loop
  retry_with_backoff max_attempts = loop max_attempts 0 none
