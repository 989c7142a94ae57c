-- ===== src/Backend/Notification/Course.antt =====
-- How the delivery loop of notification.service.ts goes, and what a send does as a whole.
use stellar_true_stub.Common.{
  ℕ, zero, suc, ◌+◌, ◌≤◌, ◌<◌, ◌≡◌, ◌⊎◌, ◌↔◌, ◌-◌, ◌*◌, ◌^◌, leb, refl, ap, ◌∙◌, eq_iff, inl, inr,
  subst, String, Bool, true, false, ◌==◌, Option, none, some, List, [], ◌∷◌, ◌++◌, Bool-cases,
  Option-cases, Result, ok, err, if◌then◌else◌, arith, ℕ_discrete,
}
use stellar_true_stub.Backend.AppError.{is_blank}
use stellar_true_stub.Backend.Notification.{
  max_delivery_attempts, create_dead_letter, capture_exception, Notification, Thrown,
  classify_error, compute_backoff_delay, Effect, exists_by_event_id, create, deliver, sleep,
  Repository, handle_delivery_failure, give_up, attempts, dispatch_with_retry, after_create,
  after_exists, send_with, send_notification,
}
use stellar_true_stub.Backend.Notification.Errors.{
  IsPermanent, classify_error_iff, IsFinancial, listed_iff,
}

module _ {Content : Type 0} (lower : String → String) (jitter : ℕ → ℕ)
    (delivered : ℕ → Option Thrown) (n : Notification Content) where
  -- The attempt failed in a way that is worth another one.
  abbrev pub Retried : ℕ → Type 0
  Retried i = (e : Thrown) × (delivered i ≡ some e) × (IsPermanent e → ⊥)

  -- 200 ms, doubled with each attempt up to 10 seconds, and the part that chance adds.
  abbrev pub wait : ℕ → ℕ
  wait a = (if leb (200 * 2 ^ (a - 1)) 10_000 then 200 * 2 ^ (a - 1) else 10_000) + jitter a

  -- An attempt, with `more` after it, and the waits between them. The first has the number `a`.
  abbrev pub deliveries : ℕ → ℕ → List (Effect Content)
  deliveries a zero = deliver n ∷ []
  deliveries a (suc more) = deliver n ∷ sleep (wait a) ∷ deliveries (a + 1) more

  -- The dead-letter record and the alert for the error.
  abbrev pub buried : Thrown → Bool → List (Effect Content)
  buried e financial =
      create_dead_letter n e.message 5 financial
      ∷ capture_exception e n.event_id n.kind financial
      ∷ []

  pub data Course (a : ℕ) : List (Effect Content) → Type 0 where
    arrived :
        (more k : ℕ)
        → k ≡ a + more
        → k ≤ max_delivery_attempts
        → ((i : ℕ) → a ≤ i → i < k → Retried i)
        → delivered k ≡ none
        → Course a (deliveries a more)
    given_up :
        (more k : ℕ) (e : Thrown) (financial : Bool)
        → k ≡ a + more
        → k ≤ max_delivery_attempts
        → ((i : ℕ) → a ≤ i → i < k → Retried i)
        → delivered k ≡ some e
        → IsPermanent e ⊎ (k ≡ max_delivery_attempts)
        → (financial ≡ true) ↔ IsFinancial n.kind
        → Course a (deliveries a more ++ buried e financial)

  also :
      (a k : ℕ)
      → Retried a
      → ((i : ℕ) → a + 1 ≤ i → i < k → Retried i)
      → (i : ℕ) → a ≤ i
      → i < k
      → Retried i
  also a k r h i le lt = elim (ℕ_discrete a i) [
    | yes same ↦ subst Retried same r
    | no differs ↦ h i (omega (arith, differs)) lt
  ]

  later :
      (a : ℕ) (l : List (Effect Content))
      → Retried a
      → Course (a + 1) l
      → Course a (deliver n ∷ sleep (compute_backoff_delay jitter a) ∷ l)
  unfolding compute_backoff_delay
  later a l r (arrived more k e le h d) =
      arrived (suc more) k (omega (arith, e)) le (also a k r h) d
  later a l r (given_up more k t f e le h d why money) =
      given_up (suc more) k t f (omega (arith, e)) le (also a k r h) d why money

  none_before : (a : ℕ) → (i : ℕ) → a ≤ i → i < a → Retried i
  none_before a i le lt = absurd (omega (arith, le, lt))

  stop :
      (a : ℕ) (e : Thrown)
      → a ≤ max_delivery_attempts
      → delivered a ≡ some e
      → IsPermanent e ⊎ (a ≡ max_delivery_attempts)
      → Course a (deliver n ∷ handle_delivery_failure n e)
  unfolding handle_delivery_failure
  stop a e le d why = given_up zero a e _ (omega arith) le (none_before a) d why (listed_iff n.kind)

  -- What one attempt decides, from what the attempts after it do.
  attempt-Course :
      (left a : ℕ) (last : Option Thrown)
      → a ≤ max_delivery_attempts
      → ((e : Thrown)
          → delivered a ≡ some e
          → classify_error lower e ≡ true
          → Course a (
              deliver n
              ∷ (if a == max_delivery_attempts
                  then handle_delivery_failure n e
                  else sleep (compute_backoff_delay jitter a)
                    ∷ attempts lower jitter delivered n left (a + 1) (delivered a))))
      → Course a (attempts lower jitter delivered n (suc left) a last)
  unfolding attempts give_up
  attempt-Course left a last room again = elim (Option-cases (delivered a)) [
    | inl fine ↦ rw fine (arrived zero a (omega arith) room (none_before a) fine)
    | inr (e, broken) ↦ rw broken (elim (Bool-cases (classify_error lower e)) [
      | inr permanent ↦
          rw permanent (stop a e room broken (inl ((classify_error_iff lower e).0 permanent)))
      | inl transient ↦ rw transient (again e broken transient)
    ])
  ]

  attempts-Course :
      (left a : ℕ) (last : Option Thrown)
      → a + left ≡ max_delivery_attempts
      → Course a (attempts lower jitter delivered n (suc left) a last)
  attempts-Course zero a last room =
      attempt-Course zero a last (omega (arith, room)) (λ e broken transient.
        let full : (a == max_delivery_attempts) ≡ true = ground (arith, room) in
        rw full (stop a e (omega (arith, room)) broken (inr (omega (arith, room)))))
  attempts-Course (suc left) a last room =
      attempt-Course (suc left) a last (omega (arith, room)) (λ e broken transient.
        let more : (a == max_delivery_attempts) ≡ false = ground (arith, room) in
        rw more (
          later a _ (e, broken, λ p. let false_here = (classify_error_iff lower e).1 p in cc)
            (attempts-Course left (a + 1) (delivered a) (omega (arith, room)))))

-- A notification is delivered, or given up with exactly one dead-letter record and then one alert, after
-- at most 5 attempts. All the attempts before the last one failed with an error that has no status from
-- 400 to 499, and after each of them there was a wait of 200 ms, doubled with each attempt up to 10
-- seconds, and a random part. It is given up where the last one failed too, and its error has such a
-- status or it was the fifth. The record holds the message of the last error and the number 5, and both
-- say whether the notification is of one of the three financial types.
pub dispatch_with_retry-Course :
    {Content : Type 0} (lower : String → String) (jitter : ℕ → ℕ) (delivered : ℕ → Option Thrown)
    (n : Notification Content)
    → Course lower jitter delivered n 1 (dispatch_with_retry lower jitter delivered n)
unfolding dispatch_with_retry
dispatch_with_retry-Course lower jitter delivered n =
    attempts-Course lower jitter delivered n 4 1 none refl

module _ {Content : Type 0} (lower : String → String) (jitter : ℕ → ℕ) (repo : Repository)
    (n : Notification Content) where
  -- The event of the notification, where it has one.
  pub data Event : Option String → Type 0 where
    unnamed : n.event_id ≡ none → Event none
    blank : n.event_id ≡ some "" → Event none
    named : (id : String) → n.event_id ≡ some id → is_blank id ≡ false → Event (some id)

  -- The look for an earlier notification of the event.
  abbrev pub look : Option String → List (Effect Content)
  look none = []
  look (some id) = exists_by_event_id id ∷ []

  -- No earlier notification is known.
  abbrev pub IsNew : Option String → Type 0
  IsNew none = Unit
  IsNew (some id) = repo.exists ≡ ok false

  pub data Sending : List (Effect Content) × Result Thrown (Unit {0}) → Type 0 where
    unknown :
        (id : String) (e : Thrown)
        → Event (some id)
        → repo.exists ≡ err e
        → Sending (exists_by_event_id id ∷ [], err e)
    skipped :
        (id : String)
        → Event (some id)
        → repo.exists ≡ ok true
        → Sending (exists_by_event_id id ∷ [], ok tt)
    not_created :
        (o : Option String) (e : Thrown)
        → Event o
        → IsNew o
        → repo.created ≡ some e
        → Sending (look o ++ (create n ∷ []), err e)
    sent :
        (o : Option String)
        → Event o
        → IsNew o
        → repo.created ≡ none
        → Sending (look o ++ (create n ∷ dispatch_with_retry lower jitter repo.delivered n), ok tt)

  create-Sending :
      (c : Option Thrown)
      → Event none
      → repo.created ≡ c
      → Sending (after_create lower jitter repo n c)
  unfolding after_create
  create-Sending none v k = sent none v tt k
  create-Sending (some e) v k = not_created none e v tt k

  new-Sending :
      (id : String) (c : Option Thrown)
      → Event (some id)
      → repo.exists ≡ ok false
      → repo.created ≡ c
      → Sending (
        exists_by_event_id id ∷ (after_create lower jitter repo n c).0,
        (after_create lower jitter repo n c).1,
      )
  unfolding after_create
  new-Sending id none v h k = sent (some id) v h k
  new-Sending id (some e) v h k = not_created (some id) e v h k

  exists-Sending :
      (id : String) (x : Result Thrown Bool)
      → Event (some id)
      → repo.exists ≡ x
      → Sending (after_exists lower jitter repo n id x)
  unfolding after_exists
  exists-Sending id (err e) v h = unknown id e v h
  exists-Sending id (ok true) v h = skipped id v h
  exists-Sending id (ok false) v h = new-Sending id repo.created v h refl

  with-Sending : (o : Option String) → n.event_id ≡ o → Sending (send_with lower jitter repo n o)
  unfolding send_with
  with-Sending none h = create-Sending repo.created (unnamed h) refl
  with-Sending (some id) h = elim (Bool-cases (is_blank id)) [
    | inl empty ↦
        rw empty (create-Sending repo.created (blank (h ∙ ap some ((eq_iff id "").0 empty))) refl)
    | inr full ↦ rw full (exists-Sending id repo.exists (named id h full) refl)
  ]

  -- A notification for an event that is already recorded delivers and creates nothing. Otherwise it is
  -- created before anything is delivered; where that fails, nothing is delivered, and the error is
  -- thrown; where it succeeds, the delivery loop runs, and nothing is thrown, also if it gives up. What
  -- the look for the event throws is thrown. Without an event there is no such look.
  pub send_notification-Sending : Sending (send_notification lower jitter repo n)
  unfolding send_notification
  send_notification-Sending = with-Sending n.event_id refl
