-- ===== src/Backend/Webhook/Replays.antt =====
-- Sequences of deliveries to webhooks.ts that do not overlap: the replay guard, and the map's size.
use stellar_true_stub.Common.{
  ℕ, ◌+◌, ◌≤◌, ◌≡◌, ◌⊎◌, ◌∙◌, refl, inl, inr, String, true, false, Option, none, some, List, [],
  ◌∷◌, ◌++◌, if◌then◌else◌, str_eq, eq_iff, Bool-cases, arith, length, All, subst,
}
use stellar_true_stub.Map
use stellar_true_stub.Map.{Map}
use stellar_true_stub.Map.Laws
use stellar_true_stub.Backend.Webhook.{
  Stored, Reply, processed_event_ttl_ms, processed_event_max, get_event_id, prune_processed_events,
  dedup, Delivery, Call, update_escrow_status, notify_escrow_status_change, Outcome, deliver,
  after_begin, after_update, update_done,
}
use stellar_true_stub.Backend.Webhook.Capacity.{size-prune, get-prune}
use stellar_true_stub.Backend.Webhook.Shape.{begin-Fixed}

-- How many of the calls notify about the event `id`.
pub notified : String → List Call → ℕ
notified id [] = 0
notified id (update_escrow_status c s ∷ l) = notified id l
notified id (notify_escrow_status_change e g ∷ l) = (if str_eq e id then 1 else 0) + notified id l

notified-append :
    (id : String) (l k : List Call) → notified id (l ++ k) ≡ notified id l + notified id k
unfolding notified
notified-append id [] k = omega arith
notified-append id (update_escrow_status c s ∷ l) k = notified-append id l k
notified-append id (notify_escrow_status_change e g ∷ l) k = omega (arith, notified-append id l k)

-- A delivery is refused, or is a duplicate, or its update fails, or it notifies and is recorded.
pub data Effect (d : Delivery) (m : Map ℕ) : Outcome → Type 0 where
  refused : (e : Reply) → Effect d m (record { processed = m; reply = e; calls = [] })
  seen :
      (e : Reply)
      → Effect d m (record { processed = prune_processed_events d.now m; reply = e; calls = [] })
  failed :
      (e : Reply) (c : String) (s : Stored)
      → Effect d m (record {
        processed = prune_processed_events d.now m;
        reply = e;
        calls = update_escrow_status c s ∷ [];
      })
  delivered :
      (e : Reply) (c g id : String) (s : Stored)
      → Map.has id (prune_processed_events d.now m) ≡ false
      → Effect d m (record {
        processed = Map.set id d.now (prune_processed_events d.now m);
        reply = e;
        calls = update_escrow_status c s ∷ notify_escrow_status_change id g ∷ [];
      })

module _ (hmac : String → String → String) (lower : String → String) (secret : Option String) where
  -- The deliveries one after the other, with all their calls in order.
  pub run : List Delivery → Map ℕ → Map ℕ × List Call
  run [] m = (m, [])
  run (d ∷ ds) m =
      let o = deliver hmac lower secret d m in
      let (m', calls) = run ds o.processed in (m', o.calls ++ calls)

  dedup-Effect :
      (d : Delivery) (body contract : String) (stored : Stored) (m : Map ℕ) (rows : Option ℕ)
      → Effect d m
          (after_begin rows d.notified (dedup hmac lower d.request body contract stored d.now m))
  unfolding dedup after_begin after_update update_done
  dedup-Effect d body contract stored m none =
      elim (Bool-cases
        (Map.has (get_event_id hmac d.request body) (prune_processed_events d.now m))) [
          | inl old ↦ rw old (seen _)
          | inr fresh ↦ rw fresh (failed _ _ _)
        ]
  dedup-Effect d body contract stored m (some rows) =
      elim (Bool-cases
        (Map.has (get_event_id hmac d.request body) (prune_processed_events d.now m))) [
          | inl old ↦ rw old (seen _)
          | inr fresh ↦ rw fresh (delivered _ _ _ _ _ fresh)
        ]

  pub deliver-Effect : (d : Delivery) (m : Map ℕ) → Effect d m (deliver hmac lower secret d m)
  unfolding deliver after_begin
  deliver-Effect d m = elim (begin-Fixed hmac lower d.request secret) [
    | inl (e, h) ↦ rw (h d.now m) (refused e)
    | inr (body, contract, stored, h) ↦
        rw (h d.now m) (dedup-Effect d body contract stored m d.rows)
  ]

-- One delivery adds at most one entry to the map, and never leaves more than the maximum and one.
Effect-size :
    (d : Delivery) (m : Map ℕ) (o : Outcome)
    → Effect d m o
    → Map.size m ≤ processed_event_max + 1
    → (Map.size o.processed ≤ Map.size m + 1) × (Map.size o.processed ≤ processed_event_max + 1)
Effect-size d m o (refused e) h = omega (arith, h)
Effect-size d m o (seen e) h = omega (arith, size-prune d.now m)
Effect-size d m o (failed e c s) h = omega (arith, size-prune d.now m)
Effect-size d m o (delivered e c g id s fresh) h =
    ground (arith, size-prune d.now m, Laws.size-set id d.now (prune_processed_events d.now m))

-- The map has `id` with a time that is not before `t0`.
abbrev pub Recent : ℕ → String → Map ℕ → Type 0
Recent t0 id m = (t : ℕ) × (Map.get id m ≡ some t) × (t0 ≤ t)

module _ (t0 : ℕ) (id : String) where
  prune-Recent :
      (now : ℕ) (m : Map ℕ)
      → Map.size m ≤ processed_event_max
      → now ≤ t0 + processed_event_ttl_ms
      → Recent t0 id m
      → Recent t0 id (prune_processed_events now m)
  prune-Recent now m room late (t, h, le) = (t, get-prune id now t m room h (omega arith), le)

  -- A delivery that leaves the map's memory of `id`, or notifies about `id` and makes that memory.
  abbrev Once : Map ℕ → Outcome → Type 0
  Once m o =
      ((notified id o.calls ≡ 0) × (Recent t0 id m → Recent t0 id o.processed))
      ⊎ ((notified id o.calls ≡ 1) × Recent t0 id o.processed × (Recent t0 id m → ⊥))

  Effect-Once :
      (d : Delivery) (m : Map ℕ) (o : Outcome)
      → Effect d m o
      → Map.size m ≤ processed_event_max
      → t0 ≤ d.now
      → d.now ≤ t0 + processed_event_ttl_ms
      → Once m o
  unfolding notified
  Effect-Once d m o (refused e) room early late = inl (refl, λ h. h)
  Effect-Once d m o (seen e) room early late = inl (refl, prune-Recent d.now m room late)
  Effect-Once d m o (failed e c s) room early late = inl (refl, prune-Recent d.now m room late)
  Effect-Once d m o (delivered e c g j s fresh) room early late =
      let write = Laws.get-set j id d.now (prune_processed_events d.now m) in
      let keep = prune-Recent d.now m room late in
      let gone : str_eq j id ≡ true → Recent t0 id m → ⊥ = λ same h.
        let (t, k, le) = keep h in
        let there =
          subst (λ i. Map.has i (prune_processed_events d.now m) ≡ false) ((eq_iff j id).0 same)
            fresh in
        ground (arith, there, k) in
      elim (Bool-cases (str_eq j id)) [
        | inl same ↦ inr (rw same refl, (d.now, rw same at write, early), gone same)
        | inr other ↦
            inl (rw other refl, λ h. let (t, k, le) = keep h in (t, (rw other at write) ∙ k, le))
      ]

module _ (hmac : String → String → String) (lower : String → String) (secret : Option String)
    (t0 : ℕ) (id : String) where
  abbrev Within : Delivery → Type 0
  Within d = (t0 ≤ d.now) × (d.now ≤ t0 + processed_event_ttl_ms)

  step :
      (d : Delivery) (m : Map ℕ)
      → Map.size m ≤ processed_event_max
      → Within d
      → Once t0 id m (deliver hmac lower secret d m)
  step d m room w = Effect-Once t0 id d m _ (deliver-Effect hmac lower secret d m) room w.0 w.1

  grows :
      (d : Delivery) (m : Map ℕ)
      → Map.size m ≤ processed_event_max
      → Map.size (deliver hmac lower secret d m).processed ≤ Map.size m + 1
  grows d m room =
      (Effect-size d m _ (deliver-Effect hmac lower secret d m) (omega (arith, room))).0

  run-Recent :
      (ds : List Delivery) (m : Map ℕ)
      → Map.size m + length ds ≤ processed_event_max
      → All Within ds
      → Recent t0 id m
      → notified id (run hmac lower secret ds m).1 ≡ 0
  unfolding run notified
  run-Recent [] m room w r = refl
  run-Recent (d ∷ ds) m room (w, ws) r =
      let here : Map.size m ≤ processed_event_max = omega (arith, room) in
      let o = deliver hmac lower secret d m in
      let later = λ (k : Recent t0 id o.processed).
        run-Recent ds o.processed (omega (arith, room, grows d m here)) ws k in
      let sum = notified-append id o.calls (run hmac lower secret ds o.processed).1 in
      elim (step d m here w) [
        | inl (none_here, keep) ↦ omega (arith, sum, none_here, later (keep r))
        | inr (one, mark, fresh) ↦ absurd (fresh r)
      ]

  -- Among deliveries that do not overlap, that all come within the 24 hours after `t0`, and for which
  -- the map of processed events has room, at most one notifies about an event, however often the
  -- event is delivered and whatever the signatures, the other fields and the database's answers are.
  pub run-notified_le :
      (ds : List Delivery) (m : Map ℕ)
      → Map.size m + length ds ≤ processed_event_max
      → All Within ds
      → notified id (run hmac lower secret ds m).1 ≤ 1
  unfolding run notified
  run-notified_le [] m room ws = omega arith
  run-notified_le (d ∷ ds) m room (w, ws) =
      let here : Map.size m ≤ processed_event_max = omega (arith, room) in
      let o = deliver hmac lower secret d m in
      let left : Map.size o.processed + length ds ≤ processed_event_max =
        omega (arith, room, grows d m here) in
      let sum = notified-append id o.calls (run hmac lower secret ds o.processed).1 in
      elim (step d m here w) [
        | inl (none_here, keep) ↦
            omega (arith, sum, none_here, run-notified_le ds o.processed left ws)
        | inr (one, mark, fresh) ↦ omega (arith, sum, one, run-Recent ds o.processed left ws mark)
      ]

module _ (hmac : String → String → String) (lower : String → String) (secret : Option String) where
  -- After any sequence of deliveries that do not overlap, at any times, the map of processed events
  -- has at most 10,001 entries, if it had at most 10,001 before.
  pub size-run_le :
      (ds : List Delivery) (m : Map ℕ)
      → Map.size m ≤ processed_event_max + 1
      → Map.size (run hmac lower secret ds m).0 ≤ processed_event_max + 1
  unfolding run
  size-run_le [] m h = h
  size-run_le (d ∷ ds) m h =
      let o = deliver hmac lower secret d m in
      size-run_le ds o.processed (Effect-size d m o (deliver-Effect hmac lower secret d m) h).1
