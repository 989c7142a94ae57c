-- ===== src/Backend/Webhook/Overlap.antt =====
-- Deliveries to webhooks.ts of one request, where the later begins before the earlier is recorded.
use stellar_true_stub.Common.{
  ℕ, ◌≡◌, ap, sym, ◌∙◌, refl, inl, inr, String, Bool, Option, false, none, some, [], ◌∷◌, Result,
  ok, Bool-cases, get_or_else,
}
use stellar_true_stub.Map
use stellar_true_stub.Map.{Map}
use stellar_true_stub.Backend.Webhook.{
  Request, Stored, Reply, Pending, get_event_id, prune_processed_events, dedup, begin,
  update_escrow_status, notify_escrow_status_change, deliver, after_begin, after_update,
  update_done, notify_done, synced, filled,
}
use stellar_true_stub.Backend.Webhook.Capacity.{has-prune}
use stellar_true_stub.Backend.Webhook.Shape.{begin-Fixed}

module _ (hmac : String → String → String) (lower : String → String) where
  dedup-passes :
      (r : Request) (body contract : String) (stored : Stored) (now later : ℕ) (m m' other : Map ℕ)
      (p : Pending)
      → dedup hmac lower r body contract stored now m ≡ (m', ok p)
      → Map.has p.event_id other ≡ false
      → (Map.has p.event_id m' ≡ false)
        × (dedup hmac lower r body contract stored later other
            ≡ (prune_processed_events later other, ok (record p { now = later })))
  unfolding dedup
  dedup-passes r body contract stored now later m m' other p h free =
      let id = get_event_id hmac r body in
      let passed : ℕ → Pending = λ t. record {
        event_id = id;
        contract_id = contract;
        engagement_id = get_or_else (filled r.engagement_id) contract;
        status = stored;
        now = t;
      } in
      elim (Bool-cases (Map.has id (prune_processed_events now m))) [
        | inl old ↦ let k = rw old at h in cc
        | inr fresh ↦
            let k = rw fresh at h in
            let what : ◌≡◌ {A = Result Reply Pending} (ok (passed now)) (ok p) = ap (λ q. q.1) k in
            let same : prune_processed_events now m ≡ m' = ap (λ q. q.0) k in
            let named : id ≡ p.event_id = cc in
            let gone = has-prune id later other (rw (← named) at free) in
            let kept : passed later ≡ record p { now = later } = cc in
            (rw (same, named) at fresh, rw (gone, kept) refl)
      ]

  -- A request that passes to the database leaves a map without its event, and it passes again, at any
  -- later time and with the same event id, whenever the map that it then finds does not hold that
  -- event, whatever else was recorded meanwhile: the first delivery still waiting for the database
  -- does not stop it, nor one whose update has failed.
  pub begin-begin :
      (secret : Option String) (r : Request) (now later : ℕ) (m m' other : Map ℕ) (p : Pending)
      → begin hmac lower secret r now m ≡ (m', ok p)
      → Map.has p.event_id other ≡ false
      → (Map.has p.event_id m' ≡ false)
        × (begin hmac lower secret r later other
            ≡ (prune_processed_events later other, ok (record p { now = later })))
  begin-begin secret r now later m m' other p h free = elim (begin-Fixed hmac lower r secret) [
    | inl (e, fixed) ↦ let k = sym (fixed now m) ∙ h in cc
    | inr (body, contract, stored, fixed) ↦
        let (gone, passes) =
          dedup-passes r body contract stored now later m m' other p (sym (fixed now m) ∙ h) free in
        (gone, fixed later other ∙ passes)
  ]

  -- In particular in the map that the first one left.
  begin-again :
      (secret : Option String) (r : Request) (now later : ℕ) (m m' : Map ℕ) (p : Pending)
      → begin hmac lower secret r now m ≡ (m', ok p)
      → begin hmac lower secret r later m'
        ≡ (prune_processed_events later m', ok (record p { now = later }))
  unfolding Map.get
  begin-again secret r now later m m' p h =
      (begin-begin secret r now later m m' m' p h
        (begin-begin secret r now later m m' [] p h refl).0).1

  -- If a request passes to the database and the update fails, then the next delivery of the request
  -- whose update succeeds calls the update again, notifies about the event, and records it, at its own
  -- time.
  pub deliver-deliver :
      (secret : Option String) (r : Request) (now later rows : ℕ) (b c : Bool) (m m' : Map ℕ)
      (p : Pending)
      → begin hmac lower secret r now m ≡ (m', ok p)
      → deliver hmac lower secret
          (record { request = r; now = later; rows = some rows; notified = c })
          (deliver hmac lower secret
            (record { request = r; now = now; rows = none; notified = b })
            m).processed
        ≡ record {
          processed = Map.set p.event_id later (prune_processed_events later m');
          reply = synced p.contract_id p.engagement_id p.status rows c;
          calls =
              update_escrow_status p.contract_id p.status
              ∷ notify_escrow_status_change p.event_id p.engagement_id
              ∷ [];
        }
  unfolding deliver after_begin after_update update_done notify_done
  deliver-deliver secret r now later rows b c m m' p h =
      rw h (rw (begin-again secret r now later m m' p h) refl)
