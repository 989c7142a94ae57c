-- ===== src/Backend/Webhook/Capacity.antt =====
-- How the parts of webhooks.ts use the map of processed events.
use stellar_true_stub.Common.{
  ℕ, ◌+◌, ◌-◌, ◌≤◌, ◌≡◌, ◌∙◌, ap, sym, zero, suc, String, false, some, [], ◌∷◌, arith, drop,
  length-drop,
}
use stellar_true_stub.Map
use stellar_true_stub.Map.{Map}
use stellar_true_stub.Backend.Webhook.{
  processed_event_ttl_ms, processed_event_max, drop_old, prune_processed_events,
}

size-drop_old_le : (now : ℕ) (m : Map ℕ) → Map.size (drop_old now m) ≤ Map.size m
unfolding drop_old
size-drop_old_le now [] = omega arith
size-drop_old_le now ((id, t) ∷ m) = ground (arith, size-drop_old_le now m)

pub size-prune :
    (now : ℕ) (m : Map ℕ)
    → (Map.size (prune_processed_events now m) ≤ processed_event_max)
      × (Map.size (prune_processed_events now m) ≤ Map.size m)
unfolding prune_processed_events
size-prune now m =
    let kept = drop_old now m in
    let cut = length-drop (Map.size kept - processed_event_max) kept in
    (omega (arith, cut), omega (arith, cut, size-drop_old_le now m))

has-drop : (id : String) (n : ℕ) (m : Map ℕ) → Map.has id m ≡ false → Map.has id (drop n m) ≡ false
unfolding Map.get
has-drop id zero m h = h
has-drop id (suc n) [] h = h
has-drop id (suc n) ((j, t) ∷ m) h = has-drop id n m (ground (arith, h))

has-drop_old :
    (id : String) (now : ℕ) (m : Map ℕ) → Map.has id m ≡ false → Map.has id (drop_old now m) ≡ false
unfolding drop_old Map.get
has-drop_old id now [] h = h
has-drop_old id now ((j, t) ∷ m) h = ground (arith, has-drop_old id now m)

-- An event that is not processed does not become so by a pruning.
pub has-prune :
    (id : String) (now : ℕ) (m : Map ℕ)
    → Map.has id m ≡ false
    → Map.has id (prune_processed_events now m) ≡ false
unfolding prune_processed_events
has-prune id now m h = has-drop id _ (drop_old now m) (has-drop_old id now m h)

-- An event that was processed no longer ago than the time to live stays, where there is room.
get-drop_old :
    (id : String) (now t : ℕ) (m : Map ℕ)
    → Map.get id m ≡ some t
    → now ≤ t + processed_event_ttl_ms
    → Map.get id (drop_old now m) ≡ some t
unfolding drop_old Map.get
get-drop_old id now t [] h le = h
get-drop_old id now t ((j, u) ∷ m) h le = ground (arith, get-drop_old id now t m)

pub get-prune :
    (id : String) (now t : ℕ) (m : Map ℕ)
    → Map.size m ≤ processed_event_max
    → Map.get id m ≡ some t
    → now ≤ t + processed_event_ttl_ms
    → Map.get id (prune_processed_events now m) ≡ some t
unfolding prune_processed_events
get-prune id now t m room h le =
    let kept = drop_old now m in
    let zero_cut : 0 ≡ Map.size kept - processed_event_max =
      omega (arith, room, size-drop_old_le now m) in
    ap (λ n. Map.get id (drop n kept)) (sym zero_cut) ∙ get-drop_old id now t m h le
