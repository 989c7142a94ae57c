-- ===== src/Backend/Transfer/Serial.antt =====
-- Mutual exclusion in ownership-transfer.service.ts, and what it gives: one outcome.
use stellar_true_stub.Common.{
  ℕ, zero, suc, ◌+◌, ◌≤◌, ◌≡◌, refl, inl, inr, Bool-cases, String, Bool, true, false, Option, none,
  some, List, [], ◌∷◌, arith, Result, ok, err, is_ok,
}
use stellar_true_stub.Backend.AppError.{AppError}
use stellar_true_stub.Backend.Transfer.{
  pending, OwnershipTransfer, Outcome, Call, initiate, finalize, Task, entered, has_read, World,
  Step, arrive, go_on, step, advance, acquire, release, release_to, task_at, insert_if_absent,
  finalize_read, initiated, is_pending, is_valid,
}

-- What the call has read is what is stored.
abbrev pub IsFresh : Option OwnershipTransfer → Task → Type 0
IsFresh stored (entered call) = Unit
IsFresh stored (has_read outcome seen) = seen ≡ stored

abbrev pub Holds : Option OwnershipTransfer → Bool → List Call → List Task → Type 0
Holds stored locked queue [] = (locked ≡ false) × (queue ≡ [])
Holds stored locked queue (t ∷ []) = (locked ≡ true) × IsFresh stored t
Holds stored locked queue (t ∷ u ∷ ts) = ⊥

-- At most one call is inside the lock, which is locked exactly then; nobody waits for a free lock;
-- and what the call inside has read is still what is stored.
abbrev pub IsSerial : World → Type 0
IsSerial w = Holds w.stored w.locked w.queue w.running

abbrev pub start : World
start = record { stored = none; locked = false; queue = []; running = [] }

-- How far the transfer has come.
abbrev pub rank : Option OwnershipTransfer → ℕ
rank none = 0
rank (some r) = elim r.state [ pending ↦ 1 | _ ↦ 2 ]

abbrev pub is_success : Option (Result AppError OwnershipTransfer) → Bool
is_success none = false
is_success (some answer) = is_ok answer

release-IsSerial :
    (stored : Option OwnershipTransfer) (queue : List Call)
    → IsSerial (release (record { stored = stored; locked = true; queue = queue; running = [] }))
unfolding release
release-IsSerial stored [] = (refl, refl)
release-IsSerial stored (next ∷ rest) = (refl, tt)

release-stored : (w : World) → (release w).stored ≡ w.stored
unfolding release
release-stored w = to w.queue
  where
    to : (queue : List Call) → (release_to queue w).stored ≡ w.stored
    to [] = refl
    to (next ∷ rest) = refl

acquire-IsSerial :
    (call : Call) (stored : Option OwnershipTransfer) (locked : Bool) (queue : List Call)
    (running : List Task)
    → Holds stored locked queue running
    → IsSerial (
        acquire call
          (record { stored = stored; locked = locked; queue = queue; running = running }))
unfolding acquire
acquire-IsSerial call stored locked queue [] (off, idle) = rw off (refl, tt)
acquire-IsSerial call stored locked queue (t ∷ []) (on, fresh) = rw on (refl, fresh)
acquire-IsSerial call stored locked queue (t ∷ u ∷ ts) h = absurd h

advance-IsSerial :
    (id : String) (now i : ℕ) (stored : Option OwnershipTransfer) (locked : Bool)
    (queue : List Call) (running : List Task)
    → Holds stored locked queue running
    → IsSerial
        (advance id now i
          (task_at i running)
          (record { stored = stored; locked = locked; queue = queue; running = running })).0
unfolding advance task_at
advance-IsSerial id now i stored locked queue [] h = h
advance-IsSerial id now zero stored locked queue (entered (initiate e s b) ∷ []) (on, fresh) =
    rw on (release-IsSerial _ queue)
advance-IsSerial id now zero stored locked queue (entered (finalize o) ∷ []) (on, fresh) =
    (on, refl)
advance-IsSerial id now zero stored locked queue (has_read o seen ∷ []) (on, fresh) =
    rw on (release-IsSerial _ queue)
advance-IsSerial id now (suc i) stored locked queue (t ∷ []) h = h
advance-IsSerial id now i stored locked queue (t ∷ u ∷ ts) h = absurd h

pub step-IsSerial :
    (id : String) (x : Step) (now : ℕ) (w : World) → IsSerial w → IsSerial (step id x now w).0
unfolding step
step-IsSerial id (arrive call) now w h = elim (Bool-cases (is_valid id call)) [
  | inl valid ↦ rw valid (acquire-IsSerial call w.stored w.locked w.queue w.running h)
  | inr invalid ↦ rw invalid h
]
step-IsSerial id (go_on i) now w h = advance-IsSerial id now i w.stored w.locked w.queue w.running h

-- The weight of an answer is that of the record which it returns.
abbrev answered : (Option OwnershipTransfer → ℕ) → Option (Result AppError OwnershipTransfer) → ℕ
answered f none = 0
answered f (some (err e)) = 0
answered f (some (ok r)) = f (some r)

-- 1 for a transfer that is accepted or cancelled.
abbrev pub decided : Option OwnershipTransfer → ℕ
decided none = 0
decided (some r) = elim r.state [ pending ↦ 0 | _ ↦ 1 ]

insert-decided :
    (id escrow seller buyer : String) (now : ℕ) (stored : Option OwnershipTransfer)
    → let answer = insert_if_absent (initiated id escrow seller buyer now) stored in
      decided stored + answered decided (some answer.1) ≤ decided answer.0
unfolding insert_if_absent initiated
insert-decided id escrow seller buyer now none = omega arith
insert-decided id escrow seller buyer now (some old) = omega arith

finalize-decided :
    (outcome : Outcome) (now : ℕ) (stored : Option OwnershipTransfer)
    → let answer = finalize_read outcome now stored stored in
      decided stored + answered decided (some answer.1) ≤ decided answer.0
unfolding finalize_read is_pending
finalize-decided outcome now none = omega arith
finalize-decided outcome now (some r) = ground arith

advance-decided :
    (id : String) (now i : ℕ) (stored : Option OwnershipTransfer) (locked : Bool)
    (queue : List Call) (running : List Task)
    → Holds stored locked queue running
    → let w : World = record {
      stored = stored;
      locked = locked;
      queue = queue;
      running = running;
    } in
      let after = advance id now i (task_at i running) w in
      decided stored + answered decided after.1 ≤ decided after.0.stored
unfolding advance task_at
advance-decided id now i stored locked queue [] h = omega arith
advance-decided id now zero stored locked queue (entered (initiate e s b) ∷ []) (on, fresh) =
    rw release-stored (insert-decided id e s b now stored)
advance-decided id now zero stored locked queue (entered (finalize o) ∷ []) (on, fresh) =
    omega arith
advance-decided id now zero stored locked queue (has_read o seen ∷ []) (on, fresh) =
    rw (release-stored, fresh) (finalize-decided o now stored)
advance-decided id now (suc i) stored locked queue (t ∷ []) h = omega arith
advance-decided id now i stored locked queue (t ∷ u ∷ ts) h = absurd h

step-decided :
    (id : String) (x : Step) (now : ℕ) (w : World)
    → IsSerial w
    → decided w.stored + answered decided (step id x now w).1 ≤ decided (step id x now w).0.stored
unfolding step acquire
step-decided id (arrive call) now w h = ground arith
step-decided id (go_on i) now w h = advance-decided id now i w.stored w.locked w.queue w.running h

unfoldable pub run : String → List (Step × ℕ) → World → World
run id [] w = w
run id ((x, now) ∷ rest) w = run id rest (step id x now w).0

-- How many calls return with the transfer accepted or cancelled.
unfoldable pub decisions : String → List (Step × ℕ) → World → ℕ
decisions id [] w = 0
decisions id ((x, now) ∷ rest) w =
    answered decided (step id x now w).1 + decisions id rest (step id x now w).0

decided-le : (o : Option OwnershipTransfer) → decided o ≤ 1
decided-le none = omega arith
decided-le (some r) = ground arith

decisions-run :
    (id : String) (steps : List (Step × ℕ)) (w : World)
    → IsSerial w
    → IsSerial (run id steps w)
      × (decided w.stored + decisions id steps w ≤ decided (run id steps w).stored)
unfolding run decisions
decisions-run id [] w h = (h, omega arith)
decisions-run id ((x, now) ∷ rest) w h =
    let (serial, le) = decisions-run id rest (step id x now w).0 (step-IsSerial id x now w h) in
    (serial, omega (arith, le, step-decided id x now w h))

-- From a transfer that is unknown and a lock that is free, however the calls on the transfer
-- arrive and interleave, at most one of them returns with the transfer accepted or cancelled.
pub decisions_bound : (id : String) (steps : List (Step × ℕ)) → decisions id steps start ≤ 1
decisions_bound id steps =
    let (_, le) = decisions-run id steps start (refl, refl) in
    omega (arith, le, decided-le (run id steps start).stored)

-- From a transfer that is unknown and a lock that is free, however the calls on the transfer
-- arrive and interleave, at most one is inside the lock, which is locked exactly then; nobody waits for a free lock; and what that call has read is what is stored.
pub run-IsSerial : (id : String) (steps : List (Step × ℕ)) → IsSerial (run id steps start)
run-IsSerial id steps = (decisions-run id steps start (refl, refl)).0
