-- ===== src/Backend/Transfer/Draining.antt =====
-- No call of ownership-transfer.service.ts waits for ever: the lock is always handed on.
use stellar_true_stub.Common.{
  ℕ, ◌+◌, ◌-◌, ◌*◌, ◌≤◌, ◌≡◌, refl, String, Bool, false, Option, List, [], ◌∷◌, arith, length,
}
use stellar_true_stub.Backend.Transfer.{
  OwnershipTransfer, Call, initiate, finalize, Task, entered, has_read, World, Step, go_on, step,
  advance, release, task_at,
}
use stellar_true_stub.Backend.Transfer.Serial.{
  Holds, IsSerial, run, step-IsSerial, start, run-IsSerial,
}

-- How many turns a call needs at most.
abbrev turns : Task → ℕ
turns (entered (finalize outcome)) = 2
turns _ = 1

abbrev turns_of : List Task → ℕ
turns_of [] = 0
turns_of (t ∷ ts) = turns t + turns_of ts

abbrev work : World → ℕ
work w = turns_of w.running + length w.queue * 2

turns-le : (call : Call) → turns (entered call) ≤ 2
turns-le (initiate escrow seller buyer) = omega arith
turns-le (finalize outcome) = omega arith

release-work :
    (stored : Option OwnershipTransfer) (locked : Bool) (queue : List Call)
    → work (release (record { stored = stored; locked = locked; queue = queue; running = [] }))
      ≤ length queue * 2
unfolding release
release-work stored locked [] = omega arith
release-work stored locked (next ∷ rest) = omega (arith, turns-le next)

advance-work :
    (id : String) (now : ℕ) (stored : Option OwnershipTransfer) (locked : Bool) (queue : List Call)
    (running : List Task)
    → Holds stored locked queue running
    → let w : World = record {
      stored = stored;
      locked = locked;
      queue = queue;
      running = running;
    } in
      work (advance id now 0 (task_at 0 running) w).0 ≤ work w - 1
unfolding advance task_at
advance-work id now stored locked queue [] (off, idle) = rw idle (omega arith)
advance-work id now stored locked queue (entered (initiate e s b) ∷ []) (on, fresh) =
    omega (arith, release-work _ locked queue)
advance-work id now stored locked queue (entered (finalize o) ∷ []) (on, fresh) = omega arith
advance-work id now stored locked queue (has_read o seen ∷ []) (on, fresh) =
    omega (arith, release-work _ locked queue)
advance-work id now stored locked queue (t ∷ u ∷ ts) h = absurd h

step-work :
    (id : String) (now : ℕ) (w : World) → IsSerial w → work (step id (go_on 0) now w).0 ≤ work w - 1
unfolding step
step-work id now w h = advance-work id now w.stored w.locked w.queue w.running h

-- Nobody is inside the lock, nobody waits, and the lock is free.
abbrev pub IsIdle : World → Type 0
IsIdle w = (w.running ≡ []) × (w.locked ≡ false) × (w.queue ≡ [])

-- The call inside the lock goes on, at each of the times.
abbrev pub going_on : List ℕ → List (Step × ℕ)
going_on [] = []
going_on (now ∷ times) = (go_on 0, now) ∷ going_on times

idle_of_work :
    (stored : Option OwnershipTransfer) (locked : Bool) (queue : List Call) (running : List Task)
    → Holds stored locked queue running
    → turns_of running ≤ 0
    → (running ≡ []) × (locked ≡ false) × (queue ≡ [])
idle_of_work stored locked queue [] (off, idle) h = (refl, off, idle)
idle_of_work stored locked queue (entered (initiate e s b) ∷ ts) holds h = absurd (omega (arith, h))
idle_of_work stored locked queue (entered (finalize o) ∷ ts) holds h = absurd (omega (arith, h))
idle_of_work stored locked queue (has_read o seen ∷ ts) holds h = absurd (omega (arith, h))

drained :
    (id : String) (times : List ℕ) (w : World)
    → IsSerial w
    → work w ≤ length times
    → IsIdle (run id (going_on times) w)
unfolding run
drained id [] w serial h =
    idle_of_work w.stored w.locked w.queue w.running serial (omega (arith, h))
drained id (now ∷ times) w serial h =
    drained id times (step id (go_on 0) now w).0 (step-IsSerial id (go_on 0) now w serial)
      (omega (arith, h, step-work id now w serial))

turns_of-le :
    (stored : Option OwnershipTransfer) (locked : Bool) (queue : List Call) (running : List Task)
    → Holds stored locked queue running
    → turns_of running ≤ 2
turns_of-le stored locked queue [] h = omega arith
turns_of-le stored locked queue (entered call ∷ []) h = omega (arith, turns-le call)
turns_of-le stored locked queue (has_read o seen ∷ []) h = omega arith
turns_of-le stored locked queue (t ∷ u ∷ ts) h = absurd h

-- Whatever has happened since a start with an unknown transfer and a free lock, when no new call arrives and the call inside the lock takes two
-- turns for itself and two for each call that waits, every call has ended, nobody waits and the
-- lock is free.
pub run-going_on-IsIdle :
    (id : String) (steps : List (Step × ℕ)) (times : List ℕ)
    → 2 + length (run id steps start).queue * 2 ≤ length times
    → IsIdle (run id (going_on times) (run id steps start))
run-going_on-IsIdle id steps times h =
    let w = run id steps start in
    let serial = run-IsSerial id steps in
    drained id times w serial
      (omega (arith, h, turns_of-le w.stored w.locked w.queue w.running serial))
