-- ===== src/Backend/Transfer/Owner.antt =====
-- Whom the records of ownership-transfer.service.ts name as the owner: who brought the transfer.
use stellar_true_stub.Common.{
  ℕ, zero, suc, inl, inr, Bool-cases, String, Bool, Option, none, some, List, [], ◌∷◌, All,
  All-append,
}
use stellar_true_stub.Backend.Transfer.{
  OwnershipTransfer, Outcome, Call, initiate, finalize, Task, entered, has_read, World, Step,
  arrive, go_on, step, advance, acquire, release, leave, drop_task, task_at, insert_if_absent,
  finalize_read, initiated, is_pending, is_valid,
}
use stellar_true_stub.Backend.Transfer.Serial.{Holds, IsSerial}

module _ (P : String → Type 0) where
  abbrev pub Names : Option OwnershipTransfer → Type 0
  Names none = Unit
  Names (some r) = P r.from_owner

  abbrev pub Brings : Call → Type 0
  Brings (initiate escrow seller buyer) = P seller
  Brings (finalize outcome) = Unit

  abbrev Carries : Task → Type 0
  Carries (entered call) = Brings call
  Carries (has_read outcome seen) = Unit

  -- The owner of the record, and of each that is to be made, has the property.
  abbrev pub IsOwned : World → Type 0
  IsOwned w = Names w.stored × All Brings w.queue × All Carries w.running

  release-IsOwned :
      (stored : Option OwnershipTransfer) (locked : Bool) (queue : List Call)
      → Names stored
      → All Brings queue
      → IsOwned (release (record { stored = stored; locked = locked; queue = queue; running = [] }))
  unfolding release
  release-IsOwned stored locked [] named waiting = (named, tt, tt)
  release-IsOwned stored locked (next ∷ rest) named (first, waiting) = (named, waiting, (first, tt))

  insert-Names :
      (id escrow seller buyer : String) (now : ℕ) (stored : Option OwnershipTransfer)
      → P seller
      → Names stored
      → Names (insert_if_absent (initiated id escrow seller buyer now) stored).0
  unfolding insert_if_absent initiated
  insert-Names id escrow seller buyer now none brought named = brought
  insert-Names id escrow seller buyer now (some old) brought named = named

  finalize-Names :
      (outcome : Outcome) (now : ℕ) (stored : Option OwnershipTransfer)
      → Names stored
      → Names (finalize_read outcome now stored stored).0
  unfolding finalize_read
  finalize-Names outcome now none named = tt
  finalize-Names outcome now (some r) named = elim (Bool-cases (is_pending r.state)) [
    | inl waits ↦ rw waits named
    | inr over ↦ rw over named
  ]

  acquire-IsOwned : (call : Call) (w : World) → Brings call → IsOwned w → IsOwned (acquire call w)
  unfolding acquire
  acquire-IsOwned call w brought (named, waiting, inside) = elim (Bool-cases w.locked) [
    | inl on ↦ rw on (named, All-append _ w.queue (call ∷ []) waiting (brought, tt), inside)
    | inr off ↦ rw off (named, waiting, (brought, inside))
  ]

  advance-IsOwned :
      (id : String) (now i : ℕ) (stored : Option OwnershipTransfer) (locked : Bool)
      (queue : List Call) (running : List Task)
      → Holds stored locked queue running
      → Names stored
      → All Brings queue
      → All Carries running
      → IsOwned
          (advance id now i
            (task_at i running)
            (record { stored = stored; locked = locked; queue = queue; running = running })).0
  unfolding advance task_at leave drop_task
  advance-IsOwned id now i stored locked queue [] h named waiting inside = (named, waiting, tt)
  advance-IsOwned id now zero stored locked queue (entered (initiate e s b) ∷ []) h named waiting
        (brought, _) =
      release-IsOwned _ locked queue (insert-Names id e s b now stored brought named) waiting
  advance-IsOwned id now zero stored locked queue (entered (finalize o) ∷ []) h named waiting
        inside =
      (named, waiting, (tt, tt))
  advance-IsOwned id now zero stored locked queue (has_read o seen ∷ []) (on, fresh) named waiting
        inside =
      rw fresh (release-IsOwned _ locked queue (finalize-Names o now stored named) waiting)
  advance-IsOwned id now (suc i) stored locked queue (t ∷ []) h named waiting inside =
      (named, waiting, inside)
  advance-IsOwned id now i stored locked queue (t ∷ u ∷ ts) h named waiting inside = absurd h

  abbrev pub StepBrings : Step → Type 0
  StepBrings (arrive call) = Brings call
  StepBrings (go_on i) = Unit

  pub step-IsOwned :
      (id : String) (x : Step) (now : ℕ) (w : World)
      → IsSerial w
      → StepBrings x
      → IsOwned w
      → IsOwned (step id x now w).0
  unfolding step
  step-IsOwned id (arrive call) now w h brought owned = elim (Bool-cases (is_valid id call)) [
    | inl valid ↦ rw valid (acquire-IsOwned call w brought owned)
    | inr invalid ↦ rw invalid owned
  ]
  step-IsOwned id (go_on i) now w h brought (named, waiting, inside) =
      advance-IsOwned id now i w.stored w.locked w.queue w.running h named waiting inside
