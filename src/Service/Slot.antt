-- ===== src/Service/Slot.antt =====
-- The slot for operator commands of src/devlegate/runtime.py. Each function below is one region that the
-- source runs under `_operator_command_lock`, so one step of the threads that share the slot.
pub mod Steps
pub mod Invariant
pub mod Takes
pub mod Sound
pub mod Replay
pub mod Made
use devlegate.Prelude.{
  ℕ, suc, ◌==◌, String, Bool, true, false, not, ◌&&◌, ◌||◌, Option, none, some, List, [], ◌∷◌,
  str_eq, Result, ok, err, ◌>>=◌, ◌>>◌, if◌then◌else◌,
}
use devlegate.Values.{Value, Fields}
use devlegate.Service.Commands.{Request, Command, operator_ack}
use devlegate.Service.Receipts.{Receipt, mutable_receipt, record_receipt}

-- `receipts` is `_state["mutable_receipts"]`; `settled` holds the commands whose admission event is set,
-- with the result or the error that they got, the latest first; `next` is the identity of the next command.
pub record Slot : Type 0 where
  pub pending : Option Command
  pub active : Bool
  pub active_command : Option Command
  pub scheduler_active : Bool
  pub shutting_down : Bool
  pub draining : Bool
  pub cancelled : List ℕ
  pub settled : List (ℕ × Result String Fields)
  pub receipts : Value
  pub next : ℕ

-- How `_submit_operator_command` leaves its locked region: with an exception, with an answer, or to wait
-- for the admission of a command.
pub data Submitted : Type 0 where
  raised : String → Submitted
  answered : Fields → Submitted
  waiting : ℕ → Submitted

abbrev pub as_submitted : Result String Fields → Submitted
as_submitted (err message) = raised message
as_submitted (ok fs) = answered fs

-- `receipt.get("onto", onto)`
abbrev or_else : Option (Option String) → Option String → Option String
or_else none other = other
or_else (some onto) other = onto

-- The answer from a receipt.
unfoldable pub replay : Request → Receipt → Submitted
replay r receipt =
    if str_eq receipt.method r.method
      && str_eq receipt.fingerprint r.fingerprint
      && receipt.accepted
    then as_submitted (
        operator_ack r.method r.ticket_id (or_else receipt.onto r.onto) r.execution_id
          receipt.resolution_class)
    else raised "request id collision"

-- `self._operator_command or self._operator_active_command`
abbrev pub existing : Slot → Option Command
existing s = elim s.pending [ some c ↦ some c | none ↦ s.active_command ]

abbrev pub new_command : Request → ℕ → Command
new_command r n = record { serial = n; request = r; onto = r.onto; resolution_class = none }

-- The part of `_submit_operator_command` behind the receipt, with the existing command.
unfoldable pub submit_beside : Option Command → Request → Slot → Submitted × Slot
submit_beside (some c) r s =
    if str_eq c.request.request_id r.request_id
    then if str_eq c.request.method r.method && str_eq c.request.fingerprint r.fingerprint
      then (waiting c.serial, s)
      else (raised "request id collision", s)
    else (raised "service busy; mutable request was not admitted", s)
submit_beside none r s =
    if s.scheduler_active
    then (raised "service busy; mutable request was not admitted", s)
    else (waiting s.next, record s { pending = some (new_command r s.next); next = suc s.next })

-- The part of `_submit_operator_command` behind the read of the receipts.
unfoldable pub submit_reading : Result String (Option Receipt) → Request → Slot → Submitted × Slot
unfolding replay
submit_reading (err message) r s = (raised message, s)
submit_reading (ok none) r s = submit_beside (existing s) r s
submit_reading (ok (some receipt)) r s = (replay r receipt, s)

-- The first locked region of `_submit_operator_command`.
unfoldable pub submit : Request → Slot → Submitted × Slot
submit r s =
    if s.shutting_down
    then (raised "service is shutting down; runtime command was not admitted", s)
    else if s.draining
    then (raised "service is draining; runtime command was not admitted", s)
    else submit_reading (mutable_receipt s.receipts r.request_id) r s

abbrev pub is_pending : ℕ → Option Command → Bool
is_pending n none = false
is_pending n (some c) = c.serial == n

-- The second locked region of `_submit_operator_command`, after the wait for the command `n` timed out.
unfoldable pub time_out : ℕ → Slot → Slot
time_out n s =
    if is_pending n s.pending
    then record s {
      pending = none;
      cancelled = n ∷ s.cancelled;
      settled =
          (n, err "service admission coordination timed out; request was not admitted") ∷ s.settled;
    }
    else record s { cancelled = n ∷ s.cancelled }

-- The slot with the pending command made the active one.
abbrev pub taken : Command → Slot → Slot
taken c s = record s { pending = none; active = true; active_command = some c }

-- `_take_operator_command`
unfoldable pub take_command : Slot → Option Command × Slot
take_command s = elim s.pending [
  | none ↦ (none, s)
  | some c ↦ if s.active || s.scheduler_active then (none, s) else (some c, taken c s)
]

-- `_claim_owner_work`, for the scheduler where no command is to be taken.
abbrev pub claim_scheduler : Slot → (Option Command × Bool) × Slot
claim_scheduler s =
    if s.active || s.scheduler_active
    then ((none, false), s)
    else ((none, true), record s { scheduler_active = true })

unfoldable pub claim_owner_work : Bool → Slot → (Option Command × Bool) × Slot
claim_owner_work allow_operator s =
    if allow_operator
    then elim s.pending [
      | none ↦ claim_scheduler s
      | some c ↦
          if s.active || s.scheduler_active
          then ((none, false), s)
          else ((some c, false), taken c s)
    ]
    else claim_scheduler s

-- `_release_operator_command`
unfoldable pub release_command : Slot → Slot
release_command s = record s { active = false; active_command = none }

-- `_release_scheduler_iteration`
unfoldable pub release_scheduler : Slot → Slot
release_scheduler s = record s { scheduler_active = false }

-- `_reject_pending_operator_command_on_shutdown`
unfoldable pub reject_pending : Slot → Slot
reject_pending s = elim s.pending [
  | none ↦ s
  | some c ↦ record s {
    pending = none;
    settled =
        (c.serial, err "service is shutting down; runtime command was not admitted") ∷ s.settled;
  }
]

abbrev pub has_serial : ℕ → List ℕ → Bool
has_serial n [] = false
has_serial n (m ∷ ms) = n == m || has_serial n ms

-- `_admit_operator_command`. `validate` is `_validate_operator_admission`, with the target and the
-- class that it resolves; `effects` is what the admission does besides the receipt.
module _ (validate : Command → Result String Command)
    (effects : Command → Result String (Unit {0})) where
  -- The command that is admitted, and the receipts with its receipt.
  unfoldable pub admission : Command → Slot → Result String (Command × Value)
  unfolding record_receipt
  admission c s =
      if has_serial c.serial s.cancelled
      then err "service busy; mutable request was not admitted"
      else if s.draining
      then err "service is draining; runtime command was not admitted"
      else (do
        resolved ← validate c
        effects resolved
        receipts ← record_receipt resolved s.receipts
        ok (resolved, receipts))

  unfoldable pub admit : Command → Slot → Slot
  unfolding admission
  admit c s = elim (admission c s) [
    | err message ↦ record s { settled = (c.serial, err message) ∷ s.settled }
    | ok (resolved, receipts) ↦ record s {
      receipts = receipts;
      settled =
          (
            c.serial,
            operator_ack resolved.request.method resolved.request.ticket_id resolved.onto
                resolved.request.execution_id resolved.resolution_class,
          )
          ∷ s.settled;
    }
  ]
