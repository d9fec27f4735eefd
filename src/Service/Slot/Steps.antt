-- ===== src/Service/Slot/Steps.antt =====
-- The runs of the slot: any interleaving of the locked regions of src/devlegate/runtime.py, with the
-- commands that the owner took, the latest first.
use devlegate.Prelude.{ℕ, String, Bool, true, false, Option, none, some, List, [], ◌∷◌, Result}
use devlegate.Values.{Value}
use devlegate.Service.Commands.{Request, Command}
use devlegate.Service.Slot.{
  Slot, submit, time_out, take_command, claim_owner_work, release_command, release_scheduler,
  reject_pending, admit,
}

-- A slot of a service that starts with these receipts.
abbrev pub idle : Value → Slot
idle receipts = record {
  pending = none;
  active = false;
  active_command = none;
  scheduler_active = false;
  shutting_down = false;
  draining = false;
  cancelled = [];
  settled = [];
  receipts = receipts;
  next = 0;
}

abbrev pub log : Option Command → List ℕ → List ℕ
log none l = l
log (some c) l = c.serial ∷ l

pub data Reached : List ℕ → Slot → Type 0 where
  starts : (receipts : Value) → Reached [] (idle receipts)
  submits : {l : List ℕ} {s : Slot} (r : Request) → Reached l s → Reached l ((submit r s).1)
  times_out : {l : List ℕ} {s : Slot} (n : ℕ) → Reached l s → Reached l (time_out n s)
  takes :
      {l : List ℕ} {s : Slot}
      → Reached l s
      → Reached (log ((take_command s).0) l) ((take_command s).1)
  claims :
      {l : List ℕ} {s : Slot} (allow_operator : Bool)
      → Reached l s
      → Reached
          (log ((claim_owner_work allow_operator s).0.0) l)
          ((claim_owner_work allow_operator s).1)
  admits :
      {l : List ℕ} {s : Slot} (validate : Command → Result String Command)
      (effects : Command → Result String (Unit {0})) (c : Command)
      → Reached l s
      → Reached l (admit validate effects c s)
  releases : {l : List ℕ} {s : Slot} → Reached l s → Reached l (release_command s)
  releases_scheduler : {l : List ℕ} {s : Slot} → Reached l s → Reached l (release_scheduler s)
  rejects : {l : List ℕ} {s : Slot} → Reached l s → Reached l (reject_pending s)
  drains : {l : List ℕ} {s : Slot} → Reached l s → Reached l (record s { draining = true })
  shuts_down : {l : List ℕ} {s : Slot} → Reached l s → Reached l (record s { shutting_down = true })
