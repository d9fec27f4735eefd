-- ===== src/Service/Tests.antt =====
-- The theorems on the slot at a small run.
use devlegate.Prelude.{◌≡◌, refl, false, none, [], ◌∷◌}
use devlegate.Values.{obj, no_fields, get}
use devlegate.Service.Commands.{Request}
use devlegate.Service.Slot.{Slot, submit, take_command, submit_reading, submit_beside}
use devlegate.Service.Receipts.{found_receipt, mutable_receipt}
use devlegate.Service.Slot.Steps.{idle, log, Reached, starts, submits, takes}
use devlegate.Service.Commands.{Command}
use devlegate.Values.{Value}
use devlegate.Service.Slot.{as_submitted}
use devlegate.Service.Slot.Replay.{record_receipt-submit}
use devlegate.Service.Receipts.{record_receipt}
use devlegate.Prelude.{ok, true}
use devlegate.Values.{str, bool, field}
use devlegate.Service.Slot.Invariant.{IsSound}
use devlegate.Service.Slot.Sound.{Reached-IsSound}
use devlegate.Service.Slot.Made.{IsResolved, ack}

abbrev retry : Request
retry = record {
  method = "retry";
  ticket_id = "t";
  request_id = "1";
  fingerprint = "f";
  onto = none;
  execution_id = none;
  rewrite_published = false;
  force = false;
}

abbrev submitted : Slot
submitted = (submit retry (idle (obj no_fields))).1

taken_run : log ((take_command submitted).0) [] ≡ 0 ∷ []
unfolding take_command submit submit_reading submit_beside mutable_receipt found_receipt get
taken_run = refl

run : Reached (log ((take_command submitted).0) []) ((take_command submitted).1)
run = takes (submits retry (starts (obj no_fields)))

Reached-IsSound_example : IsSound (log ((take_command submitted).0) []) ((take_command submitted).1)
Reached-IsSound_example =
    Reached-IsSound (log ((take_command submitted).0) []) ((take_command submitted).1) run

abbrev command : Command
command = record { serial = 0; request = retry; onto = none; resolution_class = none }

abbrev recorded : Value
recorded = obj (
    field "1"
      (obj (
        field "method" (str "retry") (
          field "fingerprint" (str "f")
            (field "ticket_id" (str "t") (field "accepted" (bool true) no_fields)))))
      no_fields)

record_run : record_receipt command (obj no_fields) ≡ ok recorded
unfolding record_receipt
record_run = refl

command-IsResolved : IsResolved command
command-IsResolved = record {
  method = refl;
  fingerprint = refl;
  ticket_id = refl;
  execution_id = tt;
  onto = tt;
  resolution_class = tt;
  lone = λ h. refl;
  kept = λ h k. refl;
}

record_receipt-submit_example :
    submit retry (idle recorded) ≡ (as_submitted (ack command command-IsResolved), idle recorded)
record_receipt-submit_example =
    record_receipt-submit command command-IsResolved (obj no_fields) recorded (idle recorded)
      record_run refl refl refl
