-- ===== src/Reports/Egress.antt =====
-- `WorkerEgressParser` of src/devlegate/worker_egress.py.
pub mod Laws
pub mod Verdict
use devlegate.Prelude.{
  String, Bool, true, false, not, ◌&&◌, Option, none, some, List, [], ◌∷◌, Result, ok, err,
  if◌then◌else◌,
}
use devlegate.Values.{Value, Fields, obj, null, get, as_dict, item_as, item_is}
use devlegate.Reports.Claims.{Claim, read_claim}

-- What the parser holds.
pub record Egress : Type 0 where
  pub claim : Option Claim
  pub error : Option String

abbrev pub fresh : Egress
fresh = record { claim = none; error = none }

abbrev fails : String → Egress → Egress
fails message e = record { claim = e.claim; error = some message }

-- `isinstance(part, dict) and part.get("tool") == "devlegate_report"` of a tool event, with the part
unfoldable pub report_part : Value → Option Fields
unfolding as_dict item_is item_as
report_part event = elim (as_dict event) [
  | none ↦ none
  | some fs ↦
      if item_is "type" "tool_use" fs
      then elim (item_as as_dict "part" fs) [
        | none ↦ none
        | some part ↦ if item_is "tool" "devlegate_report" part then some part else none
      ]
      else none
]

-- `isinstance(state, dict) and state.get("status") == "completed"`, with the state
unfoldable pub completed_state : Fields → Option Fields
unfolding as_dict item_is item_as
completed_state part = elim (item_as as_dict "state" part) [
  | none ↦ none
  | some state ↦ if item_is "status" "completed" state then some state else none
]

-- `state.get("input")`
unfoldable pub input : Fields → Value
unfolding get
input state = elim (get "input" state) [ none ↦ null | some v ↦ v ]

-- The part of `consume` behind the test of the tool.
unfoldable pub consume_part : Fields → Egress → Egress
unfolding item_is completed_state input read_claim
consume_part part e =
    if item_is "type" "tool" part
    then elim (completed_state part) [
      | none ↦ fails "devlegate_report event is not completed" e
      | some state ↦ elim e.claim [
        | some claim ↦ fails "duplicate devlegate_report event" e
        | none ↦ elim (read_claim (input state)) [
          | err message ↦ fails message e
          | ok claim ↦ record { claim = some claim; error = e.error }
        ]
      ]
    ]
    else fails "devlegate_report event has invalid tool type" e

unfoldable pub consume : Value → Egress → Egress
unfolding report_part
consume event e = elim e.error [
  | some message ↦ e
  | none ↦ elim (report_part event) [ none ↦ e | some part ↦ consume_part part e ]
]

-- The events of one run, in their order.
unfoldable pub consume_all : List Value → Egress → Egress
unfolding consume
consume_all [] e = e
consume_all (event ∷ events) e = consume_all events (consume event e)

unfoldable pub finish : Egress → Option Claim × Option String
finish e = elim e.error [
  | some message ↦ (none, some message)
  | none ↦ elim e.claim [
    | none ↦ (none, some "exactly one devlegate_report event is required")
    | some claim ↦ (some claim, none)
  ]
]
