-- ===== src/Status/Plan.antt =====
-- `_make_execution_plan` of src/devlegate/runtime.py. A plan is its action, its ticket and whether it
-- is bound; its reason, a text for the operator, is left out, with what is read for it alone: whether a
-- worker of an interrupted execution lives. `reusable` is what `_inspect_bound_execution_workspace`
-- says of the workspace.
pub mod Laws
use devlegate.Prelude.{
  String, Bool, true, false, ◌&&◌, ◌||◌, not, Option, none, some, List, str_eq, if◌then◌else◌,
}
use devlegate.Values.{Fields, as_text, item_as, item_is}
use devlegate.Tickets.Defs.{State, Ticket, TicketStore, selected}
use devlegate.Status.{Barrier, find, admission_barrier, serial_admission_barrier}

-- Where the ticket is there, the plan has its ID, its title and its state.
pub record Plan : Type 0 where
  pub action : String
  pub ticket : Option Ticket
  pub bound : Bool

-- `str(state["phase"]) in {"agent_pending", "agent_running"}`
unfoldable pub is_bound_phase : Fields → Bool
unfolding item_is
is_bound_phase state =
    item_is "phase" "agent_pending" state || item_is "phase" "agent_running" state

-- `ticket.state in {"todo", "review"}`
abbrev pub may_be_bound : State → Bool
may_be_bound State.backlog = false
may_be_bound State.todo = true
may_be_bound State.review = true
may_be_bound State.accepted = false
may_be_bound State.done = false

abbrev pub stopped : Plan
stopped = record { action = "blocked"; ticket = none; bound = false }

abbrev pub barrier_plan : List Ticket → Barrier → Plan
barrier_plan ts b = record { action = b.action; ticket = find ts b.ticket_id; bound = false }

-- The plan of the ticket that the persisted execution is bound to.
abbrev pub resumed : Bool → Option Ticket → Plan
resumed reusable none = stopped
resumed reusable (some t) =
    if may_be_bound t.state
    then record {
      action = if reusable then "run-worker" else "blocked";
      ticket = some t;
      bound = true;
    }
    else stopped

-- The branch for a bound phase. Of a state that `_validate_state_invariant` has let pass the worker identity
-- can be read, so reading it does not raise, and what it says is in the reason only.
unfoldable pub bound_plan : Bool → Fields → List Ticket → Plan
unfolding item_is item_as as_text
bound_plan reusable state ts =
    if item_is "phase" "agent_running" state
    then stopped
    else resumed reusable (find ts (item_as as_text "selected_ticket_id" state))

-- The plan of the ticket that `selected` returns.
abbrev pub fresh_plan : Option Ticket → Plan
fresh_plan none = record { action = "none"; ticket = none; bound = false }
fresh_plan (some t) = record { action = "run-worker"; ticket = some t; bound = false }

unfoldable pub unbarred_plan : Bool → Fields → TicketStore → Plan
unfolding is_bound_phase bound_plan serial_admission_barrier selected
unbarred_plan reusable state store =
    if is_bound_phase state
    then bound_plan reusable state store.tickets
    else elim (serial_admission_barrier store.tickets) [
      | some b ↦ barrier_plan store.tickets b
      | none ↦ fresh_plan (selected store)
    ]

unfoldable pub execution_plan : Bool → Bool → Bool → Fields → TicketStore → Plan
unfolding admission_barrier unbarred_plan
execution_plan reusable branch_ok dirty state store =
    elim (admission_barrier branch_ok dirty state store.tickets) [
      | some b ↦ barrier_plan store.tickets b
      | none ↦ unbarred_plan reusable state store
    ]

-- `plan.action == "run-worker" and not plan.bound`
abbrev pub starts : Plan → Bool
starts p = str_eq p.action "run-worker" && not p.bound
