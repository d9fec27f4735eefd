-- ===== src/Status/Snapshot.antt =====
-- The tickets of `_make_status_snapshot` of src/devlegate/runtime.py: what is bound, eligible and
-- blocked, and why. `none` is a `KeyError` or a failed `assert`. The title of a ticket is left out, as a
-- ticket has its title with it.
pub mod Entries
pub mod Loop
pub mod Laws
pub mod Eligible
use devlegate.Prelude.{
  String, Bool, true, false, ◌&&◌, ◌||◌, not, Option, none, some, List, [], ◌∷◌, map, str_eq,
  str_leb, if◌then◌else◌, contains, sort,
}
use devlegate.Values.{Fields, as_dict, as_text, item_as}
use devlegate.Views.{Dependency, BlockedReason}
use devlegate.Tickets.Defs.{State, Ticket, TicketStore, by_id, ids, is_todo, is_done, selected}
use devlegate.Status.{
  Barrier, find, blocked, admission_barrier, serial_admission_barrier, dependency_blocked,
  on_boundary, is_review,
}
use devlegate.Status.Plan.{Plan, is_bound_phase, execution_plan, starts}

abbrev pub state_text : State → String
state_text State.backlog = "backlog"
state_text State.todo = "todo"
state_text State.review = "review"
state_text State.accepted = "accepted"
state_text State.done = "done"

-- The dependencies that are not done, with their states.
unfoldable pub blockers : List Ticket → List String → Option (List Dependency)
unfolding by_id
blockers index [] = some []
blockers index (d ∷ ds) =
    let rest = blockers index ds in
    elim (by_id index d) [
      | none ↦ none
      | some t ↦ elim rest [
        | none ↦ none
        | some l ↦
            some (if is_done t.state then l else record { id = d; state = state_text t.state } ∷ l)
      ]
    ]

-- `lifecycle_integration[0]`
unfoldable pub integration_ticket : Fields → Option String
unfolding item_as as_dict as_text
integration_ticket state = elim (item_as as_dict "accepted_integration" state) [
  | none ↦ none
  | some integration ↦ item_as as_text "ticket_id" integration
]

abbrev is_integrating : Option String → String → Bool
is_integrating none d = false
is_integrating (some t) d = str_eq d t

abbrev shown : Option String → Dependency → Dependency
shown o d = record {
  id = d.id;
  state = if is_integrating o d.id then "integration-in-progress" else d.state;
}

-- The only blocker is the ticket that is being integrated.
abbrev only_integrating : Option String → List Dependency → Bool
only_integrating o [] = false
only_integrating o (d ∷ []) = is_integrating o d.id
only_integrating o (d ∷ e ∷ ds) = false

unfoldable pub dependency_reason : Option String → List Dependency → BlockedReason
dependency_reason o ds =
    if only_integrating o ds
    then record { kind = "integration-in-progress"; ticket_id = o; tickets = [] }
    else record { kind = "dependencies"; ticket_id = none; tickets = map (shown o) ds }

-- `bound_ticket_id`
unfoldable pub bound_ticket : Fields → Option String
unfolding is_bound_phase item_as as_text
bound_ticket state =
    if is_bound_phase state then item_as as_text "selected_ticket_id" state else none

abbrev active_barrier : Option String → Barrier
active_barrier none = blocked "scheduler-barrier" none
active_barrier (some t) = blocked "active-execution" (some t)

unfoldable pub global_barrier : Bool → Bool → Fields → List Ticket → Option Barrier
unfolding admission_barrier is_bound_phase bound_ticket serial_admission_barrier
global_barrier branch_ok dirty state ts = elim (admission_barrier branch_ok dirty state ts) [
  | some b ↦ some b
  | none ↦
      if is_bound_phase state
      then some (active_barrier (bound_ticket state))
      else serial_admission_barrier ts
]

abbrev pub global_reason : Barrier → BlockedReason
global_reason b = record { kind = b.kind; ticket_id = b.ticket_id; tickets = [] }

pub record BlockedTicket : Type 0 where
  pub ticket : Ticket
  pub reason : BlockedReason

-- An item of `dependency_blocked`.
pub record Waiting : Type 0 where
  pub ticket : Ticket
  pub blockers : List Dependency

unfoldable pub waiting_for : List Ticket → Ticket → Option Waiting
unfolding blockers sort
waiting_for index t = elim (blockers index (sort str_leb t.depends_on)) [
  | none ↦ none
  | some ds ↦ some (record { ticket = t; blockers = ds })
]

unfoldable pub all_waiting : List Ticket → List Ticket → Option (List Waiting)
unfolding waiting_for
all_waiting index [] = some []
all_waiting index (t ∷ ts) =
    let rest = all_waiting index ts in
    elim (waiting_for index t) [
      | none ↦ none
      | some w ↦ elim rest [ none ↦ none | some ws ↦ some (w ∷ ws) ]
    ]

-- `dependency_entries` at a key: the last item of that ID.
unfoldable pub entry_of : List Waiting → String → Option Waiting
entry_of [] k = none
entry_of (w ∷ ws) k = elim (entry_of ws k) [
  | some x ↦ some x
  | none ↦ if str_eq w.ticket.id k then some w else none
]

-- What the loop over the tickets reads.
pub record Context : Type 0 where
  pub waiting : List Waiting
  pub eligible : List Ticket
  pub bound : Option String
  pub integrating : Option String
  pub barrier : Option Barrier

abbrev pub is_bound : Option String → String → Bool
is_bound none k = false
is_bound (some b) k = str_eq k b

-- The entry of another ticket; without a barrier the `assert` fails.
abbrev pub barred_entry : Option Barrier → Ticket → Option BlockedTicket
barred_entry none t = none
barred_entry (some b) t = some (record { ticket = t; reason = global_reason b })

-- The entry of a ticket that waits for nothing, if it has one.
unfoldable pub ready_entry : Context → Ticket → Option (Option BlockedTicket)
unfolding contains
ready_entry c t =
    if contains t.id (ids c.eligible)
    then some none
    else elim (barred_entry c.barrier t) [ none ↦ none | some e ↦ some (some e) ]

-- One round of the loop: the entry, if there is one.
unfoldable pub blocked_entry : Context → Ticket → Option (Option BlockedTicket)
unfolding entry_of ready_entry dependency_reason
blocked_entry c t =
    if not (is_todo t.state) || is_bound c.bound t.id
    then some none
    else elim (entry_of c.waiting t.id) [
      | some w ↦
          some (
            some
              (record { ticket = w.ticket; reason = dependency_reason c.integrating w.blockers }))
      | none ↦ ready_entry c t
    ]

unfoldable pub blocked_entries : Context → List Ticket → Option (List BlockedTicket)
unfolding blocked_entry
blocked_entries c [] = some []
blocked_entries c (t ∷ ts) =
    let rest = blocked_entries c ts in
    elim (blocked_entry c t) [
      | none ↦ none
      | some none ↦ rest
      | some (some e) ↦ elim rest [ none ↦ none | some l ↦ some (e ∷ l) ]
    ]

pub record Snapshot : Type 0 where
  pub plan : Plan
  pub bound_ticket_id : Option String
  pub runnable : List Ticket
  pub eligible : List Ticket
  pub blocked : List BlockedTicket

-- `runnable if plan.action == "run-worker" and not plan.bound else ()`
abbrev pub eligible_tickets : Plan → TicketStore → List Ticket
eligible_tickets p store = if starts p then store.runnable else []

unfoldable pub context : Bool → Bool → Bool → Fields → TicketStore → List Waiting → Context
unfolding execution_plan bound_ticket integration_ticket global_barrier
context reusable branch_ok dirty state store waiting = record {
  waiting = waiting;
  eligible = eligible_tickets (execution_plan reusable branch_ok dirty state store) store;
  bound = bound_ticket state;
  integrating = integration_ticket state;
  barrier = global_barrier branch_ok dirty state store.tickets;
}

-- `dependency_blocked`
unfoldable pub dependency_entries : List Ticket → Option (List Waiting)
unfolding dependency_blocked all_waiting
dependency_entries ts = elim (dependency_blocked ts ts) [
  | none ↦ none
  | some bs ↦ all_waiting ts bs
]

unfoldable pub status_snapshot : Bool → Bool → Bool → Fields → TicketStore → Option Snapshot
unfolding dependency_entries context blocked_entries execution_plan bound_ticket
status_snapshot reusable branch_ok dirty state store = elim (dependency_entries store.tickets) [
  | none ↦ none
  | some waiting ↦
      let c = context reusable branch_ok dirty state store waiting in
      elim (blocked_entries c store.tickets) [
        | none ↦ none
        | some entries ↦ some (record {
          plan = execution_plan reusable branch_ok dirty state store;
          bound_ticket_id = bound_ticket state;
          runnable = store.runnable;
          eligible = c.eligible;
          blocked = entries;
        })
      ]
]
