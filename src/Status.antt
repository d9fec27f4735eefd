-- ===== src/Status.antt =====
-- The admission barriers of src/devlegate/runtime.py and the todo tickets that dependencies block.
-- A barrier is its action, its kind and its ticket; the reason, a text for the operator, is left out,
-- with the look-ups that its text makes in the reconciliation.
pub mod Laws
pub mod Plan
pub mod Snapshot
mod Tests
use devlegate.Prelude.{
  String, Bool, true, false, not, ◌&&◌, ◌||◌, Option, none, some, List, [], ◌∷◌, str_eq,
  if◌then◌else◌,
}
use devlegate.Values.{Fields, get, as_dict, as_text, item_as, item_is}
use devlegate.Tickets.Defs.{State, Ticket, is_todo, by_id, all_done}

pub record Barrier : Type 0 where
  pub action : String
  pub kind : String
  pub ticket_id : Option String

-- `ticket.state in {"review", "accepted"}`
abbrev pub on_boundary : State → Bool
on_boundary State.backlog = false
on_boundary State.todo = false
on_boundary State.review = true
on_boundary State.accepted = true
on_boundary State.done = false

unfoldable pub boundary : List Ticket → List Ticket
boundary [] = []
boundary (t ∷ ts) = let rest = boundary ts in if on_boundary t.state then t ∷ rest else rest

-- `isinstance(reconciliation, dict) and reconciliation.get("status") in {"pending", "resolving"}`,
-- with the reconciliation
unfoldable pub open_reconciliation : Fields → Option Fields
unfolding item_as as_dict item_is
open_reconciliation state = elim (item_as as_dict "reconciliation" state) [
  | none ↦ none
  | some r ↦ if item_is "status" "pending" r || item_is "status" "resolving" r then some r else none
]

abbrev pub has_many : List Ticket → Bool
has_many [] = false
has_many (t ∷ []) = false
has_many (t ∷ u ∷ ts) = true

abbrev pub blocked : String → Option String → Barrier
blocked kind ticket_id = record { action = "blocked"; kind = kind; ticket_id = ticket_id }

abbrev pub find : List Ticket → Option String → Option Ticket
find ts none = none
find ts (some k) = by_id ts k

-- The barrier of an accepted integration that is in progress.
abbrev pub integration_barrier : Option Ticket → Barrier
integration_barrier none = blocked "accepted-integration" none
integration_barrier (some t) = record {
  action = "none";
  kind = "accepted-integration";
  ticket_id = some t.id;
}

-- `_admission_barrier` behind the check of the reconciliation.
unfoldable pub integration_or_boundary : Option Fields → Bool → List Ticket → Option Barrier
unfolding item_as as_text boundary
integration_or_boundary (some integration) dirty ts =
    some (integration_barrier (find ts (item_as as_text "ticket_id" integration)))
integration_or_boundary none dirty ts =
    if dirty
    then some (blocked "repository" none)
    else if has_many (boundary ts)
    then some (blocked "scheduler-barrier" none)
    else none

-- `_admission_barrier`
unfoldable pub admission_barrier : Bool → Bool → Fields → List Ticket → Option Barrier
unfolding item_as as_dict as_text
admission_barrier branch_ok dirty state ts =
    if branch_ok
    then elim (open_reconciliation state) [
      | some r ↦ some (blocked "reconciliation" (item_as as_text "ticket_id" r))
      | none ↦ integration_or_boundary (item_as as_dict "accepted_integration" state) dirty ts
    ]
    else some (blocked "repository" none)

abbrev pub is_review : State → Bool
is_review State.review = true
is_review _ = false

abbrev pub serial_barrier : Ticket → Barrier
serial_barrier t =
    if is_review t.state
    then record { action = "none"; kind = "review"; ticket_id = some t.id }
    else record { action = "integrate"; kind = "accepted"; ticket_id = some t.id }

-- `_serial_admission_barrier`
unfoldable pub serial_admission_barrier : List Ticket → Option Barrier
serial_admission_barrier ts = elim (boundary ts) [ [] ↦ none | t ∷ rest ↦ some (serial_barrier t) ]

-- The test of `_dependency_blocked_tickets`; `any(… != "done")` reads what `all(… == "done")` reads.
unfoldable pub is_dependency_blocked : List Ticket → Ticket → Option Bool
is_dependency_blocked index t =
    if is_todo t.state
    then elim (all_done index t.depends_on) [ none ↦ none | some b ↦ some (not b) ]
    else some false

-- `_dependency_blocked_tickets`; `none` is a `KeyError`.
unfoldable pub dependency_blocked : List Ticket → List Ticket → Option (List Ticket)
dependency_blocked index [] = some []
dependency_blocked index (t ∷ ts) =
    let rest = dependency_blocked index ts in
    elim (is_dependency_blocked index t) [
      | none ↦ none
      | some true ↦ elim rest [ none ↦ none | some l ↦ some (t ∷ l) ]
      | some false ↦ rest
    ]
