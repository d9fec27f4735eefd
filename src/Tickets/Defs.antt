-- ===== src/Tickets/Defs.antt =====
-- Tickets and the ticket store of src/devlegate/tickets.py.
use devlegate.Prelude.{
  ℕ, String, Bool, true, false, Option, none, some, List, [], ◌∷◌, map, str_eq, str_leb,
  if◌then◌else◌, sort,
}

-- `_WORKFLOW_STATES`, in its order.
pub data State : Type 0 where
  backlog todo review accepted done : State

abbrev pub workflow_states : List State
workflow_states = State.backlog ∷ State.todo ∷ State.review ∷ State.accepted ∷ State.done ∷ []

abbrev pub is_todo : State → Bool
is_todo State.todo = true
is_todo _ = false

abbrev pub is_done : State → Bool
is_done State.done = true
is_done _ = false

-- The title and the body are walked, so they are lists of code points.
pub record Ticket : Type 0 where
  pub id : String
  pub state : State
  pub title : List ℕ
  pub depends_on : List String
  pub body : List ℕ
  pub path : String

-- `{ticket.id: ticket for ticket in tickets}` at a key: the last ticket of that ID.
unfoldable pub by_id : List Ticket → String → Option Ticket
by_id [] k = none
by_id (t ∷ ts) k = elim (by_id ts k) [
  | some u ↦ some u
  | none ↦ if str_eq t.id k then some t else none
]

abbrev pub ids : List Ticket → List String
ids ts = map (λ t. t.id) ts

-- `tickets[ticket_id].depends_on`; `none` is a `KeyError`.
unfoldable pub deps_of : List Ticket → String → Option (List String)
unfolding by_id
deps_of ts k = elim (by_id ts k) [ none ↦ none | some t ↦ some t.depends_on ]

-- `all(index[dependency].state == "done" for dependency in …)`, which stops at the first failure.
unfoldable pub all_done : List Ticket → List String → Option Bool
unfolding by_id
all_done index [] = some true
all_done index (d ∷ ds) =
    let rest = all_done index ds in
    elim (by_id index d) [ none ↦ none | some t ↦ if is_done t.state then rest else some false ]

-- The test of the comprehension in `TicketStore.__post_init__`.
unfoldable pub is_runnable : List Ticket → Ticket → Option Bool
unfolding all_done
is_runnable index t = if is_todo t.state then all_done index t.depends_on else some false

-- The comprehension: `none` where a test raises `KeyError`.
unfoldable pub filter_runnable : List Ticket → List Ticket → Option (List Ticket)
unfolding is_runnable
filter_runnable index [] = some []
filter_runnable index (t ∷ ts) =
    let rest = filter_runnable index ts in
    elim (is_runnable index t) [
      | none ↦ none
      | some true ↦ elim rest [ none ↦ none | some l ↦ some (t ∷ l) ]
      | some false ↦ rest
    ]

abbrev pub id_leb : Ticket → Ticket → Bool
id_leb a b = str_leb a.id b.id

pub record TicketStore : Type 0 where
  pub tickets : List Ticket
  pub runnable : List Ticket

-- `TicketStore(tickets)` with its `__post_init__`.
unfoldable pub make_store : List Ticket → Option TicketStore
unfolding filter_runnable sort
make_store tickets = elim (filter_runnable tickets tickets) [
  | none ↦ none
  | some l ↦ some (record { tickets = tickets; runnable = sort id_leb l })
]

unfoldable pub selected : TicketStore → Option Ticket
selected store = elim store.runnable [ [] ↦ none | t ∷ ts ↦ some t ]
