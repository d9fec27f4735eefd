-- ===== src/Tickets/Graph.antt =====
-- `_validate_cycles` of src/devlegate/tickets.py: the depth-first search, its state explicit.
pub mod Relation
mod Steps
mod Keeps
mod Order
mod Fuel
mod Trails
pub mod Decides
use devlegate.Prelude.{
  ℕ, zero, suc, String, Bool, true, false, List, [], ◌∷◌, ◌++◌, str_eq, str_leb, if◌then◌else◌,
  contains, erase, sort, Option, none, some, length,
}
use devlegate.Tickets.Defs.{Ticket, ids, deps_of}

pub data Outcome {ℓ} (A : Type ℓ) : Type ℓ where
  ok : A → Outcome A
  cycle : List String → Outcome A
  key_error : Outcome A
  exhausted : Outcome A

infixl 5 ◌>>=◌
abbrev pub ◌>>=◌ {ℓ κ} : {A : Type ℓ} {B : Type κ} → Outcome A → (A → Outcome B) → Outcome B
ok a >>= f = f a
cycle c >>= f = cycle c
key_error >>= f = key_error
exhausted >>= f = exhausted

-- The variables that `visit` closes over. A set is a list; `stack` has its top at the end.
pub record Dfs : Type 0 where
  pub visiting : List String
  pub visited : List String
  pub stack : List String

abbrev pub start : Dfs
start = record { visiting = []; visited = []; stack = [] }

-- `stack.pop()`
unfoldable pub pop : List String → List String
pop [] = []
pop (x ∷ []) = []
pop (x ∷ y ∷ l) = x ∷ pop (y ∷ l)

-- `stack[stack.index(ticket_id):]`
unfoldable pub from_index : String → List String → List String
from_index k [] = []
from_index k (x ∷ xs) = if str_eq k x then x ∷ xs else from_index k xs

abbrev pub enter : String → Dfs → Dfs
enter k s = record { visiting = k ∷ s.visiting; visited = s.visited; stack = s.stack ++ k ∷ [] }

unfoldable pub leave : String → Dfs → Dfs
unfolding erase pop
leave k s = record { visiting = erase k s.visiting; visited = k ∷ s.visited; stack = pop s.stack }

-- `sorted(tickets[ticket_id].depends_on)`
unfoldable pub sorted_deps : List Ticket → String → Outcome (List String)
unfolding deps_of sort
sorted_deps ts k = elim (deps_of ts k) [ none ↦ key_error | some ds ↦ ok (sort str_leb ds) ]

-- A `for` loop that calls `visit` on each ID.
unfoldable pub visit_all : (String → Dfs → Outcome Dfs) → List String → Dfs → Outcome Dfs
visit_all go [] s = ok s
visit_all go (d ∷ ds) s = go d s >>= λ s'. visit_all go ds s'

-- `visit`. The fuel bounds the depth of the recursion.
unfoldable pub visit : List Ticket → ℕ → String → Dfs → Outcome Dfs
unfolding visit_all sorted_deps leave from_index contains
visit ts zero k s = exhausted
visit ts (suc fuel) k s =
    let deeper = sorted_deps ts k >>= λ ds.
    visit_all (visit ts fuel) ds (enter k s) >>= λ s'. ok (leave k s') in
    if contains k s.visited
    then ok s
    else if contains k s.visiting
    then cycle (from_index k s.stack ++ k ∷ [])
    else deeper

-- One level for each ticket, and one for the call that finds a cycle.
unfoldable pub validate_cycles : List Ticket → Outcome Dfs
unfolding visit
validate_cycles ts = visit_all (visit ts (suc (length (ids ts)))) (sort str_leb (ids ts)) start
