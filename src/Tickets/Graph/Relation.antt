-- ===== src/Tickets/Graph/Relation.antt =====
-- What the cycle check is about: dependencies, chains of them, and cycles.
use devlegate.Prelude.{String, true, ◌≡◌, some, List, [], ◌∷◌, ◌++◌, contains, subset}
use devlegate.Tickets.Defs.{Ticket, ids, deps_of}

-- Ticket `x` names `y` as a dependency.
abbrev pub Depends : List Ticket → String → String → Type 0
Depends ts x y = (ds : List String) × (deps_of ts x ≡ some ds) × (contains y ds ≡ true)

-- One dependency or more lead from `x` to a ticket.
pub data Chain (ts : List Ticket) : String → String → Type 0 where
  one : {x y : String} → Depends ts x y → Chain ts x y
  more : {x y z : String} → Depends ts x y → Chain ts y z → Chain ts x z

abbrev pub IsAcyclic : List Ticket → Type 0
IsAcyclic ts = (x : String) → ¬ Chain ts x x

-- Each ticket of the list depends on the next.
abbrev pub IsTrail : List Ticket → List String → Type 0
IsTrail ts [] = Unit
IsTrail ts (x ∷ []) = Unit
IsTrail ts (x ∷ y ∷ l) = Depends ts x y × IsTrail ts (y ∷ l)

-- A trail that ends where it begins.
pub record IsCycle (ts : List Ticket) (c : List String) : Type 0 where
  pub head : String
  pub middle : List String
  pub shape : c ≡ head ∷ middle ++ head ∷ []
  pub trail : IsTrail ts c

-- Every dependency is a ticket: what `load_ticket_store` has checked before.
pub record IsClosed (ts : List Ticket) : Type 0 where
  pub known :
      (k : String)
      → contains k (ids ts) ≡ true
      → (ds : List String) × (deps_of ts k ≡ some ds) × (subset ds (ids ts) ≡ true)
