-- ===== src/Tickets/Graph/Decides.antt =====
-- `_validate_cycles` decides whether the dependencies have a cycle.
use devlegate.Prelude.{
  suc, ◌≡◌, String, true, List, [], ◌∷◌, some, length, inl, inr, ◌⊎◌, arith, eq_iff, sort, str_leb,
  contains, contains-sort, contains-subset, contains-cons_tail, Option-cases, refl,
}
use devlegate.Tickets.Defs.{Ticket, ids, deps_of, by_id}
use devlegate.Tickets.Graph.Relation.{Chain, one, more, IsAcyclic, IsCycle, IsClosed}
use devlegate.Tickets.Graph.Keeps.{visit_all-Keeps, visit-Keeps}
use devlegate.Tickets.Graph.Order.{IsTopological-IsAcyclic}
use devlegate.Tickets.Graph.Fuel.{Ends, returns, finds, search-Ends}
use devlegate.Tickets.Graph.Trails.{search-FindsCycles}
use devlegate.Tickets.Graph.{Outcome, ok, cycle, Dfs, start, visit, validate_cycles}

pub by_id-known :
    (ts : List Ticket) (k : String) (u : Ticket) → by_id ts k ≡ some u → contains k (ids ts) ≡ true
unfolding by_id contains
by_id-known [] k u h = cc
by_id-known (t ∷ ts) k u h = elim (Option-cases (by_id ts k)) [
  | inl absent ↦ ground (arith, eq_iff k t.id, eq_iff t.id k)
  | inr (v, there) ↦ contains-cons_tail k t.id (ids ts) (by_id-known ts k v there)
]

-- A ticket with dependencies is in the list.
deps_of-known :
    (ts : List Ticket) (k : String) {ds : List String}
    → deps_of ts k ≡ some ds
    → contains k (ids ts) ≡ true
unfolding deps_of
deps_of-known ts k h = elim (Option-cases (by_id ts k)) [
  | inl absent ↦ ground arith
  | inr (u, there) ↦ by_id-known ts k u there
]

Chain-known : (ts : List Ticket) {x y : String} → Chain ts x y → contains x (ids ts) ≡ true
Chain-known ts {x} (one d) = deps_of-known ts x d.1
Chain-known ts {x} (more d c) = deps_of-known ts x d.1

returned-IsAcyclic : (ts : List Ticket) (s : Dfs) → validate_cycles ts ≡ ok s → IsAcyclic ts
unfolding validate_cycles
returned-IsAcyclic ts s h x c =
    let (kept, all) =
      visit_all-Keeps ts (visit ts (suc (length (ids ts)))) (sort str_leb (ids ts)) start s
        (visit-Keeps ts (suc (length (ids ts)))) h in
    IsTopological-IsAcyclic ts s.visited (kept.topological tt) x
      (contains-subset x (sort str_leb (ids ts)) s.visited all
        (rw contains-sort (Chain-known ts c)))
      c

abbrev Decided : List Ticket → Type 0
Decided ts =
    ((s : Dfs) × (validate_cycles ts ≡ ok s) × IsAcyclic ts)
    ⊎ ((c : List String) × (validate_cycles ts ≡ cycle c) × IsCycle ts c)

decided : (ts : List Ticket) {o : Outcome Dfs} → Ends o → validate_cycles ts ≡ o → Decided ts
decided ts (returns s) e = inl (s, e, returned-IsAcyclic ts s e)
decided ts (finds c) e = inr (
  c,
  e,
  search-FindsCycles ts (suc (length (ids ts))) (sort str_leb (ids ts)) c
      (unfold validate_cycles in e),
)

-- On a graph where every dependency is a ticket, the check ends, by returning where no ticket
-- depends on itself through others, and otherwise by a cycle that is in the graph.
pub validate_cycles-decides :
    (ts : List Ticket)
    → IsClosed ts
    → ((s : Dfs) × (validate_cycles ts ≡ ok s) × IsAcyclic ts)
      ⊎ ((c : List String) × (validate_cycles ts ≡ cycle c) × IsCycle ts c)
validate_cycles-decides ts closed =
    decided ts {o = validate_cycles ts} (unfold validate_cycles in search-Ends ts closed) refl
