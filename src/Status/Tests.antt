-- ===== src/Status/Tests.antt =====
-- The theorems on the status at small inputs.
use devlegate.Prelude.{
  ◌≡◌, ◌⊎◌, ◌↔◌, inl, inr, refl, contains, map, nodup, sort, insert_sorted, String, true, false,
  none, some, List, [], ◌∷◌, In, subset,
}
use devlegate.Values.{no_fields, get}
use devlegate.Tickets.Defs.{
  State, Ticket, TicketStore, is_todo, make_store, selected, ids, by_id, all_done, is_runnable,
  filter_runnable,
}
use devlegate.Tickets.Store.{AllKnown}
use devlegate.Status.{
  admission_barrier, boundary, open_reconciliation, integration_or_boundary,
  serial_admission_barrier, dependency_blocked,
}
use devlegate.Status.Plan.{execution_plan, is_bound_phase, starts}
use devlegate.Status.Plan.Laws.{execution_plan-starts_iff}
use devlegate.Status.Snapshot.{Snapshot, status_snapshot}
use devlegate.Status.Snapshot.Loop.{entry_id}
use devlegate.Status.Snapshot.Laws.{is_placed_once, status_snapshot-Divides}
use devlegate.Status.Laws.{IsFree, dependency_blocked-Divides}

abbrev ticket : String → List String → Ticket
ticket id ds = record {
  id = id;
  state = State.todo;
  title = [];
  depends_on = ds;
  body = [];
  path = id;
}

-- "b" waits for "a".
abbrev two : List Ticket
two = ticket "a" [] ∷ ticket "b" ("a" ∷ []) ∷ []

two-AllKnown : AllKnown two two
unfolding subset
two-AllKnown t (inl e) = rw e refl
two-AllKnown t (inr (inl e)) = rw e refl
two-AllKnown t (inr (inr m)) = absurd m

no_barrier : admission_barrier true false no_fields two ≡ none
unfolding admission_barrier open_reconciliation integration_or_boundary boundary get
no_barrier = refl

no_serial_barrier : serial_admission_barrier two ≡ none
unfolding serial_admission_barrier boundary
no_serial_barrier = refl

dependency_blocked-Divides_example :
    (store : TicketStore) × (bs : List Ticket) × (make_store two ≡ some store)
    × (dependency_blocked two two ≡ some bs)
    × ((t : Ticket) → In t two → is_todo t.state ≡ true → In t bs ⊎ In t store.runnable)
    × ((t : Ticket) → In t bs → In t two × (is_todo t.state ≡ true) × (In t store.runnable → ⊥))
dependency_blocked-Divides_example = dependency_blocked-Divides two two-AllKnown

abbrev two_store : TicketStore
two_store = record { tickets = two; runnable = ticket "a" [] ∷ [] }

two_made : make_store two ≡ some two_store
unfolding make_store filter_runnable is_runnable all_done by_id sort insert_sorted
two_made = refl

two_distinct : nodup (ids two) ≡ true
unfolding nodup contains
two_distinct = refl

execution_plan-starts_iff_example :
    (((execution_plan true true false no_fields two_store).ticket ≡ some (ticket "a" []))
      × (starts (execution_plan true true false no_fields two_store) ≡ true))
    ↔ (IsFree true false no_fields two
        × (is_bound_phase no_fields ≡ false)
        × (selected two_store ≡ some (ticket "a" [])))
execution_plan-starts_iff_example =
    execution_plan-starts_iff true true false no_fields two_store (ticket "a" [])

status_snapshot-Divides_example :
    (v : Snapshot) × (status_snapshot true true false no_fields two_store ≡ some v)
    × ((t : Ticket) → In t two → is_todo t.state ≡ true → is_placed_once v t ≡ true)
    × ((k : String)
        → contains k (map entry_id v.blocked) ≡ true
        → (t : Ticket) × In t two × (t.id ≡ k) × (is_todo t.state ≡ true))
status_snapshot-Divides_example =
    status_snapshot-Divides true true false no_fields two_store two-AllKnown two_distinct two_made
