-- ===== src/Status/Snapshot/Eligible.antt =====
-- When a ticket of a status is eligible.
use devlegate.Prelude.{
  some-ne-none, ◌≡◌, inl, inr, refl, String, Bool, true, false, Bool-cases, Option-cases, none,
  List, [], ◌∷◌, In, contains,
}
use devlegate.Values.{Fields}
use devlegate.Tickets.Defs.{Ticket, TicketStore, ids, selected}
use devlegate.Status.{admission_barrier, serial_admission_barrier}
use devlegate.Status.Plan.{is_bound_phase, execution_plan, fresh_plan, starts}
use devlegate.Status.Plan.Laws.{execution_plan-IsFree, execution_plan-fresh}
use devlegate.Status.Snapshot.{eligible_tickets, bound_ticket, global_barrier}

module _ (reusable branch_ok dirty : Bool) (state : Fields) (store : TicketStore) where
  abbrev pub eligible : List Ticket
  eligible = eligible_tickets (execution_plan reusable branch_ok dirty state store) store

  global_barrier-none :
      global_barrier branch_ok dirty state store.tickets ≡ none
      → (admission_barrier branch_ok dirty state store.tickets ≡ none)
        × (is_bound_phase state ≡ false)
        × (serial_admission_barrier store.tickets ≡ none)
  unfolding global_barrier
  global_barrier-none h =
      elim (Option-cases (admission_barrier branch_ok dirty state store.tickets)) [
        | inr (b, e) ↦ absurd (some-ne-none (rw (global_barrier, e) at h))
        | inl e ↦ elim (Bool-cases (is_bound_phase state)) [
          | inl k ↦ absurd (some-ne-none (rw (global_barrier, e, k) at h))
          | inr k ↦ (e, k, rw (global_barrier, e, k) at h)
        ]
      ]

  -- Where no barrier is up, a runnable ticket is eligible.
  pub runnable-eligible :
      (t : Ticket)
      → global_barrier branch_ok dirty state store.tickets ≡ none
      → In t store.runnable
      → eligible ≡ store.runnable
  unfolding selected
  runnable-eligible t h m =
      let (first, unbound, second) = global_barrier-none h in
      let fresh = execution_plan-fresh reusable branch_ok dirty state store first unbound second in
      rw fresh (of_runnable store.runnable m)
    where
      of_runnable :
          (l : List Ticket)
          → In t l
          → eligible_tickets
              (fresh_plan (selected (record store { runnable = l })))
              (record store { runnable = l })
            ≡ l
      of_runnable [] n = absurd n
      of_runnable (u ∷ us) n = refl

  -- Where a ticket is eligible, none is bound.
  pub eligible-unbound :
      (k : String)
      → contains k (ids eligible) ≡ true
      → (bound_ticket state ≡ none) × (eligible ≡ store.runnable)
  unfolding bound_ticket contains
  eligible-unbound k m =
      elim (Bool-cases (starts (execution_plan reusable branch_ok dirty state store))) [
        | inl e ↦
            let (free, unbound, fresh) =
              execution_plan-IsFree reusable branch_ok dirty state store e in
            (rw (bound_ticket, unbound) refl, rw e refl)
        | inr e ↦ absurd (nobody (rw e at m))
      ]
    where
      nobody : contains k [] ≡ true → ⊥
      nobody q = cc
