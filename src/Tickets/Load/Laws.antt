-- ===== src/Tickets/Load/Laws.antt =====
-- What `load_ticket_store` returns, and what each of its errors says about the files.
use devlegate.Prelude.{
  ◌≡◌, ◌≤◌, arith, ◌↔◌, ◌⊎◌, refl, String, true, false, inl, inr, List, [], ◌∷◌, str_leb, contains,
  subset, nodup, sort, contains-cons_self, contains-cons_tail, contains-subset, subset_intro, In,
  In-sort, sort-In, IsSorted, sort-IsSorted, str_leb_total, str_leb_trans, Bool-cases, Result, ok,
  err, expect,
}
use devlegate.Tickets.Defs.{Ticket, TicketStore, ids, id_leb, make_store, selected}
use devlegate.Tickets.Errors.{
  TicketError, duplicate_ticket, missing_dependency, dependency_cycle, key_error,
}
use devlegate.Tickets.Store.{AllKnown, IsReady, SelectsLeast, make_store-SelectsLeast}
use devlegate.Tickets.Graph.Relation.{IsAcyclic, IsCycle}
use devlegate.Tickets.Graph.Decides.{validate_cycles-decides}
use devlegate.Tickets.Load.Index.{
  occurrences, occurrences-cons_self, occurrences-cons_le, occurrences-sort, nodup-sort,
  nodup-ids-sort, contains-ids-sort, IsAcyclic-sort, AllKnown-IsClosed,
}
use devlegate.Tickets.Load.{check_distinct, check_known, check_all_known, build_store}

-- The store of some tickets: all of them, in the order of their IDs, each ID once, each dependency
-- there and no cycle among them; the runnable ones are the ready ones.
pub record IsStoreOf (ts : List Ticket) (store : TicketStore) : Type 0 where
  pub tickets : store.tickets ≡ sort id_leb ts
  pub ordered : IsSorted id_leb store.tickets
  pub distinct : nodup (ids store.tickets) ≡ true
  pub closed : AllKnown store.tickets store.tickets
  pub acyclic : IsAcyclic store.tickets
  pub runnable : (t : Ticket) → In t store.runnable ↔ (In t store.tickets × IsReady store.tickets t)
  pub selects : SelectsLeast store.tickets (selected store)

-- What each outcome says about the tickets. No error but the three is possible.
abbrev pub Explains : List Ticket → Result TicketError TicketStore → Type 0
Explains ts (ok store) = IsStoreOf ts store
Explains ts (err (duplicate_ticket k)) = 2 ≤ occurrences k (ids ts)
Explains ts (err (missing_dependency k d)) =
    ((t : Ticket) × In t ts × (t.id ≡ k) × (contains d t.depends_on ≡ true))
    × (contains d (ids ts) ≡ false)
Explains ts (err (dependency_cycle c)) = IsCycle ts c
Explains ts (err _) = ⊥

check_distinct_cases :
    (ks : List String)
    → ((check_distinct ks ≡ ok tt) × (nodup ks ≡ true))
      ⊎ ((k : String) × (check_distinct ks ≡ err (duplicate_ticket k)) × (2 ≤ occurrences k ks))
check_distinct_cases [] = inl (unfold check_distinct in refl, unfold nodup in refl)
check_distinct_cases (k ∷ ks) = elim (Bool-cases (contains k ks)) [
  | inl again ↦ inr (k, (unfold check_distinct in rw again refl), occurrences-cons_self k ks again)
  | inr once ↦ later k ks once (check_distinct_cases ks)
]
  where
    later :
        (k : String) (ks : List String)
        → contains k ks ≡ false
        → ((check_distinct ks ≡ ok tt) × (nodup ks ≡ true))
          ⊎ ((k : String) × (check_distinct ks ≡ err (duplicate_ticket k)) × (2 ≤ occurrences k ks))
        → ((check_distinct (k ∷ ks) ≡ ok tt) × (nodup (k ∷ ks) ≡ true))
          ⊎ ((j : String) × (check_distinct (k ∷ ks) ≡ err (duplicate_ticket j))
              × (2 ≤ occurrences j (k ∷ ks)))
    later k ks once (inl (e, d)) =
        inl ((unfold check_distinct in rw (once, e) refl), (unfold nodup in rw (once, d) refl))
    later k ks once (inr (j, e, twice)) =
        inr (
          j,
          (unfold check_distinct in rw (once, e) refl),
          omega (arith, occurrences-cons_le j k ks),
        )

check_known_cases :
    (known : List String) (k : String) (ds : List String)
    → ((check_known known k ds ≡ ok tt) × (subset ds known ≡ true))
      ⊎ ((d : String) × (check_known known k ds ≡ err (missing_dependency k d))
          × (contains d ds ≡ true)
          × (contains d known ≡ false))
unfolding check_known subset
check_known_cases known k [] = inl (refl, refl)
check_known_cases known k (d ∷ ds) = elim (Bool-cases (contains d known)) [
  | inr absent ↦ inr (d, rw absent refl, contains-cons_self d ds, absent)
  | inl here ↦ elim (check_known_cases known k ds) [
    | inl (e, s) ↦ inl (rw (here, e) refl, rw (here, s) refl)
    | inr (j, e, m, absent) ↦ inr (j, rw (here, e) refl, contains-cons_tail j d ds m, absent)
  ]
]

check_all_known_cases :
    (known : List String) (ts : List Ticket)
    → ((check_all_known known ts ≡ ok tt)
        × ((t : Ticket) → In t ts → subset t.depends_on known ≡ true))
      ⊎ ((t : Ticket) × (d : String) × (check_all_known known ts ≡ err (missing_dependency t.id d))
          × In t ts
          × (contains d t.depends_on ≡ true)
          × (contains d known ≡ false))
unfolding check_all_known
check_all_known_cases known [] = inl (refl, λ t m. absurd m)
check_all_known_cases known (t ∷ ts) = elim (check_known_cases known t.id t.depends_on) [
  | inr (d, e, m, absent) ↦ inr (t, d, rw e refl, inl refl, m, absent)
  | inl (e, s) ↦ elim (check_all_known_cases known ts) [
    | inl (e', all) ↦
        inl (rw (e, e') refl, λ u m. elim m [ inl same ↦ rw same s | inr m' ↦ all u m' ])
    | inr (u, d, e', m, n, absent) ↦ inr (u, d, rw (e, e') refl, inr m, n, absent)
  ]
]

-- The last step, where all checks have passed.
built :
    (ts : List Ticket)
    → nodup (ids ts) ≡ true
    → ((t : Ticket) → In t (sort id_leb ts) → subset t.depends_on (ids ts) ≡ true)
    → IsAcyclic ts
    → Explains ts (expect (make_store (sort id_leb ts)) key_error)
built ts distinct known acyclic =
    let closed : AllKnown (sort id_leb ts) (sort id_leb ts) = λ t m. ids_sorted ts t (known t m) in
    let (store, made, same, runnable, selects) = make_store-SelectsLeast (sort id_leb ts) closed in
    rw made (record {
      tickets = same;
      ordered = rw same (
          sort-IsSorted id_leb (λ a b. str_leb_total a.id b.id)
            (λ a b c. str_leb_trans a.id b.id c.id) ts);
      distinct = rw (same, nodup-ids-sort) distinct;
      closed = rw same closed;
      acyclic = rw same (IsAcyclic-sort ts distinct acyclic);
      runnable = rw same runnable;
      selects = rw same selects;
    })
  where
    ids_sorted :
        (ts : List Ticket) (t : Ticket)
        → subset t.depends_on (ids ts) ≡ true
        → subset t.depends_on (ids (sort id_leb ts)) ≡ true
    ids_sorted ts t h =
        subset_intro t.depends_on (ids (sort id_leb ts))
          (λ k m. rw contains-ids-sort (contains-subset k t.depends_on (ids ts) h m))

-- Building a store from parsed tickets either succeeds, with the store of these tickets, or raises
-- one of three errors, and then what it says is so: an ID that several tickets have, a dependency
-- that is no ticket, or a cycle.
pub build_store-Explains : (ts : List Ticket) → Explains ts (build_store ts)
unfolding build_store
build_store-Explains ts = elim (check_distinct_cases (sort str_leb (ids ts))) [
  | inr (k, e, twice) ↦ rw e (rw occurrences-sort at twice)
  | inl (e, d) ↦
      let distinct : nodup (ids ts) ≡ true = rw nodup-sort at d in
      elim (check_all_known_cases (ids ts) (sort id_leb ts)) [
        | inr (t, d, e', m, n, absent) ↦ rw (e, e') ((t, In-sort id_leb t ts m, refl, n), absent)
        | inl (e', known) ↦
            let closed = AllKnown-IsClosed ts (λ t m. known t (sort-In id_leb t ts m)) in
            elim (validate_cycles-decides ts closed) [
              | inl (s, v, acyclic) ↦ rw (e, e', v) (built ts distinct known acyclic)
              | inr (c, v, is_cycle) ↦ rw (e, e', v) is_cycle
            ]
      ]
]
