-- ===== src/Status/Snapshot/Laws.antt =====
-- Every todo ticket of a status is bound, eligible or blocked, and is one of these only.
use devlegate.Prelude.{
  true-ne-false, ◌≡◌, ◌⊎◌, inl, inr, refl, sym, ◌∙◌, String, Bool, true, false, not, Option-cases,
  none, some, List, map, In, contains, nodup, ◌&&◌, some_injective,
}
use devlegate.Values.{Fields}
use devlegate.Tickets.Defs.{Ticket, TicketStore, ids, is_todo, make_store}
use devlegate.Tickets.Store.{AllKnown, make_store-SelectsLeast}
use devlegate.Status.Laws.{dependency_blocked-Divides}
use devlegate.Status.Plan.{execution_plan}
use devlegate.Status.Snapshot.{
  Waiting, Context, is_bound, bound_ticket, global_barrier, context, dependency_entries, Snapshot,
  status_snapshot,
}
use devlegate.Status.Snapshot.Entries.{
  waiting_id, contains-map, map-contains, nodup-injective, all_waiting_returns,
}
use devlegate.Status.Snapshot.Loop.{IsHeld, IsExplained, Listing, entry_id, blocked_entries-Listing}
use devlegate.Status.Snapshot.Eligible.{eligible, runnable-eligible, eligible-unbound}

-- Exactly one of three tests holds.
abbrev pub exactly_one : Bool → Bool → Bool → Bool
exactly_one true b c = not b && not c
exactly_one false true c = not c
exactly_one false false c = c

exactly_one_intro :
    (a b c : Bool)
    → (a ≡ true → b ≡ true → ⊥)
    → (a ≡ true → c ≡ true → ⊥)
    → (b ≡ true → c ≡ true → ⊥)
    → (a ≡ false → b ≡ false → c ≡ true)
    → exactly_one a b c ≡ true
exactly_one_intro true true c ab ac bc some_one = absurd (ab refl refl)
exactly_one_intro true false true ab ac bc some_one = absurd (ac refl refl)
exactly_one_intro true false false ab ac bc some_one = refl
exactly_one_intro false true true ab ac bc some_one = absurd (bc refl refl)
exactly_one_intro false true false ab ac bc some_one = refl
exactly_one_intro false false c ab ac bc some_one = some_one refl refl

-- Whether a ticket is in one place only: bound, eligible or blocked.
abbrev pub is_placed_once : Snapshot → Ticket → Bool
is_placed_once v t =
    exactly_one (is_bound v.bound_ticket_id t.id) (contains t.id (ids v.eligible))
      (contains t.id (map entry_id v.blocked))

-- What the tickets and the store say of each other.
record Facts (store : TicketStore) : Type 0 where
  bs : List Ticket
  covers :
      (t : Ticket) → In t store.tickets → is_todo t.state ≡ true → In t bs ⊎ In t store.runnable
  waits : (t : Ticket) → In t bs → In t store.tickets × (In t store.runnable → ⊥)
  runs : (t : Ticket) → In t store.runnable → In t store.tickets
  ws : List Waiting
  all : dependency_entries store.tickets ≡ some ws
  same_ids : map waiting_id ws ≡ ids bs

facts :
    (store : TicketStore)
    → AllKnown store.tickets store.tickets
    → make_store store.tickets ≡ some store
    → Facts store
unfolding dependency_entries
facts store known made =
    let (first, made₁, kept, runs, least) = make_store-SelectsLeast store.tickets known in
    let (second, bs, made₂, e, covers, waits) = dependency_blocked-Divides store.tickets known in
    let (ws, all, same_ids) = all_waiting_returns store.tickets bs (λ t m. known t (waits t m).0) in
    let same₁ = some_injective (sym made₁ ∙ made) in
    let same₂ = some_injective (sym made₂ ∙ made) in
    record {
      bs = bs;
      covers = λ t m k. elim (covers t m k) [ inl b ↦ inl b | inr r ↦ inr (rw same₂ at r) ];
      waits = λ t m. ((waits t m).0, λ r. (waits t m).2 (rw same₂ r));
      runs = λ t m. ((runs t).0 (rw same₁ m)).0;
      ws = ws;
      all = rw (dependency_entries, e) all;
      same_ids = same_ids;
    }

abbrev ticket_id : Ticket → String
ticket_id t = t.id

module _ (reusable branch_ok dirty : Bool) (state : Fields) (store : TicketStore) (f : Facts store)
    (distinct : nodup (ids store.tickets) ≡ true) where
  abbrev c : Context
  c = context reusable branch_ok dirty state store f.ws

  explained : (t : Ticket) → In t store.tickets → IsExplained c t
  unfolding context
  explained t m here unbound absent other =
      elim (Option-cases (global_barrier branch_ok dirty state store.tickets)) [
        | inr (b, e) ↦ (b, e)
        | inl e ↦ elim (f.covers t m here) [
          | inl waiting ↦
              absurd
                (true-ne-false (contains-map ticket_id t f.bs waiting) (rw f.same_ids at absent))
          | inr runnable ↦ absurd (
              true-ne-false (contains-map ticket_id t store.runnable runnable)
                (rw (runnable-eligible reusable branch_ok dirty state store t e runnable) at other))
        ]
      ]

  -- No ticket waits for its dependencies and is eligible.
  waiting-eligible :
      (k : String)
      → contains k (map waiting_id f.ws) ≡ true
      → contains k (ids (eligible reusable branch_ok dirty state store)) ≡ true
      → ⊥
  waiting-eligible k w e =
      let (unbound, same) = eligible-unbound reusable branch_ok dirty state store k e in
      let (t, in_bs, t_id) = map-contains ticket_id k f.bs (rw f.same_ids at w) in
      let (u, in_runnable, u_id) = map-contains ticket_id k store.runnable (rw same at e) in
      let (in_ts, never) = f.waits t in_bs in
      let t_is_u =
        nodup-injective ticket_id store.tickets t u distinct in_ts (f.runs u in_runnable)
          (t_id ∙ sym u_id) in
      never (rw t_is_u in_runnable)

  held_not_eligible :
      (t : Ticket)
      → IsHeld c t
      → contains t.id (ids (eligible reusable branch_ok dirty state store)) ≡ true
      → ⊥
  unfolding context
  held_not_eligible t h e = elim h.held [
    | inl w ↦ waiting-eligible t.id w e
    | inr k ↦ true-ne-false e k
  ]

  bound_not_eligible :
      (k : String)
      → is_bound (bound_ticket state) k ≡ true
      → contains k (ids (eligible reusable branch_ok dirty state store)) ≡ true
      → ⊥
  bound_not_eligible k b e =
      let (unbound, same) = eligible-unbound reusable branch_ok dirty state store k e in
      nobody (rw unbound at b)
    where
      nobody : is_bound none k ≡ true → ⊥
      nobody q = cc

  module _ (entries : Listing c store.tickets) where
    blocked-IsHeld :
        (t : Ticket)
        → contains t.id (map entry_id entries.result) ≡ true
        → (u : Ticket) × (u.id ≡ t.id) × IsHeld c u
    blocked-IsHeld t m = let (u, at, same, h) = entries.sound t.id m in (u, same, h)

    placed :
        (t : Ticket)
        → In t store.tickets
        → is_todo t.state ≡ true
        → exactly_one
            (is_bound (bound_ticket state) t.id)
            (contains t.id (ids (eligible reusable branch_ok dirty state store)))
            (contains t.id (map entry_id entries.result))
          ≡ true
    unfolding context
    placed t m here =
        exactly_one_intro (is_bound (bound_ticket state) t.id)
          (contains t.id (ids (eligible reusable branch_ok dirty state store)))
          (contains t.id (map entry_id entries.result)) (λ b e. bound_not_eligible t.id b e)
          (λ b x. let (u, same, h) = blocked-IsHeld t x in true-ne-false (rw same b) h.unbound)
          (λ e x. let (u, same, h) = blocked-IsHeld t x in held_not_eligible u h (rw same e))
          (λ unbound other.
            entries.complete t m (record { in_todo = here; unbound = unbound; held = inr other }))

-- Where the dependencies are known and the IDs distinct, the status of a store is built, which means that the
-- `assert` on the barrier holds of every ticket; every todo ticket is exactly one of bound, eligible and
-- blocked; and every blocked ticket is a todo ticket of the store.
pub status_snapshot-Divides :
    (reusable branch_ok dirty : Bool) (state : Fields) (store : TicketStore)
    → AllKnown store.tickets store.tickets
    → nodup (ids store.tickets) ≡ true
    → make_store store.tickets ≡ some store
    → (v : Snapshot) × (status_snapshot reusable branch_ok dirty state store ≡ some v)
      × ((t : Ticket) → In t store.tickets → is_todo t.state ≡ true → is_placed_once v t ≡ true)
      × ((k : String)
          → contains k (map entry_id v.blocked) ≡ true
          → (t : Ticket) × In t store.tickets × (t.id ≡ k) × (is_todo t.state ≡ true))
unfolding status_snapshot context
status_snapshot-Divides reusable branch_ok dirty state store known distinct made =
    let f = facts store known made in
    let entries =
      blocked_entries-Listing (c reusable branch_ok dirty state store f distinct) store.tickets
        (explained reusable branch_ok dirty state store f distinct) in
    (
      record {
        plan = execution_plan reusable branch_ok dirty state store;
        bound_ticket_id = bound_ticket state;
        runnable = store.runnable;
        eligible = eligible reusable branch_ok dirty state store;
        blocked = entries.result;
      },
      rw (status_snapshot, f.all, entries.returned) refl,
      placed reusable branch_ok dirty state store f distinct entries,
      λ k m. let (t, at, same, h) = entries.sound k m in (t, at, same, h.in_todo),
    )
