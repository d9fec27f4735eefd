-- ===== src/Tickets/Store.antt =====
-- `TicketStore` of src/devlegate/tickets.py: which tickets are runnable, and which is selected.
use devlegate.Prelude.{
  String, ◌≡◌, refl, ◌↔◌, ◌⊎◌, inl, inr, true, false, Option, none, some, List, [], ◌∷◌, arith,
  eq_iff, str_leb, contains, subset, sort, contains-cons_self, contains-cons_tail, In, In-sort,
  sort-In, sort-IsSorted, IsSorted, contains-cons_cases, Bool-cases, str_leb_total, str_leb_trans,
  Option-cases,
}
use devlegate.Tickets.Defs.{
  State, Ticket, TicketStore, by_id, ids, all_done, is_runnable, filter_runnable, id_leb,
  make_store, selected, is_todo, is_done,
}

-- Every dependency of every ticket is a ticket.
abbrev pub AllKnown : List Ticket → List Ticket → Type 0
AllKnown index ts = (t : Ticket) → In t ts → subset t.depends_on (ids index) ≡ true

abbrev pub AllDone : List Ticket → List String → Type 0
AllDone index ds =
    (d : String)
    → contains d ds ≡ true
    → (u : Ticket) × (by_id index d ≡ some u) × (u.state ≡ State.done)

-- A ticket that may run: in `todo`, and each dependency in `done`.
pub record IsReady (index : List Ticket) (t : Ticket) : Type 0 where
  pub in_todo : t.state ≡ State.todo
  pub deps_done : AllDone index t.depends_on

pub known-by_id :
    (ts : List Ticket) (k : String)
    → contains k (ids ts) ≡ true
    → (u : Ticket) × (by_id ts k ≡ some u)
unfolding by_id
known-by_id [] k m = unfold contains in cc
known-by_id (t ∷ ts) k m = elim (Option-cases (by_id ts k)) [
  | inl absent ↦ elim (contains-cons_cases k t.id (ids ts) m) [
    | inl e ↦ (t, ground (arith, eq_iff t.id k))
    | inr m' ↦ let (u, e) = known-by_id ts k m' in absurd (ground arith)
  ]
  | inr (u, e) ↦ (u, rw e)
]

is_done→done : (s : State) → is_done s ≡ true → s ≡ State.done
is_done→done s h = ground arith

pub all_done_cases :
    (index : List Ticket) (ds : List String)
    → subset ds (ids index) ≡ true
    → ((all_done index ds ≡ some true) × AllDone index ds)
      ⊎ ((all_done index ds ≡ some false) × ¬ AllDone index ds)
all_done_cases index [] h = inl (unfold all_done in refl, λ d m. unfold contains in cc)
all_done_cases index (d ∷ ds) h =
    let (u, found) = known-by_id index d (unfold subset in ground arith) in
    elim (Bool-cases (is_done u.state)) [
      | inl yes_done ↦ elim (all_done_cases index ds (unfold subset in ground arith)) [
        | inl (e, all) ↦ inl (
          unfold all_done in ground arith,
          λ k m. elim (contains-cons_cases k d ds m) [
            | inl same ↦ (u, ground arith, is_done→done u.state yes_done)
            | inr m' ↦ all k m'
          ],
        )
        | inr (e, some_open) ↦ inr (
          unfold all_done in ground arith,
          λ all. some_open (λ k m. all k (contains-cons_tail k d ds m)),
        )
      ]
      | inr not_done ↦ inr (
        unfold all_done in ground arith,
        λ all. let (v, e, finished) = all d (contains-cons_self d ds) in ground arith,
      )
    ]

is_runnable_cases :
    (index : List Ticket) (t : Ticket)
    → subset t.depends_on (ids index) ≡ true
    → ((is_runnable index t ≡ some true) × IsReady index t)
      ⊎ ((is_runnable index t ≡ some false) × ¬ IsReady index t)
unfolding is_runnable
is_runnable_cases index t h = elim (Bool-cases (is_todo t.state)) [
  | inl here ↦ elim (all_done_cases index t.depends_on h) [
    | inl (e, all) ↦ inl (rw (here, e) refl, record { in_todo = ground arith; deps_done = all })
    | inr (e, open_dep) ↦ inr (rw (here, e) refl, λ r. open_dep r.deps_done)
  ]
  | inr other ↦ inr (rw other refl, λ r. let e = r.in_todo in ground arith)
]

-- What the comprehension returns.
record Filtered (index ts : List Ticket) : Type 0 where
  result : List Ticket
  returned : filter_runnable index ts ≡ some result
  sound : (t : Ticket) → In t result → In t ts × IsReady index t
  complete : (t : Ticket) → In t ts → IsReady index t → In t result

filter_runnable-cons :
    (index : List Ticket) (t : Ticket) (ts l : List Ticket)
    → filter_runnable index ts ≡ some l
    → ((is_runnable index t ≡ some true) → filter_runnable index (t ∷ ts) ≡ some (t ∷ l))
      × ((is_runnable index t ≡ some false) → filter_runnable index (t ∷ ts) ≡ some l)
unfolding filter_runnable
filter_runnable-cons index t ts l h = (λ e. ground arith, λ e. ground arith)

filtered : (index ts : List Ticket) → AllKnown index ts → Filtered index ts
filtered index [] known = record {
  result = [];
  returned = unfold filter_runnable in refl;
  sound = λ t m. absurd m;
  complete = λ t m r. m;
}
filtered index (t ∷ ts) known =
    let rest = filtered index ts (λ u m. known u (inr m)) in
    elim (is_runnable_cases index t (known t (inl refl))) [
      | inl (e, ready) ↦ record {
        result = t ∷ rest.result;
        returned = (filter_runnable-cons index t ts rest.result rest.returned).0 e;
        sound = λ u m. elim m [
          | inl same ↦ (inl same, rw same ready)
          | inr m' ↦ (inr (rest.sound u m').0, (rest.sound u m').1)
        ];
        complete = λ u m r. elim m [ inl same ↦ inl same | inr m' ↦ inr (rest.complete u m' r) ];
      }
      | inr (e, unready) ↦ record {
        result = rest.result;
        returned = (filter_runnable-cons index t ts rest.result rest.returned).1 e;
        sound = λ u m. (inr (rest.sound u m).0, (rest.sound u m).1);
        complete = λ u m r. elim m [
          | inl same ↦ absurd (unready (rw same at r))
          | inr m' ↦ rest.complete u m' r
        ];
      }
    ]

-- What `selected` is to return: the least ready ticket by ID, and nothing only where none is ready.
abbrev pub SelectsLeast : List Ticket → Option Ticket → Type 0
SelectsLeast ts none = (t : Ticket) → In t ts → ¬ IsReady ts t
SelectsLeast ts (some t) =
    In t ts × IsReady ts t × ((u : Ticket) → In u ts → IsReady ts u → str_leb t.id u.id ≡ true)

head_least :
    (ts : List Ticket) (l : List Ticket) (store : TicketStore)
    → store.runnable ≡ l
    → IsSorted id_leb l
    → ((t : Ticket) → In t l → In t ts × IsReady ts t)
    → ((t : Ticket) → In t ts → IsReady ts t → In t l)
    → SelectsLeast ts (selected store)
unfolding selected
head_least ts [] store e s sound complete = rw e (λ t m r. complete t m r)
head_least ts (t ∷ l) store e s sound complete = rw e (
  (sound t (inl refl)).0,
  (sound t (inl refl)).1,
  λ u m r. elim (complete u m r) [
    | inl same ↦ elim (str_leb_total u.id u.id) [ inl h ↦ rw (← same) h | inr h ↦ rw (← same) h ]
    | inr m' ↦ s.0 u m'
  ],
)

-- Where every dependency is a ticket, the store is built, it keeps the tickets, its runnable
-- tickets are exactly the ready ones, and `selected` is the least of them by ID.
pub make_store-SelectsLeast :
    (ts : List Ticket)
    → AllKnown ts ts
    → (store : TicketStore) × (make_store ts ≡ some store)
      × (store.tickets ≡ ts)
      × ((t : Ticket) → In t store.runnable ↔ (In t ts × IsReady ts t))
      × SelectsLeast ts (selected store)
make_store-SelectsLeast ts known =
    let f = filtered ts ts known in
    let sound =
      λ (t : Ticket) (m : In t (sort id_leb f.result)). f.sound t (In-sort id_leb t f.result m) in
    let complete = λ (t : Ticket) (m : In t ts) (r : IsReady ts t).
      sort-In id_leb t f.result (f.complete t m r) in
    let store : TicketStore = record { tickets = ts; runnable = sort id_leb f.result } in
    (
      store,
      unfold make_store in ground (arith, f.returned),
      refl,
      λ t. (sound t, λ p. complete t p.0 p.1),
      head_least ts (sort id_leb f.result) store refl
          (sort-IsSorted id_leb (λ a b. str_leb_total a.id b.id)
            (λ a b c. str_leb_trans a.id b.id c.id) f.result)
          sound complete,
    )
