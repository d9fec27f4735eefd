-- ===== src/Status/Laws.antt =====
-- What no barrier means, and how the todo tickets divide.
use devlegate.Prelude.{
  cons-ne-nil, some-ne-none, ◌≡◌, ◌⊎◌, inl, inr, refl, Bool, true, false, Bool-cases, Option,
  Option-cases, none, some, List, [], ◌∷◌, In, subset, arith,
}
use devlegate.Values.{Fields, as_dict, item_as}
use devlegate.Tickets.Defs.{Ticket, TicketStore, is_todo, ids, make_store}
use devlegate.Tickets.Store.{AllKnown, IsReady, all_done_cases, make_store-SelectsLeast}
use devlegate.Status.{
  Barrier, on_boundary, boundary, open_reconciliation, integration_or_boundary, admission_barrier,
  serial_barrier, serial_admission_barrier, is_dependency_blocked, dependency_blocked,
}

-- Nothing holds the scheduler back.
pub record IsFree (branch_ok dirty : Bool) (state : Fields) (ts : List Ticket) : Type 0 where
  pub branch : branch_ok ≡ true
  pub clean : dirty ≡ false
  pub settled : open_reconciliation state ≡ none
  pub unintegrated : item_as as_dict "accepted_integration" state ≡ none
  pub vacant : (t : Ticket) → In t ts → on_boundary t.state ≡ false

boundary-vacant :
    (ts : List Ticket) → boundary ts ≡ [] → (t : Ticket) → In t ts → on_boundary t.state ≡ false
unfolding boundary
boundary-vacant [] h t m = absurd m
boundary-vacant (u ∷ us) h t m = elim (Bool-cases (on_boundary u.state)) [
  | inl e ↦ absurd (cons-ne-nil (rw (boundary, e) at h))
  | inr e ↦ elim m [
    | inl same ↦ rw same e
    | inr m' ↦ boundary-vacant us (rw (boundary, e) at h) t m'
  ]
]

serial-boundary : (ts : List Ticket) → serial_admission_barrier ts ≡ none → boundary ts ≡ []
unfolding serial_admission_barrier
serial-boundary ts h = empty (boundary ts) h
  where
    empty :
        (l : List Ticket)
        → ◌≡◌ {A = Option Barrier} (elim l [ [] ↦ none | t ∷ rest ↦ some (serial_barrier t) ]) none
        → l ≡ []
    empty [] k = refl
    empty (t ∷ rest) k = cc

integration-none :
    (o : Option Fields) (dirty : Bool) (ts : List Ticket)
    → integration_or_boundary o dirty ts ≡ none
    → (o ≡ none) × (dirty ≡ false)
unfolding integration_or_boundary
integration-none (some x) dirty ts h = cc
integration-none none true ts h = cc
integration-none none false ts h = (refl, refl)

-- Where neither `_admission_barrier` nor `_serial_admission_barrier` returns a barrier, the control
-- branch is in order, the working trees are clean, no reconciliation is open, no accepted integration
-- is in progress, and no ticket is in review or accepted.
pub admission_barrier-IsFree :
    (branch_ok dirty : Bool) (state : Fields) (ts : List Ticket)
    → admission_barrier branch_ok dirty state ts ≡ none
    → serial_admission_barrier ts ≡ none
    → IsFree branch_ok dirty state ts
unfolding admission_barrier
admission_barrier-IsFree false dirty state ts h k = cc
admission_barrier-IsFree true dirty state ts h k = elim (Option-cases (open_reconciliation state)) [
  | inr (r, e) ↦ absurd (some-ne-none (rw (admission_barrier, e) at h))
  | inl e ↦
      let (i, c) =
        integration-none (item_as as_dict "accepted_integration" state) dirty ts
          (rw (admission_barrier, e) at h) in
      record {
        branch = refl;
        clean = c;
        settled = e;
        unintegrated = i;
        vacant = boundary-vacant ts (serial-boundary ts k);
      }
]

is_dependency_blocked_cases :
    (index : List Ticket) (t : Ticket)
    → subset t.depends_on (ids index) ≡ true
    → ((is_dependency_blocked index t ≡ some true)
        × (is_todo t.state ≡ true)
        × (IsReady index t → ⊥))
      ⊎ ((is_dependency_blocked index t ≡ some false) × (is_todo t.state ≡ true → IsReady index t))
unfolding is_dependency_blocked
is_dependency_blocked_cases index t h = elim (Bool-cases (is_todo t.state)) [
  | inl here ↦ elim (all_done_cases index t.depends_on h) [
    | inl (e, all) ↦ inr (
      rw (is_dependency_blocked, here, e) refl,
      λ k. record { in_todo = ground arith; deps_done = all },
    )
    | inr (e, open_dep) ↦
        inl (rw (is_dependency_blocked, here, e) refl, here, λ r. open_dep r.deps_done)
  ]
  | inr other ↦ inr (rw (is_dependency_blocked, other) refl, λ k. absurd (apart other k))
]
  where
    apart : is_todo t.state ≡ false → is_todo t.state ≡ true → ⊥
    apart e k = cc

-- What the comprehension of `_dependency_blocked_tickets` returns.
record Divided (index ts : List Ticket) : Type 0 where
  result : List Ticket
  returned : dependency_blocked index ts ≡ some result
  sound : (t : Ticket) → In t result → In t ts × (is_todo t.state ≡ true) × (IsReady index t → ⊥)
  complete : (t : Ticket) → In t ts → is_todo t.state ≡ true → In t result ⊎ IsReady index t

dependency_blocked-cons :
    (index : List Ticket) (t : Ticket) (ts l : List Ticket)
    → dependency_blocked index ts ≡ some l
    → ((is_dependency_blocked index t ≡ some true)
        → dependency_blocked index (t ∷ ts) ≡ some (t ∷ l))
      × ((is_dependency_blocked index t ≡ some false) → dependency_blocked index (t ∷ ts) ≡ some l)
unfolding dependency_blocked
dependency_blocked-cons index t ts l h =
    (λ e. rw (dependency_blocked, e, h) refl, λ e. rw (dependency_blocked, e, h) refl)

divided : (index ts : List Ticket) → AllKnown index ts → Divided index ts
unfolding dependency_blocked
divided index [] known = record {
  result = [];
  returned = refl;
  sound = λ t m. absurd m;
  complete = λ t m k. absurd m;
}
divided index (t ∷ ts) known =
    let rest = divided index ts (λ u m. known u (inr m)) in
    elim (is_dependency_blocked_cases index t (known t (inl refl))) [
      | inl (e, here, unready) ↦ record {
        result = t ∷ rest.result;
        returned = (dependency_blocked-cons index t ts rest.result rest.returned).0 e;
        sound = λ u m. elim m [
          | inl same ↦ (inl same, rw same here, rw same unready)
          | inr m' ↦ let (a, b, c) = rest.sound u m' in (inr a, b, c)
        ];
        complete = λ u m k. elim m [
          | inl same ↦ inl (inl same)
          | inr m' ↦ elim (rest.complete u m' k) [ inl x ↦ inl (inr x) | inr x ↦ inr x ]
        ];
      }
      | inr (e, ready) ↦ record {
        result = rest.result;
        returned = (dependency_blocked-cons index t ts rest.result rest.returned).1 e;
        sound = λ u m. let (a, b, c) = rest.sound u m in (inr a, b, c);
        complete = λ u m k. elim m [
          | inl same ↦ inr (rw same (ready (rw same at k)))
          | inr m' ↦ rest.complete u m' k
        ];
      }
    ]

-- Where every dependency is known: the store and the blocked tickets are both there, and a todo ticket
-- is either runnable or blocked by its dependencies, and never both; only todo tickets are blocked.
pub dependency_blocked-Divides :
    (ts : List Ticket)
    → AllKnown ts ts
    → (store : TicketStore) × (bs : List Ticket) × (make_store ts ≡ some store)
      × (dependency_blocked ts ts ≡ some bs)
      × ((t : Ticket) → In t ts → is_todo t.state ≡ true → In t bs ⊎ In t store.runnable)
      × ((t : Ticket) → In t bs → In t ts × (is_todo t.state ≡ true) × (In t store.runnable → ⊥))
dependency_blocked-Divides ts known =
    let (store, made, same, runs, least) = make_store-SelectsLeast ts known in
    let d = divided ts ts known in
    (
      store,
      d.result,
      made,
      d.returned,
      (λ t m k. elim (d.complete t m k) [ inl b ↦ inl b | inr r ↦ inr ((runs t).1 (m, r)) ]),
      (λ t m. let (a, b, c) = d.sound t m in (a, b, (λ r. c ((runs t).0 r).1))),
    )
