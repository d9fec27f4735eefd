-- ===== src/Status/Plan/Laws.antt =====
-- When a plan starts or resumes a worker.
use devlegate.Prelude.{
  true-ne-false, none-ne-some, ◌≡◌, ◌↔◌, ap, In, inl, inr, refl, ◌∙◌, Bool, true, false, Bool-cases,
  Option-cases, Option, none, some, List, [], ◌∷◌, str_eq, if◌then◌else◌,
}
use devlegate.Values.{Fields, as_text, as_dict, item_as, item_is}
use devlegate.Tickets.Defs.{Ticket, TicketStore, selected}
use devlegate.Status.{
  Barrier, find, admission_barrier, serial_admission_barrier, serial_barrier, is_review,
  open_reconciliation, integration_or_boundary, integration_barrier, boundary, blocked, has_many,
  on_boundary,
}
use devlegate.Status.Laws.{IsFree, admission_barrier-IsFree}
use devlegate.Status.Plan.{
  Plan, is_bound_phase, may_be_bound, barrier_plan, resumed, bound_plan, fresh_plan, unbarred_plan,
  execution_plan, starts,
}

-- A barrier starts no worker.
abbrev Idle : Barrier → Type 0
Idle b = str_eq b.action "run-worker" ≡ false

serial_barrier-Idle : (t : Ticket) → Idle (serial_barrier t)
serial_barrier-Idle t = elim (Bool-cases (is_review t.state)) [
  | inl e ↦ rw e refl
  | inr e ↦ rw e refl
]

Idle-some : (a b : Barrier) → Idle a → ◌≡◌ {A = Option Barrier} (some a) (some b) → Idle b
Idle-some a b idle h = let same : a ≡ b = cc in rw (← same) idle

serial_admission_barrier-Idle :
    (ts : List Ticket) (b : Barrier) → serial_admission_barrier ts ≡ some b → Idle b
unfolding serial_admission_barrier
serial_admission_barrier-Idle ts b h = of_boundary (boundary ts) h
  where
    of_boundary :
        (l : List Ticket)
        → ◌≡◌ {A = Option Barrier}
            (elim l [ [] ↦ none | t ∷ rest ↦ some (serial_barrier t) ])
            (some b)
        → Idle b
    of_boundary [] k = cc
    of_boundary (t ∷ rest) k = Idle-some (serial_barrier t) b (serial_barrier-Idle t) k

integration_barrier-Idle : (o : Option Ticket) → Idle (integration_barrier o)
integration_barrier-Idle none = refl
integration_barrier-Idle (some t) = refl

integration_or_boundary-Idle :
    (o : Option Fields) (dirty : Bool) (ts : List Ticket) (b : Barrier)
    → integration_or_boundary o dirty ts ≡ some b
    → Idle b
unfolding integration_or_boundary
integration_or_boundary-Idle (some x) dirty ts b h =
    let o = find ts (item_as as_text "ticket_id" x) in
    Idle-some (integration_barrier o) b (integration_barrier-Idle o) h
integration_or_boundary-Idle none true ts b h = Idle-some (blocked "repository" none) b refl h
integration_or_boundary-Idle none false ts b h = elim (Bool-cases (has_many (boundary ts))) [
  | inl many ↦ Idle-some (blocked "scheduler-barrier" none) b refl (rw many at h)
  | inr few ↦ absurd (none-ne-some (rw few at h))
]

admission_barrier-Idle :
    (branch_ok dirty : Bool) (state : Fields) (ts : List Ticket) (b : Barrier)
    → admission_barrier branch_ok dirty state ts ≡ some b
    → Idle b
unfolding admission_barrier
admission_barrier-Idle false dirty state ts b h = Idle-some (blocked "repository" none) b refl h
admission_barrier-Idle true dirty state ts b h = elim (Option-cases (open_reconciliation state)) [
  | inl e ↦
      integration_or_boundary-Idle (item_as as_dict "accepted_integration" state) dirty ts b
        (rw (admission_barrier, e) at h)
  | inr (r, e) ↦
      Idle-some (blocked "reconciliation" (item_as as_text "ticket_id" r)) b refl
        (rw (admission_barrier, e) at h)
]

boundary-empty :
    (ts : List Ticket) → ((t : Ticket) → In t ts → on_boundary t.state ≡ false) → boundary ts ≡ []
unfolding boundary
boundary-empty [] h = refl
boundary-empty (t ∷ ts) h = rw (boundary, h t (inl refl)) (boundary-empty ts (λ u m. h u (inr m)))

-- The converse of `admission_barrier-IsFree`.
IsFree-admission_barrier :
    (branch_ok dirty : Bool) (state : Fields) (ts : List Ticket)
    → IsFree branch_ok dirty state ts
    → (admission_barrier branch_ok dirty state ts ≡ none) × (serial_admission_barrier ts ≡ none)
unfolding admission_barrier integration_or_boundary serial_admission_barrier
IsFree-admission_barrier branch_ok dirty state ts free =
    let vacant = boundary-empty ts free.vacant in
    (
      rw
          (
            free.branch, admission_barrier, free.settled, free.unintegrated, free.clean,
            integration_or_boundary, vacant,
          )
          refl,
      rw (serial_admission_barrier, vacant) refl,
    )

barrier-starts : (ts : List Ticket) (b : Barrier) → Idle b → starts (barrier_plan ts b) ≡ true → ⊥
barrier-starts ts b idle h = true-ne-false h (rw idle refl)

resumed-starts : (reusable : Bool) (o : Option Ticket) → starts (resumed reusable o) ≡ false
resumed-starts reusable none = refl
resumed-starts reusable (some t) = elim (Bool-cases (may_be_bound t.state)) [
  | inl e ↦ rw e (bound_one reusable)
  | inr e ↦ rw e refl
]
  where
    bound_one :
        (reusable : Bool)
        → starts (record {
          action = if reusable then "run-worker" else "blocked";
          ticket = some t;
          bound = true;
        })
          ≡ false
    bound_one true = refl
    bound_one false = refl

bound_plan-starts :
    (reusable : Bool) (state : Fields) (ts : List Ticket)
    → starts (bound_plan reusable state ts) ≡ false
unfolding bound_plan
bound_plan-starts reusable state ts = elim (Bool-cases (item_is "phase" "agent_running" state)) [
  | inl e ↦ rw (bound_plan, e) refl
  | inr e ↦
      rw (bound_plan, e)
        (resumed-starts reusable (find ts (item_as as_text "selected_ticket_id" state)))
]

fresh_plan-starts :
    (o : Option Ticket) (t : Ticket)
    → (fresh_plan o).ticket ≡ some t
    → starts (fresh_plan o) ≡ true
    → o ≡ some t
fresh_plan-starts none t h k = cc
fresh_plan-starts (some u) t h k = h

module _ (reusable branch_ok dirty : Bool) (state : Fields) (store : TicketStore) where
  abbrev plan : Plan
  plan = execution_plan reusable branch_ok dirty state store

  pub execution_plan-barred :
      (b : Barrier)
      → admission_barrier branch_ok dirty state store.tickets ≡ some b
      → plan ≡ barrier_plan store.tickets b
  unfolding execution_plan
  execution_plan-barred b h = rw (execution_plan, h) refl

  pub execution_plan-bound :
      admission_barrier branch_ok dirty state store.tickets ≡ none
      → is_bound_phase state ≡ true
      → plan ≡ bound_plan reusable state store.tickets
  unfolding execution_plan unbarred_plan
  execution_plan-bound h k = rw (execution_plan, h, unbarred_plan, k) refl

  pub execution_plan-serial :
      (b : Barrier)
      → admission_barrier branch_ok dirty state store.tickets ≡ none
      → is_bound_phase state ≡ false
      → serial_admission_barrier store.tickets ≡ some b
      → plan ≡ barrier_plan store.tickets b
  unfolding execution_plan unbarred_plan
  execution_plan-serial b h k l = rw (execution_plan, h, unbarred_plan, k, l) refl

  pub execution_plan-fresh :
      admission_barrier branch_ok dirty state store.tickets ≡ none
      → is_bound_phase state ≡ false
      → serial_admission_barrier store.tickets ≡ none
      → plan ≡ fresh_plan (selected store)
  unfolding execution_plan unbarred_plan
  execution_plan-fresh h k l = rw (execution_plan, h, unbarred_plan, k, l) refl

  pub execution_plan-IsFree :
      starts plan ≡ true
      → IsFree branch_ok dirty state store.tickets
        × (is_bound_phase state ≡ false)
        × (plan ≡ fresh_plan (selected store))
  execution_plan-IsFree h =
      elim (Option-cases (admission_barrier branch_ok dirty state store.tickets)) [
        | inr (b, e) ↦ absurd (
            barrier-starts store.tickets b
              (admission_barrier-Idle branch_ok dirty state store.tickets b e)
              (rw (execution_plan-barred b e) at h))
        | inl none_first ↦ elim (Bool-cases (is_bound_phase state)) [
          | inl k ↦ absurd (
              true-ne-false (rw (execution_plan-bound none_first k) at h)
                (bound_plan-starts reusable state store.tickets))
          | inr k ↦ elim (Option-cases (serial_admission_barrier store.tickets)) [
            | inr (b, e) ↦ absurd (
                barrier-starts store.tickets b (serial_admission_barrier-Idle store.tickets b e)
                  (rw (execution_plan-serial b none_first k e) at h))
            | inl none_second ↦ (
              admission_barrier-IsFree branch_ok dirty state store.tickets none_first none_second,
              k,
              execution_plan-fresh none_first k none_second,
            )
          ]
        ]
      ]

  -- A worker is started for a ticket exactly where nothing holds the scheduler back, the persisted state is
  -- bound to no execution, and the store selects that ticket.
  pub execution_plan-starts_iff :
      (t : Ticket)
      → ((plan.ticket ≡ some t) × (starts plan ≡ true)) ↔ (
          IsFree branch_ok dirty state store.tickets
          × (is_bound_phase state ≡ false)
          × (selected store ≡ some t))
  execution_plan-starts_iff t = (
    (λ h.
        let (free, unbound, fresh) = execution_plan-IsFree h.1 in
        (free, unbound, fresh_plan-starts (selected store) t (rw fresh at h.0) (rw fresh at h.1))),
    λ h.
        let (first, second) = IsFree-admission_barrier branch_ok dirty state store.tickets h.0 in
        let fresh = execution_plan-fresh first h.1 second ∙ ap fresh_plan h.2 in
        (ap (λ p. p.ticket) fresh, ap starts fresh),
  )
