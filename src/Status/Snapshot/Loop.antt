-- ===== src/Status/Snapshot/Loop.antt =====
-- The loop over the tickets lists each todo ticket that it is to list, and only such.
use devlegate.Prelude.{
  true-ne-false, ◌≡◌, ◌⊎◌, inl, inr, refl, sym, ap, ◌∙◌, String, true, false, Bool-cases, none,
  some, List, [], ◌∷◌, map, In, contains, contains-cons_self, contains-cons_tail,
  contains-cons_cases,
}
use devlegate.Tickets.Defs.{Ticket, ids, is_todo}
use devlegate.Status.{Barrier}
use devlegate.Status.Snapshot.{
  entry_of, Context, is_bound, BlockedTicket, dependency_reason, ready_entry, blocked_entry,
  blocked_entries, global_reason,
}
use devlegate.Status.Snapshot.Entries.{waiting_id, entry_of-cases, contains-map}

abbrev pub entry_id : BlockedTicket → String
entry_id e = e.ticket.id

contains-head : (k x : String) (xs : List String) → k ≡ x → contains k (x ∷ xs) ≡ true
contains-head k x xs e = rw e (contains-cons_self x xs)

module _ (c : Context) where
  -- A todo ticket that is not bound waits for its dependencies, or is not eligible.
  pub record IsHeld (t : Ticket) : Type 0 where
    pub in_todo : is_todo t.state ≡ true
    pub unbound : is_bound c.bound t.id ≡ false
    pub held :
        (contains t.id (map waiting_id c.waiting) ≡ true) ⊎ (contains t.id (ids c.eligible) ≡ false)

  -- The `assert` holds of a ticket.
  abbrev pub IsExplained : Ticket → Type 0
  IsExplained t =
      is_todo t.state ≡ true
      → is_bound c.bound t.id ≡ false
      → contains t.id (map waiting_id c.waiting) ≡ false
      → contains t.id (ids c.eligible) ≡ false
      → (b : Barrier) × (c.barrier ≡ some b)

  -- What a round comes to.
  data Turn (t : Ticket) : Type 0 where
    listed :
        (e : BlockedTicket)
        → blocked_entry c t ≡ some (some e)
        → e.ticket.id ≡ t.id
        → IsHeld t
        → Turn t
    skipped : blocked_entry c t ≡ some none → (IsHeld t → ⊥) → Turn t

  ready-Turn :
      (t : Ticket)
      → IsExplained t
      → is_todo t.state ≡ true
      → is_bound c.bound t.id ≡ false
      → entry_of c.waiting t.id ≡ none
      → contains t.id (map waiting_id c.waiting) ≡ false
      → Turn t
  unfolding blocked_entry ready_entry
  ready-Turn t explained here unbound e absent =
      elim (Bool-cases (contains t.id (ids c.eligible))) [
        | inl eligible ↦
            skipped (rw (blocked_entry, here, unbound, e, ready_entry, eligible) refl) (λ h.
              elim h.held [ inl w ↦ true-ne-false w absent | inr k ↦ true-ne-false eligible k ])
        | inr other ↦
            let (b, there) = explained here unbound absent other in
            listed (record { ticket = t; reason = global_reason b })
              (rw (blocked_entry, here, unbound, e, ready_entry, other, there) refl) refl
              (record { in_todo = here; unbound = unbound; held = inr other })
      ]

  blocked_entry-Turn : (t : Ticket) → IsExplained t → Turn t
  unfolding blocked_entry
  blocked_entry-Turn t explained = elim (Bool-cases (is_todo t.state)) [
    | inr other ↦ skipped (rw (blocked_entry, other) refl) (λ h. true-ne-false h.in_todo other)
    | inl here ↦ elim (Bool-cases (is_bound c.bound t.id)) [
      | inl bound ↦
          skipped (rw (blocked_entry, here, bound) refl) (λ h. true-ne-false bound h.unbound)
      | inr unbound ↦ elim (entry_of-cases c.waiting t.id) [
        | inl (e, absent) ↦ ready-Turn t explained here unbound e absent
        | inr (w, e, m, same) ↦
            listed
              (record { ticket = w.ticket; reason = dependency_reason c.integrating w.blockers })
              (rw (blocked_entry, here, unbound, e) refl) same
              (record {
                in_todo = here;
                unbound = unbound;
                held = inl (rw (← same) (contains-map waiting_id w c.waiting m));
              })
      ]
    ]
  ]

  -- What the loop returns: an entry for each held ticket, and for no other.
  pub record Listing (ts : List Ticket) : Type 0 where
    pub result : List BlockedTicket
    pub returned : blocked_entries c ts ≡ some result
    pub sound :
        (k : String)
        → contains k (map entry_id result) ≡ true
        → (t : Ticket) × In t ts × (t.id ≡ k) × IsHeld t
    pub complete : (t : Ticket) → In t ts → IsHeld t → contains t.id (map entry_id result) ≡ true

  pub blocked_entries-Listing :
      (ts : List Ticket) → ((t : Ticket) → In t ts → IsExplained t) → Listing ts
  unfolding blocked_entries
  blocked_entries-Listing [] explained = record {
    result = [];
    returned = refl;
    sound = λ k m. unfold contains in cc;
    complete = λ t m h. absurd m;
  }
  blocked_entries-Listing (t ∷ ts) explained =
      let rest = blocked_entries-Listing ts (λ u m. explained u (inr m)) in
      elim (blocked_entry-Turn t (explained t (inl refl))) [
        | skipped e unheld ↦ record {
          result = rest.result;
          returned = rw (blocked_entries, e) rest.returned;
          sound = λ k m. let (u, at, same, h) = rest.sound k m in (u, inr at, same, h);
          complete = λ u m h. elim m [
            | inl same ↦ absurd (unheld (rw same at h))
            | inr m' ↦ rest.complete u m' h
          ];
        }
        | listed x e same held ↦ record {
          result = x ∷ rest.result;
          returned = rw (blocked_entries, e, rest.returned) refl;
          sound = λ k m. elim (contains-cons_cases k x.ticket.id (map entry_id rest.result) m) [
            | inl here ↦ (t, inl refl, sym (here ∙ same), held)
            | inr m' ↦ let (u, at, s, h) = rest.sound k m' in (u, inr at, s, h)
          ];
          complete = λ u m h. elim m [
            | inl here ↦
                contains-head u.id x.ticket.id (map entry_id rest.result)
                  (ap (λ v. v.id) here ∙ sym same)
            | inr m' ↦
                contains-cons_tail u.id x.ticket.id (map entry_id rest.result)
                  (rest.complete u m' h)
          ];
        }
      ]
