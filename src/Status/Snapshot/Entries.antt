-- ===== src/Status/Snapshot/Entries.antt =====
-- What the loop over the tickets lists.
use devlegate.Prelude.{
  true-ne-false, ◌≡◌, ◌⊎◌, inl, inr, refl, sym, ap, ◌∙◌, String, Bool, true, false, not, ◌||◌,
  Bool-cases, none, some, List, [], ◌∷◌, map, In, str_eq, str_leb, eq_iff, contains, nodup,
  contains-cons_self, contains-cons_tail, contains-cons_cases, arith, sort, subset, sort-subset,
  ◌&&◌, if◌then◌else◌,
}
use devlegate.Views.{Dependency}
use devlegate.Tickets.Defs.{Ticket, ids, is_done}
use devlegate.Tickets.Store.{AllKnown, known-by_id}
use devlegate.Status.Snapshot.{state_text, blockers, Waiting, waiting_for, all_waiting, entry_of}

module _ {A : Type 0} (key : A → String) where
  pub contains-map : (a : A) (l : List A) → In a l → contains (key a) (map key l) ≡ true
  contains-map a [] m = absurd m
  contains-map a (x ∷ l) (inl e) = rw e (contains-cons_self (key x) (map key l))
  contains-map a (x ∷ l) (inr m) =
      contains-cons_tail (key a) (key x) (map key l) (contains-map a l m)

  pub map-contains :
      (k : String) (l : List A) → contains k (map key l) ≡ true → (a : A) × In a l × (key a ≡ k)
  map-contains k [] m = unfold contains in cc
  map-contains k (x ∷ l) m = elim (contains-cons_cases k (key x) (map key l) m) [
    | inl e ↦ (x, inl refl, sym e)
    | inr m' ↦ let (a, at, e) = map-contains k l m' in (a, inr at, e)
  ]

  head_apart :
      (x a : A) (l : List A) → contains (key x) (map key l) ≡ false → In a l → key x ≡ key a → ⊥
  head_apart x a l absent m e = true-ne-false (contains-map a l m) (rw e at absent)

  -- Distinct keys tell the items apart.
  pub nodup-injective :
      (l : List A) (a b : A) → nodup (map key l) ≡ true → In a l → In b l → key a ≡ key b → a ≡ b
  unfolding nodup
  nodup-injective [] a b d m n e = absurd m
  nodup-injective (x ∷ l) a b d m n e =
      let (absent, rest) = parts (contains (key x) (map key l)) (nodup (map key l)) d in
      elim m [
        | inl here ↦ elim n [
          | inl there ↦ here ∙ sym there
          | inr n' ↦ absurd (head_apart x b l absent n' (sym (ap key here) ∙ e))
        ]
        | inr m' ↦ elim n [
          | inl there ↦ absurd (head_apart x a l absent m' (sym (e ∙ ap key there)))
          | inr n' ↦ nodup-injective l a b rest m' n' e
        ]
      ]
    where
      parts : (p q : Bool) → (not p && q) ≡ true → (p ≡ false) × (q ≡ true)
      parts p q h = ground arith

-- The keys of `dependency_entries`.
abbrev pub waiting_id : Waiting → String
waiting_id w = w.ticket.id

pub entry_of-cases :
    (ws : List Waiting) (k : String)
    → ((entry_of ws k ≡ none) × (contains k (map waiting_id ws) ≡ false))
      ⊎ ((w : Waiting) × (entry_of ws k ≡ some w) × In w ws × (w.ticket.id ≡ k))
unfolding entry_of contains
entry_of-cases [] k = inl (refl, refl)
entry_of-cases (w ∷ ws) k = elim (entry_of-cases ws k) [
  | inr (x, e, m, s) ↦ inr (x, rw (entry_of, e) refl, inr m, s)
  | inl (e, absent) ↦ elim (Bool-cases (str_eq w.ticket.id k)) [
    | inl same ↦ inr (w, rw (entry_of, e, same) refl, inl refl, (eq_iff w.ticket.id k).0 same)
    | inr other ↦ inl (rw (entry_of, e, other) refl, missing other absent)
  ]
]
  where
    missing :
        str_eq w.ticket.id k ≡ false
        → contains k (map waiting_id ws) ≡ false
        → (str_eq k w.ticket.id || contains k (map waiting_id ws)) ≡ false
    missing h absent = ground (arith, eq_iff k w.ticket.id, eq_iff w.ticket.id k)

-- Where its dependencies are known, the blockers of a ticket are there.
blockers_returns :
    (index : List Ticket) (ds : List String)
    → subset ds (ids index) ≡ true
    → (l : List Dependency) × (blockers index ds ≡ some l)
unfolding blockers subset
blockers_returns index [] h = ([], refl)
blockers_returns index (d ∷ ds) h =
    let (l, e) = blockers_returns index ds (ground arith) in
    let (t, found) = known-by_id index d (ground arith) in
    (
      if is_done t.state then l else record { id = d; state = state_text t.state } ∷ l,
      rw (blockers, found, e) refl,
    )

pub all_waiting_returns :
    (index ts : List Ticket)
    → AllKnown index ts
    → (ws : List Waiting) × (all_waiting index ts ≡ some ws) × (map waiting_id ws ≡ ids ts)
unfolding all_waiting waiting_for
all_waiting_returns index [] known = ([], refl, refl)
all_waiting_returns index (t ∷ ts) known =
    let (ws, e, same) = all_waiting_returns index ts (λ u m. known u (inr m)) in
    let (l, found) =
      blockers_returns index (sort str_leb t.depends_on) (sorted_known t (known t (inl refl))) in
    let w : Waiting = record { ticket = t; blockers = l } in
    (w ∷ ws, rw (all_waiting, waiting_for, found, e) refl, ap (λ l. t.id ∷ l) same)
  where
    sorted_known :
        (t : Ticket)
        → subset t.depends_on (ids index) ≡ true
        → subset (sort str_leb t.depends_on) (ids index) ≡ true
    sorted_known t h = sort-subset str_leb t.depends_on (ids index) h
