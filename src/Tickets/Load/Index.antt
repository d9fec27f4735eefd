-- ===== src/Tickets/Load/Index.antt =====
-- Where no two tickets share an ID, the index finds each ticket, and sorting the tickets leaves the
-- index as it is.
use mathlib.Core.Path.{subst}
use devlegate.Prelude.{
  ℕ, ◌+◌, ◌≤◌, if◌then◌else◌, ◌≡◌, refl, sym, ◌∙◌, String, true, false, not, ◌&&◌, ◌||◌, none, some,
  inl, inr, List, [], ◌∷◌, arith, eq_iff, eq_refl, str_eq, str_leb, contains, nodup, insert_sorted,
  sort, contains-insert_sorted, contains-sort, contains-cons_self, contains-cons_tail, In, In-sort,
  sort-In, Option-cases,
}
use devlegate.Tickets.Defs.{Ticket, by_id, ids, id_leb, deps_of}
use devlegate.Tickets.Store.{AllKnown, known-by_id}
use devlegate.Tickets.Graph.Relation.{Chain, one, more, IsAcyclic, IsClosed}
use devlegate.Tickets.Graph.Decides.{by_id-known}

-- How often a text stands in a list.
pub occurrences : String → List String → ℕ
occurrences k [] = 0
occurrences k (x ∷ xs) = (if str_eq k x then 1 else 0) + occurrences k xs

occurrences_pos : (k : String) (xs : List String) → contains k xs ≡ true → 1 ≤ occurrences k xs
unfolding occurrences contains
occurrences_pos k [] m = cc
occurrences_pos k (x ∷ xs) m = ground (arith, occurrences_pos k xs)

pub occurrences-cons_self :
    (k : String) (xs : List String) → contains k xs ≡ true → 2 ≤ occurrences k (k ∷ xs)
unfolding occurrences
occurrences-cons_self k xs m = ground (arith, eq_refl k, occurrences_pos k xs)

pub occurrences-cons_le :
    (k x : String) (xs : List String) → occurrences k xs ≤ occurrences k (x ∷ xs)
unfolding occurrences
occurrences-cons_le k x xs = omega arith

occurrences-insert_sorted :
    (k a : String) (xs : List String)
    → occurrences k (insert_sorted str_leb a xs) ≡ occurrences k (a ∷ xs)
unfolding occurrences insert_sorted
occurrences-insert_sorted k a [] = refl
occurrences-insert_sorted k a (x ∷ xs) = ground (arith, occurrences-insert_sorted k a xs)

pub occurrences-sort :
    (k : String) (xs : List String) → occurrences k (sort str_leb xs) ≡ occurrences k xs
unfolding occurrences sort
occurrences-sort k [] = refl
occurrences-sort k (x ∷ xs) =
    ground (arith, occurrences-insert_sorted k x (sort str_leb xs), occurrences-sort k xs)

nodup-insert_sorted :
    (a : String) (xs : List String)
    → nodup (insert_sorted str_leb a xs) ≡ (not (contains a xs) && nodup xs)
unfolding nodup insert_sorted contains
nodup-insert_sorted a [] = refl
nodup-insert_sorted a (x ∷ xs) =
    ground (
      arith,
      nodup-insert_sorted a xs,
      contains-insert_sorted str_leb x a xs,
      eq_iff a x,
      eq_iff x a,
    )

pub nodup-sort : (xs : List String) → nodup (sort str_leb xs) ≡ nodup xs
unfolding nodup sort
nodup-sort [] = refl
nodup-sort (x ∷ xs) =
    ground
      (arith, nodup-insert_sorted x (sort str_leb xs), contains-sort str_leb x xs, nodup-sort xs)

contains-ids-insert :
    (k : String) (t : Ticket) (ts : List Ticket)
    → contains k (ids (insert_sorted id_leb t ts)) ≡ (str_eq k t.id || contains k (ids ts))
unfolding contains insert_sorted
contains-ids-insert k t [] = refl
contains-ids-insert k t (u ∷ us) = ground (arith, contains-ids-insert k t us)

pub contains-ids-sort :
    (k : String) (ts : List Ticket) → contains k (ids (sort id_leb ts)) ≡ contains k (ids ts)
unfolding contains sort
contains-ids-sort k [] = refl
contains-ids-sort k (t ∷ ts) =
    ground (arith, contains-ids-insert k t (sort id_leb ts), contains-ids-sort k ts)

nodup-ids-insert :
    (t : Ticket) (ts : List Ticket)
    → nodup (ids (insert_sorted id_leb t ts)) ≡ (not (contains t.id (ids ts)) && nodup (ids ts))
unfolding nodup insert_sorted contains
nodup-ids-insert t [] = refl
nodup-ids-insert t (u ∷ us) = ground (
  arith,
  nodup-ids-insert t us,
  contains-ids-insert u.id t us,
  eq_iff t.id u.id,
  eq_iff u.id t.id,
)

pub nodup-ids-sort : (ts : List Ticket) → nodup (ids (sort id_leb ts)) ≡ nodup (ids ts)
unfolding nodup sort
nodup-ids-sort [] = refl
nodup-ids-sort (t ∷ ts) =
    ground
      (arith, nodup-ids-insert t (sort id_leb ts), contains-ids-sort t.id ts, nodup-ids-sort ts)

pub by_id-In :
    (ts : List Ticket) (k : String) (t : Ticket) → by_id ts k ≡ some t → In t ts × (t.id ≡ k)
unfolding by_id
by_id-In [] k t h = cc
by_id-In (u ∷ us) k t h = elim (Option-cases (by_id us k)) [
  | inl absent ↦ (inl (ground (arith, eq_iff u.id k)), ground (arith, eq_iff u.id k))
  | inr (v, there) ↦
      let same : v ≡ t = ground arith in
      let found = subst (λ q. In q us × (q.id ≡ k)) same (by_id-In us k v there) in
      (inr found.0, found.1)
]

not-known-none : (ts : List Ticket) (k : String) → contains k (ids ts) ≡ false → by_id ts k ≡ none
not-known-none ts k h = elim (Option-cases (by_id ts k)) [
  | inl absent ↦ absent
  | inr (t, there) ↦ absurd (ground (arith, by_id-known ts k t there))
]

In-ids : (t : Ticket) (ts : List Ticket) → In t ts → contains t.id (ids ts) ≡ true
In-ids t [] m = absurd m
In-ids t (u ∷ us) (inl e) = rw e (contains-cons_self u.id (ids us))
In-ids t (u ∷ us) (inr m) = contains-cons_tail t.id u.id (ids us) (In-ids t us m)

pub In-by_id :
    (ts : List Ticket) (t : Ticket) → nodup (ids ts) ≡ true → In t ts → by_id ts t.id ≡ some t
In-by_id [] t d m = absurd m
In-by_id (u ∷ us) t d (inl e) =
    rw e (head_by_id u us (not-known-none us u.id (unfold nodup in ground arith)))
  where
    head_by_id :
        (u : Ticket) (us : List Ticket) → by_id us u.id ≡ none → by_id (u ∷ us) u.id ≡ some u
    head_by_id u us h = unfold by_id in ground (arith, h, eq_refl u.id)
In-by_id (u ∷ us) t d (inr m) =
    tail_by_id u us t.id t (In-by_id us t (unfold nodup in ground arith) m)
  where
    tail_by_id :
        (u : Ticket) (us : List Ticket) (k : String) (t : Ticket)
        → by_id us k ≡ some t
        → by_id (u ∷ us) k ≡ some t
    tail_by_id u us k t h = unfold by_id in ground (arith, h)

pub by_id-sort :
    (ts : List Ticket) (k : String) → nodup (ids ts) ≡ true → by_id (sort id_leb ts) k ≡ by_id ts k
by_id-sort ts k d = elim (Option-cases (by_id ts k)) [
  | inl absent ↦ elim (Option-cases (by_id (sort id_leb ts) k)) [
    | inl absent' ↦ absent' ∙ sym absent
    | inr (t, there) ↦
        let (m, e) = by_id-In (sort id_leb ts) k t there in
        absurd (ground (arith, absent, In-ids t ts (In-sort id_leb t ts m), e, known-by_id ts t.id))
  ]
  | inr (t, there) ↦
      let (m, e) = by_id-In ts k t there in
      subst (λ q. by_id (sort id_leb ts) q ≡ some t) e
        (In-by_id (sort id_leb ts) t (rw nodup-ids-sort d) (sort-In id_leb t ts m))
      ∙ sym there
]

pub deps_of-sort :
    (ts : List Ticket) (k : String)
    → nodup (ids ts) ≡ true
    → deps_of (sort id_leb ts) k ≡ deps_of ts k
unfolding deps_of
deps_of-sort ts k d = ground (arith, by_id-sort ts k d)

Chain-sort :
    (ts : List Ticket) {x y : String}
    → nodup (ids ts) ≡ true
    → Chain (sort id_leb ts) x y
    → Chain ts x y
Chain-sort ts {x} d (one (ds, e, m)) = one (ds, sym (deps_of-sort ts x d) ∙ e, m)
Chain-sort ts {x} d (more (ds, e, m) c) =
    more (ds, sym (deps_of-sort ts x d) ∙ e, m) (Chain-sort ts d c)

pub IsAcyclic-sort :
    (ts : List Ticket) → nodup (ids ts) ≡ true → IsAcyclic ts → IsAcyclic (sort id_leb ts)
IsAcyclic-sort ts d a x c = a x (Chain-sort ts d c)

pub AllKnown-IsClosed : (ts : List Ticket) → AllKnown ts ts → IsClosed ts
AllKnown-IsClosed ts known = record {
  known = λ k m.
      let (t, e) = known-by_id ts k m in
      (t.depends_on, (unfold deps_of in ground (arith, e)), known t (by_id-In ts k t e).0);
}
