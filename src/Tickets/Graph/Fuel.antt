-- ===== src/Tickets/Graph/Fuel.antt =====
-- One level of fuel for each ticket is enough, and no ticket is missing from a closed graph.
use devlegate.Prelude.{
  ℕ, zero, suc, ◌+◌, ◌≤◌, ◌<◌, ◌≡◌, String, true, false, List, [], ◌∷◌, some, inl, inr, arith,
  eq_iff, Bool-cases, if◌then◌else◌, str_leb, length, contains, subset, sort, sort-subset,
  subset_intro,
}
use devlegate.Tickets.Defs.{Ticket, ids, deps_of}
use devlegate.Tickets.Graph.Relation.{IsClosed}
use devlegate.Tickets.Graph.Steps.{visit-seen, visit-open, visit-new}
use devlegate.Tickets.Graph.Keeps.{visit-Keeps}
use devlegate.Tickets.Graph.{
  Outcome, ok, cycle, key_error, exhausted, ◌>>=◌, Dfs, start, enter, leave, sorted_deps, visit_all,
  visit,
}

-- How many of the keys are not being visited.
remaining : List String → List String → ℕ
remaining [] v = 0
remaining (k ∷ ks) v = (if contains k v then 0 else 1) + remaining ks v

remaining-le_length : (ks v : List String) → remaining ks v ≤ length ks
unfolding remaining
remaining-le_length [] v = omega arith
remaining-le_length (k ∷ ks) v = ground (arith, remaining-le_length ks v)

remaining-cons_le : (ks v : List String) (x : String) → remaining ks (x ∷ v) ≤ remaining ks v
unfolding remaining contains
remaining-cons_le [] v x = omega arith
remaining-cons_le (k ∷ ks) v x = ground (arith, remaining-cons_le ks v x)

remaining-cons_lt :
    (ks v : List String) (x : String)
    → contains x ks ≡ true
    → contains x v ≡ false
    → remaining ks (x ∷ v) < remaining ks v
unfolding remaining contains
remaining-cons_lt [] v x m n = cc
remaining-cons_lt (k ∷ ks) v x m n =
    ground (arith, eq_iff x k, eq_iff k x, remaining-cons_le ks v x, remaining-cons_lt ks v x)

sorted_deps-known :
    (ts : List Ticket) (k : String) (raw : List String)
    → deps_of ts k ≡ some raw
    → sorted_deps ts k ≡ ok (sort str_leb raw)
unfolding sorted_deps
sorted_deps-known ts k raw known = rw (known, sorted_deps)

-- The outcome is a returned state or a cycle.
pub data Ends : Outcome Dfs → Type 0 where
  returns : (s : Dfs) → Ends (ok s)
  finds : (c : List String) → Ends (cycle c)

Ends-bind :
    (m : Outcome Dfs) (f : Dfs → Outcome Dfs)
    → Ends m
    → ((s : Dfs) → m ≡ ok s → Ends (f s))
    → Ends (m >>= f)
Ends-bind (ok s) f e h = h s (λ i. ok s)
Ends-bind (cycle c) f e h = finds c
Ends-bind key_error f e h = elim e [ ]
Ends-bind exhausted f e h = elim e [ ]

module _ (ts : List Ticket) (closed : IsClosed ts) where
  visit_all-Ends :
      (fuel : ℕ) (ds : List String) (s : Dfs)
      → subset ds (ids ts) ≡ true
      → remaining (ids ts) s.visiting < fuel
      → ((k : String) (t : Dfs)
          → contains k (ids ts) ≡ true
          → remaining (ids ts) t.visiting < fuel
          → Ends (visit ts fuel k t))
      → Ends (visit_all (visit ts fuel) ds s)
  unfolding visit_all subset
  visit_all-Ends fuel [] s inside enough go = returns s
  visit_all-Ends fuel (d ∷ ds) s inside enough go =
      Ends-bind (visit ts fuel d s) (visit_all (visit ts fuel) ds) (go d s (ground arith) enough)
        (λ t e.
          let (kept, _) = visit-Keeps ts fuel d s t e in
          visit_all-Ends fuel ds t (ground arith) (rw kept.visiting enough) go)

  visit-Ends :
      (fuel : ℕ) (k : String) (s : Dfs)
      → contains k (ids ts) ≡ true
      → remaining (ids ts) s.visiting < fuel
      → Ends (visit ts fuel k s)
  visit-Ends zero k s m enough = elim enough [ ]
  visit-Ends (suc fuel) k s m enough = elim (Bool-cases (contains k s.visited)) [
    | inl seen ↦ rw (visit-seen ts fuel k s seen) (returns s)
    | inr unseen ↦ elim (Bool-cases (contains k s.visiting)) [
      | inl opened ↦ rw (visit-open ts fuel k s unseen opened) (finds _)
      | inr unopened ↦
          let (raw, known, inside) = closed.known k m in
          rw (visit-new ts fuel k s unseen unopened, sorted_deps-known ts k raw known)
            (Ends-bind (visit_all (visit ts fuel) (sort str_leb raw) (enter k s)) _
              (visit_all-Ends fuel (sort str_leb raw) (enter k s)
                (sort-subset str_leb raw (ids ts) inside)
                (omega (arith, remaining-cons_lt (ids ts) s.visiting k m unopened))
                (visit-Ends fuel))
              (λ t _. returns (leave k t)))
    ]
  ]

  pub search-Ends :
      Ends (visit_all (visit ts (suc (length (ids ts)))) (sort str_leb (ids ts)) start)
  search-Ends =
      visit_all-Ends (suc (length (ids ts))) (sort str_leb (ids ts)) start
        (sort-subset str_leb (ids ts) (ids ts) (subset_intro (ids ts) (ids ts) (λ k m. m)))
        (omega (arith, remaining-le_length (ids ts) [])) (visit-Ends (suc (length (ids ts))))
