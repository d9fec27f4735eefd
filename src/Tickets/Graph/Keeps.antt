-- ===== src/Tickets/Graph/Keeps.antt =====
-- What a call of `visit` that returns leaves behind: the stack as it was, and a larger set of
-- visited tickets, in which every ticket comes with its dependencies.
use devlegate.Prelude.{
  ℕ, zero, suc, ◌≡◌, refl, sym, ap, ◌∙◌, String, true, List, [], ◌∷◌, ◌++◌, some, inl, inr, arith,
  Bool-cases, str_leb, contains, subset, sort, contains-cons_self, contains-cons_tail, subset-sort,
  erase-cons_self,
}
use devlegate.Tickets.Defs.{Ticket, deps_of}
use devlegate.Tickets.Graph.Steps.{finish, visit-seen, visit-open, visit-new}
use devlegate.Tickets.Graph.{
  Outcome, ok, cycle, key_error, exhausted, ◌>>=◌, Dfs, pop, enter, leave, sorted_deps, visit_all,
  visit,
}

pub outcome_inversion :
    {A C : Type 0} (m : Outcome A) (k : A → Outcome C) {c : C}
    → (m >>= k) ≡ ok c
    → (a : A) × (m ≡ ok a) × (k a ≡ ok c)
outcome_inversion exhausted k e = cc
outcome_inversion key_error k e = cc
outcome_inversion (cycle l) k e = cc
outcome_inversion (ok a) k e = (a, refl, e)

pub ok-injective {ℓ} : {A : Type ℓ} {a b : A} → ok a ≡ ok b → a ≡ b
ok-injective h = cc

contains-leave : (k : String) (t : Dfs) → contains k (leave k t).visited ≡ true
unfolding leave
contains-leave k t = contains-cons_self k t.visited

-- Each visited ticket stands before all of its dependencies.
abbrev pub IsTopological : List Ticket → List String → Type 0
IsTopological ts [] = Unit
IsTopological ts (x ∷ v) =
    (ds : List String) × (deps_of ts x ≡ some ds) × (subset ds v ≡ true) × IsTopological ts v

pub record Keeps (ts : List Ticket) (s s' : Dfs) : Type 0 where
  pub visiting : s'.visiting ≡ s.visiting
  pub stack : s'.stack ≡ s.stack
  pub grows : (k : String) → contains k s.visited ≡ true → contains k s'.visited ≡ true
  pub topological : IsTopological ts s.visited → IsTopological ts s'.visited

Keeps-refl : (ts : List Ticket) (s : Dfs) → Keeps ts s s
Keeps-refl ts s = record { visiting = refl; stack = refl; grows = λ k h. h; topological = λ t. t }

Keeps-trans : {ts : List Ticket} {s t u : Dfs} → Keeps ts s t → Keeps ts t u → Keeps ts s u
Keeps-trans a b = record {
  visiting = b.visiting ∙ a.visiting;
  stack = b.stack ∙ a.stack;
  grows = λ k h. b.grows k (a.grows k h);
  topological = λ t. b.topological (a.topological t);
}

pub pop-append : (xs : List String) (x : String) → pop (xs ++ x ∷ []) ≡ xs
unfolding pop
pop-append [] x = refl
pop-append (y ∷ []) x = refl
pop-append (y ∷ z ∷ l) x = ap (λ r. y ∷ r) (pop-append (z ∷ l) x)

pub sorted_deps-eq-ok :
    (ts : List Ticket) (k : String) {ds : List String}
    → sorted_deps ts k ≡ ok ds
    → (raw : List String) × (deps_of ts k ≡ some raw) × (ds ≡ sort str_leb raw)
unfolding sorted_deps
sorted_deps-eq-ok ts k h = ground arith

-- A call that returns keeps the state and marks its ticket.
abbrev pub Good : List Ticket → (String → Dfs → Outcome Dfs) → Type 0
Good ts go =
    (k : String) (s s' : Dfs) → go k s ≡ ok s' → Keeps ts s s' × (contains k s'.visited ≡ true)

module _ (ts : List Ticket) where
  pub visit_all-Keeps :
      (go : String → Dfs → Outcome Dfs) (ds : List String) (s s' : Dfs)
      → Good ts go
      → visit_all go ds s ≡ ok s'
      → Keeps ts s s' × (subset ds s'.visited ≡ true)
  unfolding visit_all subset
  visit_all-Keeps go [] s s' good h = rw (ok-injective h) (Keeps-refl ts s', refl)
  visit_all-Keeps go (d ∷ ds) s s' good h =
      let (t, first, rest) = outcome_inversion (go d s) (visit_all go ds) h in
      let (kept, marked) = good d s t first in
      let (kept', all) = visit_all-Keeps go ds t s' good rest in
      (Keeps-trans kept kept', rw (kept'.grows d marked) all)

  leave-Keeps :
      (k : String) (s t : Dfs) (raw : List String)
      → deps_of ts k ≡ some raw
      → Keeps ts (enter k s) t
      → subset (sort str_leb raw) t.visited ≡ true
      → Keeps ts s (leave k t)
  unfolding leave
  leave-Keeps k s t raw known kept all = record {
    visiting = rw kept.visiting (erase-cons_self k s.visiting);
    stack = rw kept.stack (pop-append s.stack k);
    grows = λ j h. contains-cons_tail j k t.visited (kept.grows j h);
    topological = λ top. (raw, known, subset-sort str_leb raw t.visited all, kept.topological top);
  }

  pub visit-Keeps : (fuel : ℕ) → Good ts (visit ts fuel)
  visit-Keeps zero k s s' h = unfold visit in cc
  visit-Keeps (suc fuel) k s s' h = elim (Bool-cases (contains k s.visited)) [
    | inl seen ↦ rw (← ok-injective (sym (visit-seen ts fuel k s seen) ∙ h)) (Keeps-refl ts s, seen)
    | inr unseen ↦ elim (Bool-cases (contains k s.visiting)) [
      | inl opened ↦ cc (visit-open ts fuel k s unseen opened)
      | inr unopened ↦
          let (ds, found, ran) =
            outcome_inversion (sorted_deps ts k) (finish ts fuel k s)
              (sym (visit-new ts fuel k s unseen unopened) ∙ h) in
          let (t, all, left) =
            outcome_inversion (visit_all (visit ts fuel) ds (enter k s)) (λ u. ok (leave k u))
              ran in
          let (raw, known, sorted) = sorted_deps-eq-ok ts k found in
          let (kept, marked) =
            visit_all-Keeps (visit ts fuel) ds (enter k s) t (visit-Keeps fuel) all in
          rw (← ok-injective left)
            (leave-Keeps k s t raw known kept (rw sorted at marked), contains-leave k t)
    ]
  ]
