-- ===== src/Tickets/Graph/Trails.antt =====
-- A reported cycle is a cycle: the stack is always a trail of dependencies.
use mathlib.Core.Path.{subst}
use devlegate.Prelude.{
  ℕ, zero, suc, ◌≡◌, refl, sym, ◌∙◌, String, true, List, [], ◌∷◌, ◌++◌, some, inl, inr, ◌⊎◌, arith,
  eq_iff, str_eq, Bool-cases, str_leb, contains, sort, contains-sort, contains-append,
  contains-cons_self, contains-cons_tail,
}
use devlegate.Tickets.Defs.{Ticket, deps_of}
use devlegate.Tickets.Graph.Relation.{Depends, IsTrail, IsCycle}
use devlegate.Tickets.Graph.Steps.{finish, visit-seen, visit-open, visit-new}
use devlegate.Tickets.Graph.Keeps.{sorted_deps-eq-ok, visit-Keeps}
use devlegate.Tickets.Graph.{
  Outcome, ok, cycle, key_error, exhausted, ◌>>=◌, Dfs, start, from_index, enter, sorted_deps,
  visit_all, visit,
}

>>=-eq-cycle :
    {A C : Type 0} (m : Outcome A) (f : A → Outcome C) {c : List String}
    → (m >>= f) ≡ cycle c
    → (m ≡ cycle c) ⊎ ((a : A) × (m ≡ ok a) × (f a ≡ cycle c))
>>=-eq-cycle (ok a) f h = inr (a, refl, h)
>>=-eq-cycle (cycle d) f h = inl (cc)
>>=-eq-cycle key_error f h = cc
>>=-eq-cycle exhausted f h = cc

cycle-injective : {c d : List String} → ◌≡◌ {A = Outcome Dfs} (cycle c) (cycle d) → c ≡ d
cycle-injective h = cc

sorted_deps-ne-cycle :
    (ts : List Ticket) (k : String) {c : List String} → ¬ (sorted_deps ts k ≡ cycle c)
unfolding sorted_deps
sorted_deps-ne-cycle ts k h = ground arith

module _ (ts : List Ticket) where
  IsTrail-snoc :
      (xs : List String) (x y : String)
      → IsTrail ts (xs ++ x ∷ [])
      → Depends ts x y
      → IsTrail ts ((xs ++ x ∷ []) ++ y ∷ [])
  IsTrail-snoc [] x y t d = (d, tt)
  IsTrail-snoc (a ∷ []) x y t d = (t.0, (d, tt))
  IsTrail-snoc (a ∷ b ∷ l) x y t d = (t.0, IsTrail-snoc (b ∷ l) x y t.1 d)

  IsTrail-tail : (x : String) (l : List String) → IsTrail ts (x ∷ l) → IsTrail ts l
  IsTrail-tail x [] t = tt
  IsTrail-tail x (y ∷ l) t = t.1

  -- The part of the stack from a ticket on, closed by that ticket again.
  from_index-IsCycle :
      (k : String) (xs : List String)
      → contains k xs ≡ true
      → IsTrail ts (xs ++ k ∷ [])
      → IsCycle ts (from_index k xs ++ k ∷ [])
  unfolding contains from_index
  from_index-IsCycle k [] m t = cc
  from_index-IsCycle k (x ∷ xs) m t = elim (Bool-cases (str_eq k x)) [
    | inl e ↦ rw e (record { head = x; middle = xs; shape = ground (arith, eq_iff k x); trail = t })
    | inr n ↦ rw n (from_index-IsCycle k xs (rw n at m) (IsTrail-tail x (xs ++ k ∷ []) t))
  ]

  -- What holds when `visit` is called for a ticket.
  record IsOpen (k : String) (s : Dfs) : Type 0 where
    on_stack : (j : String) → contains j s.visiting ≡ true → contains j s.stack ≡ true
    trail : IsTrail ts (s.stack ++ k ∷ [])

  enter-on_stack :
      (k j : String) (s : Dfs)
      → ((i : String) → contains i s.visiting ≡ true → contains i s.stack ≡ true)
      → contains j (k ∷ s.visiting) ≡ true
      → contains j (s.stack ++ k ∷ []) ≡ true
  unfolding contains
  enter-on_stack k j s h m = ground (arith, h j, contains-append j s.stack (k ∷ []))

  enter-IsOpen : (k d : String) (s : Dfs) → IsOpen k s → Depends ts k d → IsOpen d (enter k s)
  enter-IsOpen k d s o dep = record {
    on_stack = λ j m. enter-on_stack k j s o.on_stack m;
    trail = IsTrail-snoc s.stack k d o.trail dep;
  }

  keeps-IsOpen :
      (d : String) (s t : Dfs)
      → t.visiting ≡ s.visiting
      → t.stack ≡ s.stack
      → IsOpen d s
      → IsOpen d t
  keeps-IsOpen d s t v k o = record {
    on_stack = λ j m. rw k (o.on_stack j (rw v at m));
    trail = rw k o.trail;
  }

  abbrev pub FindsCycles : Outcome Dfs → Type 0
  FindsCycles o = (c : List String) → o ≡ cycle c → IsCycle ts c

  visit_all-FindsCycles :
      (fuel : ℕ) (ds : List String) (s : Dfs)
      → ((d : String) → contains d ds ≡ true → IsOpen d s)
      → ((d : String) (t : Dfs) → IsOpen d t → FindsCycles (visit ts fuel d t))
      → FindsCycles (visit_all (visit ts fuel) ds s)
  unfolding visit_all
  visit_all-FindsCycles fuel [] s opens go c h = cc
  visit_all-FindsCycles fuel (d ∷ ds) s opens go c h =
      elim (>>=-eq-cycle (visit ts fuel d s) (visit_all (visit ts fuel) ds) h) [
        | inl here ↦ go d s (opens d (contains-cons_self d ds)) c here
        | inr (t, first, rest) ↦
            let (kept, _) = visit-Keeps ts fuel d s t first in
            visit_all-FindsCycles fuel ds t
              (λ e m.
                keeps-IsOpen e s t kept.visiting kept.stack (opens e (contains-cons_tail e d ds m)))
              go c rest
      ]

  finish-FindsCycles :
      (fuel : ℕ) (k : String) (s : Dfs) (raw : List String)
      → deps_of ts k ≡ some raw
      → IsOpen k s
      → ((d : String) (t : Dfs) → IsOpen d t → FindsCycles (visit ts fuel d t))
      → FindsCycles (finish ts fuel k s (sort str_leb raw))
  finish-FindsCycles fuel k s raw known o go c h =
      elim (>>=-eq-cycle (visit_all (visit ts fuel) (sort str_leb raw) (enter k s)) _ h) [
        | inl here ↦
            visit_all-FindsCycles fuel (sort str_leb raw) (enter k s)
              (λ d m. enter-IsOpen k d s o (raw, known, rw contains-sort at m)) go c here
        | inr (t, _, rest) ↦ cc
      ]

  visit-FindsCycles :
      (fuel : ℕ) (k : String) (s : Dfs) → IsOpen k s → FindsCycles (visit ts fuel k s)
  visit-FindsCycles zero k s o c h = unfold visit in cc
  visit-FindsCycles (suc fuel) k s o c h = elim (Bool-cases (contains k s.visited)) [
    | inl seen ↦ cc (visit-seen ts fuel k s seen)
    | inr unseen ↦ elim (Bool-cases (contains k s.visiting)) [
      | inl opened ↦
          subst (IsCycle ts) (cycle-injective (sym (visit-open ts fuel k s unseen opened) ∙ h))
            (from_index-IsCycle k s.stack (o.on_stack k opened) o.trail)
      | inr unopened ↦
          elim (>>=-eq-cycle (sorted_deps ts k) (finish ts fuel k s)
            (sym (visit-new ts fuel k s unseen unopened) ∙ h)) [
              | inl here ↦ absurd (sorted_deps-ne-cycle ts k here)
              | inr (ds, found, ran) ↦
                  let (raw, known, sorted) = sorted_deps-eq-ok ts k found in
                  finish-FindsCycles fuel k s raw known o (visit-FindsCycles fuel) c
                    (rw sorted at ran)
            ]
    ]
  ]

  pub search-FindsCycles :
      (fuel : ℕ) (ks : List String) → FindsCycles (visit_all (visit ts fuel) ks start)
  search-FindsCycles fuel ks =
      visit_all-FindsCycles fuel ks start (λ d m. record { on_stack = λ j n. n; trail = tt })
        (visit-FindsCycles fuel)
