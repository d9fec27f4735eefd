-- ===== src/Tickets/Graph/Steps.antt =====
-- One level of `visit`, by the branch that it takes.
use devlegate.Prelude.{ℕ, suc, ◌≡◌, String, true, false, List, [], ◌∷◌, ◌++◌, contains}
use devlegate.Tickets.Defs.{Ticket}
use devlegate.Tickets.Graph.{
  Outcome, ok, cycle, ◌>>=◌, Dfs, from_index, enter, leave, sorted_deps, visit_all, visit,
}

module _ (ts : List Ticket) (fuel : ℕ) (k : String) (s : Dfs) where
  abbrev pub finish : List String → Outcome Dfs
  finish ds = visit_all (visit ts fuel) ds (enter k s) >>= λ s'. ok (leave k s')

  pub visit-seen : contains k s.visited ≡ true → visit ts (suc fuel) k s ≡ ok s
  unfolding visit
  visit-seen h = rw h

  pub visit-open :
      contains k s.visited ≡ false
      → contains k s.visiting ≡ true
      → visit ts (suc fuel) k s ≡ cycle (from_index k s.stack ++ k ∷ [])
  unfolding visit
  visit-open h o = rw (h, o)

  pub visit-new :
      contains k s.visited ≡ false
      → contains k s.visiting ≡ false
      → visit ts (suc fuel) k s ≡ (sorted_deps ts k >>= finish)
  unfolding visit
  visit-new h o = rw (h, o)
