-- ===== src/Tickets/Graph/Order.antt =====
-- A topological list of tickets has no cycle of dependencies.
use mathlib.Core.Path.{subst}
use devlegate.Prelude.{
  ◌≡◌, String, true, List, [], ◌∷◌, some, inl, inr, ◌⊎◌, arith, contains, subset,
  contains-cons_cases, contains-cons_tail, contains-subset,
}
use devlegate.Tickets.Defs.{Ticket, deps_of}
use devlegate.Tickets.Graph.Relation.{Depends, Chain, one, more}
use devlegate.Tickets.Graph.Keeps.{IsTopological}

module _ (ts : List Ticket) where
  Depends-in :
      (x y : String) (ds v : List String)
      → deps_of ts x ≡ some ds
      → subset ds v ≡ true
      → Depends ts x y
      → contains y v ≡ true
  Depends-in x y ds v known inside (raw, same, m) = contains-subset y raw v (ground (arith)) m

  -- What a visited ticket depends on was visited before it.
  closed_under :
      (v : List String)
      → IsTopological ts v
      → (x y : String) → contains x v ≡ true
      → Depends ts x y
      → contains y v ≡ true
  closed_under [] top x y m d = unfold contains in cc
  closed_under (z ∷ v) (ds, known, inside, top) x y m d = elim (contains-cons_cases x z v m) [
    | inl e ↦ contains-cons_tail y z v (Depends-in x y ds v (ground arith) inside d)
    | inr m' ↦ contains-cons_tail y z v (closed_under v top x y m' d)
  ]

  Chain-in :
      {x y : String} (v : List String)
      → IsTopological ts v
      → Chain ts x y
      → contains x v ≡ true
      → contains y v ≡ true
  Chain-in {x} {y} v top (one d) m = closed_under v top x y m d
  Chain-in {x} v top (more {y = z} d c) m = Chain-in v top c (closed_under v top x z m d)

  first : {x y : String} → Chain ts x y → (z : String) × Depends ts x z × ((z ≡ y) ⊎ Chain ts z y)
  first (one {y} d) = (y, d, inl (λ i. y))
  first (more {y} d c) = (y, d, inr c)

  Chain-below :
      (x y : String) (ds v : List String)
      → IsTopological ts v
      → deps_of ts x ≡ some ds
      → subset ds v ≡ true
      → Chain ts x y
      → contains y v ≡ true
  Chain-below x y ds v top known inside c =
      let (z, d, rest) = first c in
      let m = Depends-in x z ds v known inside d in
      elim rest [ inl e ↦ subst (λ q. contains q v ≡ true) e m | inr c' ↦ Chain-in v top c' m ]

  pub IsTopological-IsAcyclic :
      (v : List String) → IsTopological ts v → (x : String) → contains x v ≡ true → ¬ Chain ts x x
  IsTopological-IsAcyclic [] top x m c = unfold contains in cc
  IsTopological-IsAcyclic (z ∷ v) (ds, known, inside, top) x m c =
      elim (contains-cons_cases x z v m) [
        | inl e ↦
            IsTopological-IsAcyclic v top x (Chain-below x x ds v top (ground arith) inside c) c
        | inr m' ↦ IsTopological-IsAcyclic v top x m' c
      ]
