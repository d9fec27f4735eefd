-- ===== src/Prelude/Members.antt =====
-- Membership in a list, and what sorting keeps.
use Prim.Native.Nat.{ℕ}
use Prim.Native.String.{String}
use mathlib.Core.Path.{◌≡◌}
use mathlib.Core.Logic.{◌⊎◌, inl, inr}
use mathlib.Core.Bool.{Bool, true, false}
use mathlib.Core.List.{List, [], ◌∷◌}
use native.Mathlib.Omega.{arith}
use devlegate.Prelude.Tests.{Bool-cases}
use devlegate.Prelude.Sets.{insert_sorted, sort}
use devlegate.Prelude.Text.{codes, codes_leb, str_leb}

module _ {A : Type 0} where
  -- `a` stands in the list.
  abbrev pub In : A → List A → Type 0
  In a [] = ⊥
  In a (x ∷ xs) = (a ≡ x) ⊎ In a xs

  module _ (le : A → A → Bool) where
    pub In-insert_sorted :
        (a b : A) (xs : List A) → In b (insert_sorted le a xs) → (b ≡ a) ⊎ In b xs
    unfolding insert_sorted
    In-insert_sorted a b [] m = m
    In-insert_sorted a b (x ∷ xs) m = ground (arith, In-insert_sorted a b xs)

    pub insert_sorted-In :
        (a b : A) (xs : List A) → (b ≡ a) ⊎ In b xs → In b (insert_sorted le a xs)
    unfolding insert_sorted
    insert_sorted-In a b [] m = m
    insert_sorted-In a b (x ∷ xs) m = ground (arith, insert_sorted-In a b xs)

    pub In-sort : (b : A) (xs : List A) → In b (sort le xs) → In b xs
    unfolding sort
    In-sort b [] m = m
    In-sort b (x ∷ xs) m = elim (In-insert_sorted x b (sort le xs) m) [
      | inl e ↦ inl e
      | inr m' ↦ inr (In-sort b xs m')
    ]

    pub sort-In : (b : A) (xs : List A) → In b xs → In b (sort le xs)
    unfolding sort
    sort-In b [] m = m
    sort-In b (x ∷ xs) (inl e) = insert_sorted-In x b (sort le xs) (inl e)
    sort-In b (x ∷ xs) (inr m) = insert_sorted-In x b (sort le xs) (inr (sort-In b xs m))

    -- Each item is at most every later one.
    abbrev pub IsSorted : List A → Type 0
    IsSorted [] = Unit
    IsSorted (x ∷ xs) = ((b : A) → In b xs → le x b ≡ true) × IsSorted xs

    module _ (total : (a b : A) → (le a b ≡ true) ⊎ (le b a ≡ true))
        (trans : (a b c : A) → le a b ≡ true → le b c ≡ true → le a c ≡ true) where
      pub insert_sorted-IsSorted :
          (a : A) (xs : List A) → IsSorted xs → IsSorted (insert_sorted le a xs)
      unfolding insert_sorted
      insert_sorted-IsSorted a [] s = ((λ b m. absurd m), tt)
      insert_sorted-IsSorted a (x ∷ xs) s = elim (Bool-cases (le a x)) [
        | inl h ↦ rw h ((λ b m. least a x xs h s.0 b m), s)
        | inr h ↦ rw h (
          (λ b m. elim (In-insert_sorted a b xs m) [
            | inl e ↦ rw e (flip a x h)
            | inr m' ↦ s.0 b m'
          ]),
          insert_sorted-IsSorted a xs s.1,
        )
      ]
        where
          flip : (a x : A) → le a x ≡ false → le x a ≡ true
          flip a x h = elim (total a x) [ inl t ↦ cc | inr t ↦ t ]

          least :
              (a x : A) (xs : List A)
              → le a x ≡ true
              → ((b : A) → In b xs → le x b ≡ true)
              → (b : A) → (b ≡ x) ⊎ In b xs
              → le a b ≡ true
          least a x xs h all b (inl e) = rw e h
          least a x xs h all b (inr m) = trans a x b h (all b m)

      pub sort-IsSorted : (xs : List A) → IsSorted (sort le xs)
      unfolding sort
      sort-IsSorted [] = tt
      sort-IsSorted (x ∷ xs) = insert_sorted-IsSorted x (sort le xs) (sort-IsSorted xs)

codes_leb_total : (xs ys : List ℕ) → (codes_leb xs ys ≡ true) ⊎ (codes_leb ys xs ≡ true)
unfolding codes_leb
codes_leb_total [] ys = inl (λ i. true)
codes_leb_total (x ∷ xs) [] = inr (λ i. true)
codes_leb_total (x ∷ xs) (y ∷ ys) = ground (arith, codes_leb_total xs ys)

codes_leb_trans :
    (xs ys zs : List ℕ) → codes_leb xs ys ≡ true → codes_leb ys zs ≡ true → codes_leb xs zs ≡ true
unfolding codes_leb
codes_leb_trans [] ys zs h k = λ i. true
codes_leb_trans (x ∷ xs) [] zs h k = cc
codes_leb_trans (x ∷ xs) (y ∷ ys) [] h k = cc
codes_leb_trans (x ∷ xs) (y ∷ ys) (z ∷ zs) h k = ground (arith, codes_leb_trans xs ys zs)

pub str_leb_total : (a b : String) → (str_leb a b ≡ true) ⊎ (str_leb b a ≡ true)
unfolding str_leb
str_leb_total a b = codes_leb_total (codes a) (codes b)

pub str_leb_trans : (a b c : String) → str_leb a b ≡ true → str_leb b c ≡ true → str_leb a c ≡ true
unfolding str_leb
str_leb_trans a b c h k = codes_leb_trans (codes a) (codes b) (codes c) h k
