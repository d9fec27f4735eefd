-- ===== src/Prelude/SetLaws.antt =====
-- Laws of sets of texts.
use Prim.Native.String.{String}
use mathlib.Core.Path.{◌≡◌, refl}
use mathlib.Core.Logic.{◌⊎◌}
use mathlib.Core.Bool.{Bool, true, ◌||◌}
use mathlib.Core.List.{List, [], ◌∷◌, ◌++◌}
use native.Mathlib.Omega.{arith}
use text.Mathlib.Text.{◌==◌ as str_eq}
use text.Mathlib.TextEquality.{eq_iff}
use text.Mathlib.TextPositions.{eq_refl}
use devlegate.Prelude.Sets.{contains, subset, erase, insert_sorted, sort}

pub contains-append :
    (k : String) (xs ys : List String) → contains k (xs ++ ys) ≡ (contains k xs || contains k ys)
unfolding contains
contains-append k [] ys = refl
contains-append k (x ∷ xs) ys = ground (arith, contains-append k xs ys)

pub contains-cons_self : (k : String) (xs : List String) → contains k (k ∷ xs) ≡ true
unfolding contains
contains-cons_self k xs = rw (eq_refl k)

pub contains-cons_tail :
    (k x : String) (xs : List String) → contains k xs ≡ true → contains k (x ∷ xs) ≡ true
unfolding contains
contains-cons_tail k x xs h = ground arith

pub contains-insert_sorted :
    (le : String → String → Bool) (k a : String) (xs : List String)
    → contains k (insert_sorted le a xs) ≡ (str_eq k a || contains k xs)
unfolding contains insert_sorted
contains-insert_sorted le k a [] = refl
contains-insert_sorted le k a (x ∷ xs) = ground (arith, contains-insert_sorted le k a xs)

pub contains-sort :
    (le : String → String → Bool) (k : String) (xs : List String)
    → contains k (sort le xs) ≡ contains k xs
unfolding contains sort
contains-sort le k [] = refl
contains-sort le k (x ∷ xs) =
    ground (arith, contains-insert_sorted le k x (sort le xs), contains-sort le k xs)

pub contains-subset :
    (k : String) (xs ys : List String)
    → subset xs ys ≡ true
    → contains k xs ≡ true
    → contains k ys ≡ true
unfolding contains subset
contains-subset k [] ys s h = ground arith
contains-subset k (x ∷ xs) ys s h = ground (arith, eq_iff k x, contains-subset k xs ys)

pub subset_intro :
    (xs ys : List String)
    → ((k : String) → contains k xs ≡ true → contains k ys ≡ true)
    → subset xs ys ≡ true
unfolding subset contains
subset_intro [] ys h = refl
subset_intro (x ∷ xs) ys h = ground (
  arith,
  h x (contains-cons_self x xs),
  subset_intro xs ys (λ k m. h k (contains-cons_tail k x xs m)),
)

pub erase-cons_self : (k : String) (xs : List String) → erase k (k ∷ xs) ≡ xs
unfolding erase
erase-cons_self k xs = rw (eq_refl k)

pub subset-sort :
    (le : String → String → Bool) (xs ys : List String)
    → subset (sort le xs) ys ≡ true
    → subset xs ys ≡ true
subset-sort le xs ys h =
    subset_intro xs ys (λ k m. contains-subset k (sort le xs) ys h (rw contains-sort m))

pub sort-subset :
    (le : String → String → Bool) (xs ys : List String)
    → subset xs ys ≡ true
    → subset (sort le xs) ys ≡ true
sort-subset le xs ys h =
    subset_intro (sort le xs) ys (λ k m. contains-subset k xs ys h (rw contains-sort at m))

pub contains-cons_cases :
    (k x : String) (xs : List String)
    → contains k (x ∷ xs) ≡ true
    → (k ≡ x) ⊎ (contains k xs ≡ true)
unfolding contains
contains-cons_cases k x xs h = ground (arith, eq_iff k x)
