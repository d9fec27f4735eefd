-- ===== src/Prelude/Sets.antt =====
-- Sets of texts as lists, and Python's `sorted`.
use Prim.Native.String.{String}
use mathlib.Core.Bool.{Bool, true, false, not, ◌&&◌, ◌||◌}
use mathlib.Core.List.{List, [], ◌∷◌}
use text.Mathlib.Text.{◌==◌ as str_eq}
use devlegate.Prelude.Tests.{if◌then◌else◌}

-- `k in l`
unfoldable pub contains : String → List String → Bool
contains k [] = false
contains k (x ∷ xs) = str_eq k x || contains k xs

-- `set(l).issubset(m)`
unfoldable pub subset : List String → List String → Bool
unfolding contains
subset [] m = true
subset (x ∷ xs) m = contains x m && subset xs m

-- `set(l) == set(m)`
unfoldable pub same_set : List String → List String → Bool
unfolding subset
same_set l m = subset l m && subset m l

-- `len(set(l)) == len(l)`
unfoldable pub nodup : List String → Bool
unfolding contains
nodup [] = true
nodup (x ∷ xs) = not (contains x xs) && nodup xs

-- Removes the first occurrence.
unfoldable pub erase : String → List String → List String
erase k [] = []
erase k (x ∷ xs) = if str_eq k x then xs else x ∷ erase k xs

module _ {ℓ} {A : Type ℓ} (le : A → A → Bool) where
  unfoldable pub insert_sorted : A → List A → List A
  insert_sorted a [] = a ∷ []
  insert_sorted a (x ∷ xs) = if le a x then a ∷ x ∷ xs else x ∷ insert_sorted a xs

  -- `sorted(l)`, by insertion from the right: equal items keep their order.
  unfoldable pub sort : List A → List A
  unfolding insert_sorted
  sort [] = []
  sort (x ∷ xs) = insert_sorted x (sort xs)
