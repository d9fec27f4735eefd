-- ===== src/Prelude/Results.antt =====
-- A Python call that may raise: the exception, or the value that it returns.
use mathlib.Core.Path.{◌≡◌, refl}
use mathlib.Core.Logic.{◌⊎◌, inl, inr}
use mathlib.Core.Bool.{Bool, true, false}
use mathlib.Core.Option.{Option, none, some}

pub data Result (E A : Type 0) : Type 0 where
  err : E → Result E A
  ok : A → Result E A

-- `if not test: raise e`
abbrev pub require : {E : Type 0} → Bool → E → Result E (Unit {0})
require b e = elim b [ true ↦ ok tt | false ↦ err e ]

-- A value that must be there.
abbrev pub expect : {E A : Type 0} → Option A → E → Result E A
expect o e = elim o [ none ↦ err e | some a ↦ ok a ]

module _ {E A B : Type 0} where
  -- An exception skips what follows.
  infixl 5 ◌>>=◌
  abbrev pub ◌>>=◌ : Result E A → (A → Result E B) → Result E B
  ◌>>=◌ m k = elim m [ err e ↦ err e | ok a ↦ k a ]

module _ {E B : Type 0} where
  infixl 5 ◌>>◌
  abbrev pub ◌>>◌ : Result E (Unit {0}) → Result E B → Result E B
  ◌>>◌ m n = elim m [ err e ↦ err e | ok u ↦ n ]

  pub require-eq-ok :
      (t : Bool) (e : E) (k : Result E B) {b : B}
      → (require t e >> k) ≡ ok b
      → (t ≡ true) × (k ≡ ok b)
  require-eq-ok false e k h = cc
  require-eq-ok true e k h = (refl, h)

  -- What ran in front of a block that returned.
  pub seq_inversion :
      (m : Result E (Unit {0})) (k : Result E B) {b : B}
      → (m >> k) ≡ ok b
      → (m ≡ ok tt) × (k ≡ ok b)
  seq_inversion (err e) k h = cc
  seq_inversion (ok u) k h = (refl, h)

  pub ok-injective : {a b : B} → ◌≡◌ {A = Result E B} (ok a) (ok b) → a ≡ b
  ok-injective h = cc

module _ {E A B : Type 0} where
  pub expect-eq-ok :
      (o : Option A) (e : E) (f : A → Result E B) {b : B}
      → (expect o e >>= f) ≡ ok b
      → (a : A) × (o ≡ some a) × (f a ≡ ok b)
  expect-eq-ok none e f h = cc
  expect-eq-ok (some a) e f h = (a, refl, h)

  -- What a block that returned has run.
  pub bind_inversion :
      (m : Result E A) (k : A → Result E B) {b : B}
      → (m >>= k) ≡ ok b
      → (a : A) × (m ≡ ok a) × (k a ≡ ok b)
  bind_inversion (err e) k h = cc
  bind_inversion (ok a) k h = (a, refl, h)

pub Result-cases :
    {E A : Type 0} (m : Result E A) → ((e : E) × (m ≡ err e)) ⊎ ((a : A) × (m ≡ ok a))
Result-cases (err e) = inl (e, refl)
Result-cases (ok a) = inr (a, refl)

module _ {E A : Type 0} where
  pub err-ne-ok : {e : E} {a : A} → ◌≡◌ {A = Result E A} (err e) (ok a) → ⊥
  err-ne-ok h = cc

  pub ok-ne-err : {e : E} {a : A} → ◌≡◌ {A = Result E A} (ok a) (err e) → ⊥
  ok-ne-err h = cc
