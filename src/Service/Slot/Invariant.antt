-- ===== src/Service/Slot/Invariant.antt =====
-- The invariant of the slot, and that a submission keeps it.
use mathlib.Core.Path.{subst}
use devlegate.Prelude.{
  ℕ, suc, ltb, ◌≡◌, ◌⊎◌, inl, inr, refl, sym, String, Bool, true, false, not, ◌&&◌, Option, none,
  some, List, [], ◌∷◌, arith, Result, ok, err, str_eq, if◌then◌else◌, is_some,
}
use devlegate.Service.Commands.{Request, Command}
use devlegate.Service.Receipts.{Receipt, mutable_receipt}
use devlegate.Service.Slot.{
  Slot, Submitted, existing, new_command, submit_beside, submit_reading, submit, has_serial,
}

abbrev pub all_below : ℕ → List ℕ → Bool
all_below n [] = true
all_below n (m ∷ ms) = ltb m n && all_below n ms

abbrev pub distinct : List ℕ → Bool
distinct [] = true
distinct (m ∷ ms) = not (has_serial m ms) && distinct ms

-- A command that is pending was not taken before.
abbrev pub IsFresh : List ℕ → ℕ → Option Command → Type 0
IsFresh l next none = Unit
IsFresh l next (some c) = (ltb c.serial next ≡ true) × (has_serial c.serial l ≡ false)

-- The owner works for a command exactly while it holds one, and never while the scheduler runs; no
-- command was taken twice, and the pending one not at all.
pub record IsSound (l : List ℕ) (s : Slot) : Type 0 where
  pub held : s.active ≡ is_some s.active_command
  pub exclusive : (s.active && s.scheduler_active) ≡ false
  pub fresh : IsFresh l s.next s.pending
  pub issued : all_below s.next l ≡ true
  pub once : distinct l ≡ true

pub all_below-suc : (n : ℕ) (l : List ℕ) → all_below n l ≡ true → all_below (suc n) l ≡ true
all_below-suc n [] h = refl
all_below-suc n (m ∷ ms) h = ground (arith, all_below-suc n ms)

pub all_below-has_serial : (n : ℕ) (l : List ℕ) → all_below n l ≡ true → has_serial n l ≡ false
all_below-has_serial n [] h = refl
all_below-has_serial n (m ∷ ms) h = ground (arith, all_below-has_serial n ms)

abbrev opened : Request → Slot → Slot
opened r s = record s { pending = some (new_command r s.next); next = suc s.next }

-- What holds of both branches holds of a test.
pub either_way :
    {A : Type 0} (Q : A → Type 0) (test : Bool) {here there : A}
    → Q here
    → Q there
    → Q (if test then here else there)
either_way Q true h t = h
either_way Q false h t = t

-- A submission keeps the slot, or opens a command.
abbrev Opens : Request → Slot → Submitted × Slot → Type 0
Opens r s p = (p.1 ≡ s) ⊎ (p.1 ≡ opened r s)

submit_beside-Opens :
    (o : Option Command) (r : Request) (s : Slot) → Opens r s (submit_beside o r s)
unfolding submit_beside
submit_beside-Opens (some c) r s =
    either_way (Opens r s) (str_eq c.request.request_id r.request_id)
      (either_way (Opens r s)
        (str_eq c.request.method r.method && str_eq c.request.fingerprint r.fingerprint) (inl refl)
        (inl refl))
      (inl refl)
submit_beside-Opens none r s = either_way (Opens r s) s.scheduler_active (inl refl) (inr refl)

submit_reading-Opens :
    (m : Result String (Option Receipt)) (r : Request) (s : Slot) → Opens r s (submit_reading m r s)
unfolding submit_reading
submit_reading-Opens (err m) r s = inl refl
submit_reading-Opens (ok none) r s = submit_beside-Opens (existing s) r s
submit_reading-Opens (ok (some receipt)) r s = inl refl

submit-Opens : (r : Request) (s : Slot) → Opens r s (submit r s)
unfolding submit
submit-Opens r s = either_way (Opens r s) s.shutting_down (inl refl) (
    either_way (Opens r s) s.draining (inl refl)
      (submit_reading-Opens (mutable_receipt s.receipts r.request_id) r s))

opened-IsSound : (l : List ℕ) (r : Request) (s : Slot) → IsSound l s → IsSound l (opened r s)
opened-IsSound l r s i = record {
  held = i.held;
  exclusive = i.exclusive;
  fresh = (ground arith, all_below-has_serial s.next l i.issued);
  issued = all_below-suc s.next l i.issued;
  once = i.once;
}

pub submit-IsSound :
    (l : List ℕ) (r : Request) (s : Slot) → IsSound l s → IsSound l ((submit r s).1)
submit-IsSound l r s i = elim (submit-Opens r s) [
  | inl e ↦ subst (IsSound l) (sym e) i
  | inr e ↦ subst (IsSound l) (sym e) (opened-IsSound l r s i)
]
