-- ===== src/Service/Slot/Takes.antt =====
-- Taking a command and claiming an iteration keep the invariant of the slot.
use mathlib.Core.Path.{subst}
use devlegate.Prelude.{
  ℕ, ◌≡◌, inl, inr, refl, sym, Bool, true, false, ◌||◌, Bool-cases, Option, none, some, List, ◌∷◌,
  arith, if◌then◌else◌,
}
use devlegate.Service.Commands.{Command}
use devlegate.Service.Slot.{Slot, taken, take_command, claim_scheduler, claim_owner_work}
use devlegate.Service.Slot.Steps.{log}
use devlegate.Service.Slot.Invariant.{IsFresh, IsSound}

abbrev pub Sound : List ℕ → Option Command × Slot → Type 0
Sound l p = IsSound (log p.0 l) p.1

-- The owner may hold one more command.
taken-Sound :
    (l : List ℕ) (c : Command) (s : Slot)
    → IsSound l s
    → IsFresh l s.next (some c)
    → (s.active || s.scheduler_active) ≡ false
    → IsSound (c.serial ∷ l) (taken c s)
taken-Sound l c s i f free = record {
  held = refl;
  exclusive = ground (arith, i.held);
  fresh = tt;
  issued = rw (f.0, i.issued) refl;
  once = rw (f.1, i.once) refl;
}

take_from :
    (l : List ℕ) (o : Option Command) (s : Slot)
    → o ≡ s.pending
    → IsSound l s
    → Sound l (elim o [
      | none ↦ (none, s)
      | some c ↦ if s.active || s.scheduler_active then (none, s) else (some c, taken c s)
    ])
take_from l none s e i = i
take_from l (some c) s e i = elim (Bool-cases (s.active || s.scheduler_active)) [
  | inl busy ↦ subst (λ b. Sound l (if b then (none, s) else (some c, taken c s))) (sym busy) i
  | inr free ↦
      subst (λ b. Sound l (if b then (none, s) else (some c, taken c s))) (sym free)
        (taken-Sound l c s i (subst (IsFresh l s.next) (sym e) i.fresh) free)
]

pub take_command-Sound : (l : List ℕ) (s : Slot) → IsSound l s → Sound l (take_command s)
unfolding take_command
take_command-Sound l s i = take_from l s.pending s refl i

abbrev pub SoundClaim : List ℕ → (Option Command × Bool) × Slot → Type 0
SoundClaim l p = IsSound (log p.0.0 l) p.1

claim_scheduler-SoundClaim :
    (l : List ℕ) (s : Slot) → IsSound l s → SoundClaim l (claim_scheduler s)
claim_scheduler-SoundClaim l s i = elim (Bool-cases (s.active || s.scheduler_active)) [
  | inl busy ↦
      subst
        (λ b.
          SoundClaim l (
            if b then ((none, false), s) else ((none, true), record s { scheduler_active = true })))
        (sym busy) i
  | inr free ↦
      subst
        (λ b.
          SoundClaim l (
            if b then ((none, false), s) else ((none, true), record s { scheduler_active = true })))
        (sym free)
        (record {
          held = i.held;
          exclusive = ground arith;
          fresh = i.fresh;
          issued = i.issued;
          once = i.once;
        })
]

claim_from :
    (l : List ℕ) (o : Option Command) (s : Slot)
    → o ≡ s.pending
    → IsSound l s
    → SoundClaim l (elim o [
      | none ↦ claim_scheduler s
      | some c ↦
          if s.active || s.scheduler_active
          then ((none, false), s)
          else ((some c, false), taken c s)
    ])
claim_from l none s e i = claim_scheduler-SoundClaim l s i
claim_from l (some c) s e i = elim (Bool-cases (s.active || s.scheduler_active)) [
  | inl busy ↦
      subst (λ b. SoundClaim l (if b then ((none, false), s) else ((some c, false), taken c s)))
        (sym busy) i
  | inr free ↦
      subst (λ b. SoundClaim l (if b then ((none, false), s) else ((some c, false), taken c s)))
        (sym free) (taken-Sound l c s i (subst (IsFresh l s.next) (sym e) i.fresh) free)
]

pub claim_owner_work-SoundClaim :
    (l : List ℕ) (b : Bool) (s : Slot) → IsSound l s → SoundClaim l (claim_owner_work b s)
unfolding claim_owner_work
claim_owner_work-SoundClaim l true s i = claim_from l s.pending s refl i
claim_owner_work-SoundClaim l false s i = claim_scheduler-SoundClaim l s i
