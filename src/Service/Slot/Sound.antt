-- ===== src/Service/Slot/Sound.antt =====
-- What holds of the slot in every run.
use mathlib.Core.Path.{subst}
use devlegate.Prelude.{
  ℕ, ◌≡◌, ◌⊎◌, inl, inr, refl, sym, ap, ◌∙◌, String, true, ◌&&◌, Option, none, some, List, ◌∷◌,
  arith, Result, Result-cases, err, is_some,
}
use devlegate.Service.Commands.{Command}
use devlegate.Service.Slot.{
  Slot, is_pending, time_out, release_command, release_scheduler, reject_pending, admission, admit,
}
use devlegate.Service.Slot.Steps.{
  Reached, starts, submits, times_out, takes, claims, admits, releases, releases_scheduler, rejects,
  drains, shuts_down,
}
use devlegate.Service.Slot.Invariant.{all_below, IsFresh, IsSound, either_way, submit-IsSound}
use devlegate.Service.Slot.Takes.{take_command-Sound, claim_owner_work-SoundClaim}

-- Nothing that the invariant reads has changed but the pending command, which may be gone.
dropped-IsSound :
    (l : List ℕ) (s t : Slot)
    → IsSound l s
    → (t.active ≡ s.active)
      × (t.active_command ≡ s.active_command)
      × (t.scheduler_active ≡ s.scheduler_active)
      × (t.next ≡ s.next)
      × ((t.pending ≡ s.pending) ⊎ (t.pending ≡ none))
    → IsSound l t
dropped-IsSound l s t i (a, c, k, n, p) = record {
  held = a ∙ i.held ∙ ap is_some (sym c);
  exclusive = (λ j. a j && k j) ∙ i.exclusive;
  fresh = elim p [
    | inl e ↦ subst (λ q. IsFresh l q t.pending) (sym n) (subst (IsFresh l s.next) (sym e) i.fresh)
    | inr e ↦ subst (IsFresh l t.next) (sym e) tt
  ];
  issued = ap (λ q. all_below q l) n ∙ i.issued;
  once = i.once;
}

-- What a step that takes no command keeps.
abbrev Keeps : Slot → Slot → Type 0
Keeps s t =
    (t.active ≡ s.active)
    × (t.active_command ≡ s.active_command)
    × (t.scheduler_active ≡ s.scheduler_active)
    × (t.next ≡ s.next)
    × ((t.pending ≡ s.pending) ⊎ (t.pending ≡ none))

time_out-Keeps : (n : ℕ) (s : Slot) → Keeps s (time_out n s)
unfolding time_out
time_out-Keeps n s =
    either_way (Keeps s) (is_pending n s.pending) (refl, refl, refl, refl, inr refl)
      (refl, refl, refl, refl, inl refl)

reject_from :
    (o : Option Command) (s : Slot)
    → Keeps s (elim o [
      | none ↦ s
      | some c ↦ record s {
        pending = none;
        settled =
            (c.serial, err "service is shutting down; runtime command was not admitted")
            ∷ s.settled;
      }
    ])
reject_from none s = (refl, refl, refl, refl, inl refl)
reject_from (some c) s = (refl, refl, refl, refl, inr refl)

reject_pending-Keeps : (s : Slot) → Keeps s (reject_pending s)
unfolding reject_pending
reject_pending-Keeps s = reject_from s.pending s

module _ (validate : Command → Result String Command)
    (effects : Command → Result String (Unit {0})) where
  admit-Keeps : (c : Command) (s : Slot) → Keeps s (admit validate effects c s)
  unfolding admit
  admit-Keeps c s = elim (Result-cases (admission validate effects c s)) [
    | inl (m, e) ↦ rw (e, admit) (refl, refl, refl, refl, inl refl)
    | inr (p, e) ↦ rw (e, admit) (refl, refl, refl, refl, inl refl)
  ]

release_command-IsSound : (l : List ℕ) (s : Slot) → IsSound l s → IsSound l (release_command s)
unfolding release_command
release_command-IsSound l s i = record {
  held = refl;
  exclusive = refl;
  fresh = i.fresh;
  issued = i.issued;
  once = i.once;
}

release_scheduler-IsSound : (l : List ℕ) (s : Slot) → IsSound l s → IsSound l (release_scheduler s)
unfolding release_scheduler
release_scheduler-IsSound l s i = record {
  held = i.held;
  exclusive = ground arith;
  fresh = i.fresh;
  issued = i.issued;
  once = i.once;
}

-- In every interleaving of the locked regions: the owner works for a command exactly while it holds
-- one, never while the scheduler iterates, no command is taken twice, and a command that is still
-- pending was not taken.
pub Reached-IsSound : (l : List ℕ) (s : Slot) → Reached l s → IsSound l s
Reached-IsSound _ _ (starts receipts) = record {
  held = refl;
  exclusive = refl;
  fresh = tt;
  issued = refl;
  once = refl;
}
Reached-IsSound l _ (submits r p) = submit-IsSound l r _ (Reached-IsSound l _ p)
Reached-IsSound l _ (times_out {s = s} n p) =
    dropped-IsSound l s (time_out n s) (Reached-IsSound l s p) (time_out-Keeps n s)
Reached-IsSound _ _ (takes {l = l} {s = s} p) = take_command-Sound l s (Reached-IsSound l s p)
Reached-IsSound _ _ (claims {l = l} {s = s} b p) =
    claim_owner_work-SoundClaim l b s (Reached-IsSound l s p)
Reached-IsSound l _ (admits {s = s} validate effects c p) =
    dropped-IsSound l s (admit validate effects c s) (Reached-IsSound l s p)
      (admit-Keeps validate effects c s)
Reached-IsSound l _ (releases {s = s} p) = release_command-IsSound l s (Reached-IsSound l s p)
Reached-IsSound l _ (releases_scheduler {s = s} p) =
    release_scheduler-IsSound l s (Reached-IsSound l s p)
Reached-IsSound l _ (rejects {s = s} p) =
    dropped-IsSound l s (reject_pending s) (Reached-IsSound l s p) (reject_pending-Keeps s)
Reached-IsSound l _ (drains {s = s} p) =
    dropped-IsSound l s (record s { draining = true }) (Reached-IsSound l s p)
      (refl, refl, refl, refl, inl refl)
Reached-IsSound l _ (shuts_down {s = s} p) =
    dropped-IsSound l s (record s { shutting_down = true }) (Reached-IsSound l s p)
      (refl, refl, refl, refl, inl refl)
