-- ===== src/Lifecycle/Exits.antt =====
-- What holds of a service that may exit.
use devlegate.Prelude.{
  true-ne-false, ◌≡◌, inl, inr, refl, ap, ◌∙◌, ℕ, String, true, false, ◌==◌, Bool-cases, Option,
  Option-cases, some, List, [], ◌∷◌, length, contains, contains-cons_self, arith,
}
use devlegate.Values.{Fields, str, get, as_text, item_as, item_is}
use devlegate.Values.Reads.{item_as-text}
use devlegate.Engine.{item_in}
use devlegate.Ipc.Json.{Json}
use devlegate.Lifecycle.{active_count, Service, exit_ready}
use devlegate.Lifecycle.Steps.{Steps}
use devlegate.Lifecycle.Drains.{IsCoherent, Steps-Drains}

abbrev behind_checkpoint : List String
behind_checkpoint = "post-checkpoint" ∷ "publishing" ∷ "post-publication" ∷ "lifecycle" ∷ []

-- An execution that is owned while its agent runs has come to its checkpoint.
abbrev pub IsCheckpointed : Service → Type 0
IsCheckpointed s =
    (x : String)
    → s.owned ≡ some x
    → get "phase" s.kept.state ≡ some (str "agent_running")
    → (stage : String) × (get "execution_stage" s.kept.state ≡ some (str stage))
      × (contains stage behind_checkpoint ≡ true)

empty_of_none : (l : List String) → ((x : String) → contains x l ≡ false) → l ≡ []
unfolding contains
empty_of_none [] h = refl
empty_of_none (x ∷ l) h = absurd (true-ne-false (contains-cons_self x l) (h x))

no_member : (x : String) → contains x [] ≡ false
unfolding contains
no_member x = refl

no_worker : (l : List String) → (length l == 0) ≡ true → l ≡ []
no_worker [] h = refl
no_worker (x ∷ l) h = absurd (ground arith)

item_in-contains :
    (k : String) (texts : List String) (fs : Fields)
    → item_in k texts fs ≡ true
    → (s : String) × (get k fs ≡ some (str s)) × (contains s texts ≡ true)
unfolding item_in
item_in-contains k texts fs h = elim (Option-cases (item_as as_text k fs)) [
  | inl e ↦ cc (rw (e, item_in) at h)
  | inr (s, e) ↦ (s, item_as-text k fs s e, rw (e, item_in) at h)
]

-- What `exit_ready` has tested.
record Tested (s : Service) : Type 0 where
  intent : String
  accepted : s.intent ≡ some intent
  idle : s.workers.active ≡ []
  checkpointed : IsCheckpointed s

exit_ready-Tested : (s : Service) → exit_ready s ≡ true → Tested s
unfolding exit_ready item_is as_text
exit_ready-Tested s h = elim (Option-cases s.intent) [
  | inl e ↦ absurd (true-ne-false h (rw (exit_ready, e) refl))
  | inr (i, e) ↦ elim (Bool-cases (active_count s.workers == 0)) [
    | inr busy ↦ absurd (true-ne-false h (rw (exit_ready, e, busy) refl))
    | inl idle ↦ record {
      intent = i;
      accepted = e;
      idle = no_worker s.workers.active idle;
      checkpointed = λ x owned running.
          item_in-contains "execution_stage" behind_checkpoint s.kept.state
            (rw (exit_ready, e, idle, owned, item_is, running) at h);
    }
  ]
]

module _ (signal_name : ℕ → Option String) (sha256 : String → String) (json : Json) where
  -- From a service in which an accepted intent means closed admission, and that may exit: it has accepted an
  -- intent, no worker is active, and an execution that it owns while the agent runs is behind its
  -- checkpoint; and whatever steps follow, the intent stays accepted and no worker becomes active again.
  pub exit_ready-Final :
      (s t : Service)
      → IsCoherent s
      → exit_ready s ≡ true
      → Steps signal_name sha256 json s t
      → (i : String) × (s.intent ≡ some i)
        × (s.workers.active ≡ [])
        × IsCheckpointed s
        × (t.intent ≡ some i)
        × (t.workers.active ≡ [])
  exit_ready-Final s t c ready steps =
      let q = exit_ready-Tested s ready in
      let (coherent, stands) = Steps-Drains signal_name sha256 json s t c steps in
      let (still, shrinks) = stands q.intent q.accepted in
      (
        q.intent,
        q.accepted,
        q.idle,
        q.checkpointed,
        still,
        empty_of_none t.workers.active (λ x. elim (Bool-cases (contains x t.workers.active)) [
          | inr e ↦ e
          | inl e ↦
              absurd (true-ne-false (shrinks x e) (ap (λ l. contains x l) q.idle ∙ no_member x))
        ]),
      )
