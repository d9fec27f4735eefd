-- ===== src/Lifecycle/Drains.antt =====
-- An accepted intent stands, and closes the admission of workers.
use mathlib.Core.Path.{subst}
use devlegate.Prelude.{
  none-ne-some, if◌then◌else◌, ◌≡◌, ◌⊎◌, inl, inr, refl, sym, ap, ◌∙◌, ℕ, String, Bool, true, false,
  ◌||◌, Bool-cases, Option, Option-cases, none, some, List, [], ◌∷◌, str_eq, contains,
  contains-cons_cases, contains-cons_tail, contains-cons_self, Result, ok, err,
}
use devlegate.Ipc.Json.{Json}
use devlegate.Engine.Save.{Kept, SaveError, save_state}
use devlegate.Lifecycle.{
  Supervisor, begin_drain, without, admit_worker, retire_worker, request_abort, Service,
  manual_retry_save, needs_manual_retry, begin_intent, aborted, repeat_intent, mark_service_ready,
  after_save, on_intent, accept_intent, request_lifecycle, LifecycleError,
}
use devlegate.Lifecycle.Steps.{Step, Steps}
use devlegate.Store.Database.{Calls}

-- With an accepted intent the admission of workers is closed.
abbrev pub IsCoherent : Service → Type 0
IsCoherent s = (i : String) → s.intent ≡ some i → s.workers.draining ≡ true

-- No worker is active that was not before.
abbrev pub Shrinks : Supervisor → Supervisor → Type 0
Shrinks v w = (x : String) → contains x w.active ≡ true → contains x v.active ≡ true

pub contains-without :
    (x y : String) (l : List String) → contains x (without y l) ≡ true → contains x l ≡ true
unfolding without
contains-without x y [] m = m
contains-without x y (z ∷ l) m = elim (Bool-cases (str_eq y z)) [
  | inl e ↦ contains-cons_tail x z l (contains-without x y l (rw (without, e) at m))
  | inr e ↦ elim (contains-cons_cases x z (without y l) (rw (without, e) at m)) [
    | inl same ↦ rw same (contains-cons_self z l)
    | inr m' ↦ contains-cons_tail x z l (contains-without x y l m')
  ]
]

begin_drain-draining : (w : Supervisor) → (begin_drain w).1.draining ≡ true
unfolding begin_drain
begin_drain-draining w = elim (Bool-cases w.draining) [
  | inl e ↦ kept e
  | inr e ↦ rw (begin_drain, e) refl
]
  where
    kept : w.draining ≡ true → (begin_drain w).1.draining ≡ true
    kept e = ap (λ (r : Bool × Supervisor). r.1.draining) (same e) ∙ e
      where
        same : w.draining ≡ true → begin_drain w ≡ (false, w)
        same e = ap (λ (b : Bool). if b then (false, w) else (true, record w { draining = true })) e

-- Two services have the same intent and the same workers.
record Agree (s t : Service) : Type 0 where
  intent : s.intent ≡ t.intent
  workers : s.workers ≡ t.workers

aborted-Agree : (force : Bool) (s : Service) → Agree (aborted force s) s
aborted-Agree true s = record { intent = refl; workers = refl }
aborted-Agree false s = record { intent = refl; workers = refl }

repeat_intent-Agree :
    (accepted intent : String) (force : Bool) (s : Service)
    → Agree (repeat_intent accepted intent force s).1 s
unfolding repeat_intent
repeat_intent-Agree accepted intent force s = elim (Bool-cases (str_eq accepted intent)) [
  | inr e ↦ rw (repeat_intent, e) (record { intent = refl; workers = refl })
  | inl e ↦ rw (repeat_intent, e) (by_force force)
]
  where
    by_force :
        (force : Bool)
        → Agree (if force then record s { force = true; stop = request_abort s.stop } else s) s
    by_force true = record { intent = refl; workers = refl }
    by_force false = record { intent = refl; workers = refl }

module _ (signal_name : ℕ → Option String) (sha256 : String → String) (json : Json) where
  accept_intent-Agree :
      (calls : Calls) (intent request_id : String) (force : Bool) (s : Service)
      → Agree
          (accept_intent signal_name sha256 json calls intent request_id force s).1
          (begin_intent intent request_id force s)
  unfolding accept_intent
  accept_intent-Agree calls intent request_id force s =
      elim (Bool-cases (needs_manual_retry intent force s.kept.state)) [
        | inr e ↦
            rw (accept_intent, e) (aborted-Agree force (begin_intent intent request_id force s))
        | inl e ↦
            rw (accept_intent, e)
              (saved (
                save_state signal_name sha256 json calls (manual_retry_save request_id s.kept.state)
                  s.kept))
      ]
    where
      saved :
          (r : Result SaveError (Unit {0}) × Kept)
          → Agree
              (after_save signal_name sha256 json force
                (begin_intent intent request_id force s)
                r).1
              (begin_intent intent request_id force s)
      saved (err e, k) = record { intent = refl; workers = refl }
      saved (ok done, k) =
          let a =
            aborted-Agree force (record (begin_intent intent request_id force s) { kept = k }) in
          record { intent = a.intent; workers = a.workers }

  -- What a request leaves of a service: everything it had, or a new intent with closed admission.
  request-cases :
      (calls : Calls) (intent request_id : String) (force : Bool) (s : Service)
      → Agree (request_lifecycle signal_name sha256 json calls intent request_id force s).1 s
        ⊎ ((s.intent ≡ none)
            × Agree
                (request_lifecycle signal_name sha256 json calls intent request_id force s).1
                (begin_intent intent request_id force s))
  unfolding request_lifecycle
  request-cases calls intent request_id force s =
      elim (Bool-cases (str_eq intent "stop" || str_eq intent "restart")) [
        | inr e ↦ inl (rw (request_lifecycle, e) (record { intent = refl; workers = refl }))
        | inl e ↦ elim (Option-cases s.intent) [
          | inl absent ↦ inr (
            absent,
            subst (λ r. Agree r.1 (begin_intent intent request_id force s))
                (sym (supported e ∙ ap by_intent absent))
                (accept_intent-Agree calls intent request_id force s),
          )
          | inr (i, there) ↦ inl (
              subst (λ r. Agree r.1 s) (sym (supported e ∙ ap by_intent there))
                (repeat_intent-Agree i intent force s))
        ]
      ]
    where
      by_intent : Option String → Result LifecycleError (Unit {0}) × Service
      by_intent o =
          on_intent (accept_intent signal_name sha256 json calls intent request_id force s) o intent
            force s

      supported :
          (str_eq intent "stop" || str_eq intent "restart") ≡ true
          → request_lifecycle signal_name sha256 json calls intent request_id force s
            ≡ by_intent s.intent
      supported e = rw (request_lifecycle, e) refl

  closed : (x : String) (v w : Supervisor) → v.draining ≡ true → admit_worker x v ≡ some w → ⊥
  unfolding admit_worker
  closed x v w d h = absurd (none-ne-some (sym (rw (admit_worker, d) refl) ∙ h))

  abbrev TheStep : Service → Service → Type 0
  TheStep s t = Step signal_name sha256 json s t

  retire-Shrinks : (x : String) (w : Supervisor) → Shrinks w (retire_worker x w)
  unfolding retire_worker
  retire-Shrinks x w y m = contains-without y x w.active m

  same-Shrinks : (v w : Supervisor) → w ≡ v → Shrinks v w
  same-Shrinks v w e x m = rw e at m

  pub step-IsCoherent : (s t : Service) → IsCoherent s → TheStep s t → IsCoherent t
  unfolding retire_worker mark_service_ready begin_intent
  step-IsCoherent s t c (Step.requests calls intent request_id force) i e =
      elim (request-cases calls intent request_id force s) [
        | inl a ↦ ap (λ (w : Supervisor). w.draining) a.workers ∙ c i (sym a.intent ∙ e)
        | inr (absent, a) ↦
            ap (λ (w : Supervisor). w.draining) a.workers ∙ begin_drain-draining s.workers
      ]
  step-IsCoherent s t c (Step.starts x w h) i e = absurd (closed x s.workers w (c i e) h)
  step-IsCoherent s t c (Step.ends x) i e = c i e
  step-IsCoherent s t c Step.is_up i e = c i e
  step-IsCoherent s t c (Step.proceeds owned kept) i e = c i e

  pub step-Stands :
      (s t : Service)
      → IsCoherent s
      → TheStep s t
      → (i : String) → s.intent ≡ some i
      → (t.intent ≡ some i) × Shrinks s.workers t.workers
  unfolding mark_service_ready retire_worker
  step-Stands s t c (Step.requests calls intent request_id force) i e =
      elim (request-cases calls intent request_id force s) [
        | inl a ↦ (a.intent ∙ e, same-Shrinks s.workers t.workers a.workers)
        | inr (absent, a) ↦ absurd (none-ne-some (sym absent ∙ e))
      ]
  step-Stands s t c (Step.starts x w h) i e = absurd (closed x s.workers w (c i e) h)
  step-Stands s t c (Step.ends x) i e = (e, retire-Shrinks x s.workers)
  step-Stands s t c Step.is_up i e = (e, λ x m. m)
  step-Stands s t c (Step.proceeds owned kept) i e = (e, λ x m. m)

  -- From a service in which an accepted intent means closed admission, as in a new one, whatever steps follow
  -- in whatever order: an accepted intent stays the accepted one, and no worker becomes active that was not
  -- active when it was accepted.
  pub Steps-Drains :
      (s t : Service)
      → IsCoherent s
      → Steps signal_name sha256 json s t
      → IsCoherent t
        × ((i : String) → s.intent ≡ some i → (t.intent ≡ some i) × Shrinks s.workers t.workers)
  Steps-Drains s t c Steps.stays = (c, λ i e. (e, λ x m. m))
  Steps-Drains s t c (Steps.goes {t = u} before step) =
      let (coherent, stands) = Steps-Drains s u c before in
      (
        step-IsCoherent u t coherent step,
        λ i e.
            let (e₁, first) = stands i e in
            let (e₂, second) = step-Stands u t coherent step i e₁ in
            (e₂, λ x m. first x (second x m)),
      )
