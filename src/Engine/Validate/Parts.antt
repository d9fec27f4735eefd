-- ===== src/Engine/Validate/Parts.antt =====
-- What the parts of `_validate_state_invariant` of src/devlegate/runtime.py say of a state.
use devlegate.Prelude.{
  ◌≡◌, ◌⊎◌, inl, inr, refl, String, Bool, true, false, not, ◌&&◌, Option, none, some, List, [], ◌∷◌,
  str_eq, contains, contains-cons_cases, arith, ok, require, require-eq-ok, both, is_some,
}
use devlegate.Values.{
  Value, Fields, obj, arr, str, int, float, bool, null, get, as_nonempty_text, item_as, item_is,
}
use devlegate.Values.Reads.{HasText, item_as-nonempty_text}
use devlegate.Engine.{
  StateError, invalid_integration, invalid_stage, missing_worker, retained_worker,
  incomplete_binding, item_in, if_present, or_null, absent_or, all_filled, is_filled,
}
use devlegate.Engine.Identity.{WorkerIdentity}
use devlegate.Engine.Validate.{
  check_integration, is_integration, later_stages, check_stage, execution_fields, check_binding,
}

pub all_filled-HasText :
    (ks : List String) (fs : Fields)
    → all_filled ks fs ≡ true
    → (k : String) → contains k ks ≡ true
    → (s : String) × HasText k fs s
all_filled-HasText [] fs h k m = unfold contains in cc
all_filled-HasText (x ∷ ks) fs h k m =
    let (first, rest) =
      both (is_some (item_as as_nonempty_text x fs)) (all_filled ks fs) (unfold all_filled in h) in
    elim (contains-cons_cases k x ks m) [
      | inl e ↦
          rw e (there (item_as as_nonempty_text x fs) first (λ s. item_as-nonempty_text x fs s))
      | inr m' ↦ all_filled-HasText ks fs rest k m'
    ]
  where
    there :
        (o : Option String)
        → is_some o ≡ true
        → ((s : String) → o ≡ some s → HasText x fs s)
        → (s : String) × HasText x fs s
    there none h f = cc
    there (some s) h f = (s, f s refl)

-- The worker of a running execution is known exactly while it runs.
pub record KnowsWorker (phase : String) (identity : Option WorkerIdentity) (state : Fields)
    : Type 0 where
  pub running :
      str_eq phase "agent_running" ≡ true
      → item_is "execution_stage" "worker-running" state ≡ true
      → is_some identity ≡ true
  pub later :
      str_eq phase "agent_running" ≡ true
      → item_in "execution_stage" later_stages state ≡ true
      → identity ≡ none

-- The ticket and the workspace that a state is bound to.
pub record IsBound (state : Fields) : Type 0 where
  pub selected : (s : String) × HasText "selected_ticket_id" state s
  pub workspace :
      (k : String) → contains k execution_fields ≡ true → (s : String) × HasText k state s
  pub remote : absent_or is_filled "execution_remote_head" state ≡ true

pub not_there : {A : Type 0} (o : Option A) → is_some o ≡ false → o ≡ none
not_there none h = refl
not_there (some a) h = cc

pub no_conflict : (a b : Bool) → not (a && b) ≡ true → a ≡ true → b ≡ false
no_conflict a b h k = ground arith

require_passes : {E : Type 0} (t : Bool) (e : E) → require t e ≡ ok tt → t ≡ true
require_passes true e h = refl
require_passes false e h = cc

pub check_stage-KnowsWorker :
    (phase : String) (identity : Option WorkerIdentity) (state : Fields)
    → check_stage phase identity state ≡ ok tt
    → KnowsWorker phase identity state
unfolding check_stage
check_stage-KnowsWorker phase identity state h =
    let (known, h₁) = require-eq-ok _ invalid_stage _ h in
    let (present, h₂) = require-eq-ok _ missing_worker _ h₁ in
    let retained = require_passes _ retained_worker h₂ in
    record {
      running = λ r w.
          is_there_of (str_eq phase "agent_running")
            (item_is "execution_stage" "worker-running" state) identity present r w;
      later = λ r l.
          absent_of (str_eq phase "agent_running") (item_in "execution_stage" later_stages state)
            identity retained r l;
    }
  where
    is_there_of :
        (a b : Bool) (o : Option WorkerIdentity)
        → not (a && b && not (is_some o)) ≡ true
        → a ≡ true
        → b ≡ true
        → is_some o ≡ true
    is_there_of true true none h r w = cc
    is_there_of true true (some x) h r w = refl
    is_there_of true false o h r w = cc
    is_there_of false b o h r w = cc

    absent_of :
        (a b : Bool) (o : Option WorkerIdentity)
        → not (a && b && is_some o) ≡ true
        → a ≡ true
        → b ≡ true
        → o ≡ none
    absent_of true true none h r w = refl
    absent_of true true (some x) h r w = cc
    absent_of true false o h r w = cc
    absent_of false b o h r w = cc

or_null-cases :
    (test : Value → Bool) (v : Value) → or_null test v ≡ true → (v ≡ null) ⊎ (test v ≡ true)
or_null-cases test (obj x) h = inr h
or_null-cases test (arr x) h = inr h
or_null-cases test (str x) h = inr h
or_null-cases test (int x) h = inr h
or_null-cases test (float x) h = inr h
or_null-cases test (bool x) h = inr h
or_null-cases test null h = inl refl

pub check_integration-cases :
    (phase : String) (state : Fields) (v : Value)
    → check_integration phase state ≡ ok tt
    → get "accepted_integration" state ≡ some v
    → (v ≡ null) ⊎ ((str_eq phase "idle" ≡ true) × (is_integration v ≡ true))
unfolding check_integration if_present
check_integration-cases phase state v h found =
    let test = λ (w : Value). str_eq phase "idle" && is_integration w in
    let passed =
      require_passes {E = StateError} (absent_or test "accepted_integration" state)
        invalid_integration h in
    let held : or_null test v ≡ true = rw (if_present, found) at passed in
    elim (or_null-cases test v held) [
      | inl e ↦ inl e
      | inr e ↦ inr (both (str_eq phase "idle") (is_integration v) e)
    ]

pub check_binding-inversion :
    (state : Fields)
    → check_binding state ≡ ok tt
    → (all_filled execution_fields state ≡ true)
      × (absent_or is_filled "execution_remote_head" state ≡ true)
unfolding check_binding
check_binding-inversion state h =
    let (whole, h₁) = require-eq-ok _ incomplete_binding _ h in
    let (front, remote) = both _ (absent_or is_filled "execution_remote_head" state) whole in
    let (present, filled) = both _ (all_filled execution_fields state) front in (filled, remote)
