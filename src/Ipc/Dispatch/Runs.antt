-- ===== src/Ipc/Dispatch/Runs.antt =====
-- What the engine answers to a call and to a reading of src/devlegate/ipc_server.py.
use mathlib.Core.Path.{subst}
use devlegate.Prelude.{
  Result-cases, ◌≡◌, ◌⊎◌, inl, inr, refl, String, Bool, true, false, Option, some, none, List, [],
  ◌∷◌, Result, ok, err, contains, contains-cons_cases, arith,
}
use devlegate.Values.{Fields, Items, obj, arr, str, bool, field, no_fields, put, merge}
use devlegate.Ipc.Errors.{error, unknown_method}
use devlegate.Ipc.Message.{IpcRequest}
use devlegate.Ipc.Dispatch.{
  is_offered, check_mutation, accepted, call_lifecycle, perform, service_identity,
  dispatch_read_only,
}
use devlegate.Ipc.Calls.{
  Raised, Call, Operation, Engine, Process, protocol, lifecycle, submit_retry, submit_drop,
  submit_recover, submit_reconcile_update_base, submit_reconcile_resume, submit_reconcile_auto,
  submit_reconcile_control,
}
use devlegate.Ipc.Dispatch.Asked.{Asks}

abbrev pub read_methods : List String
read_methods = "ping" ∷ "status" ∷ "plan" ∷ "retry-candidates" ∷ "drop-candidates" ∷ []

-- No method is of a call and of a reading.
pub Asks-no_reading :
    (offered : Bool) (m : String) (fs : Fields) (c : Call)
    → Asks offered m fs c
    → contains m read_methods ≡ false
unfolding Asks contains
Asks-no_reading offered m fs (lifecycle n force) asks = elim asks.1 [
  | inl h ↦ rw h refl
  | inr h ↦ rw h refl
]
Asks-no_reading offered m fs (submit_retry t force) asks = rw asks.0 refl
Asks-no_reading offered m fs (submit_drop t x) asks = rw asks.0 refl
Asks-no_reading offered m fs (submit_recover t x head) asks = rw asks.0 refl
Asks-no_reading offered m fs (submit_reconcile_update_base t onto b) asks = rw asks.0 refl
Asks-no_reading offered m fs (submit_reconcile_resume t) asks = rw asks.0 refl
Asks-no_reading offered m fs (submit_reconcile_auto t onto) asks = rw asks.0 refl
Asks-no_reading offered m fs (submit_reconcile_control a b) asks = rw asks.0 refl

abbrev pub OneOf : String → List String → Type 0
OneOf m [] = ⊥
OneOf m (n ∷ ns) = (m ≡ n) ⊎ OneOf m ns

pub contains-OneOf : (m : String) (ns : List String) → contains m ns ≡ true → OneOf m ns
contains-OneOf m [] h = unfold contains in cc
contains-OneOf m (n ∷ ns) h = elim (contains-cons_cases m n ns h) [
  | inl e ↦ inl e
  | inr k ↦ inr (contains-OneOf m ns k)
]

-- The checks of the mutations pass every reading on.
pub reading_unknown :
    (offered : Bool) (fs : Fields) (m : String)
    → OneOf m read_methods
    → check_mutation offered m fs ≡ err (error unknown_method)
unfolding check_mutation
reading_unknown offered fs m (inl h) = rw h refl
reading_unknown offered fs m (inr (inl h)) = rw h refl
reading_unknown offered fs m (inr (inr (inl h))) = rw h refl
reading_unknown offered fs m (inr (inr (inr (inl h)))) = rw h refl
reading_unknown offered fs m (inr (inr (inr (inr (inl h))))) = rw h refl
reading_unknown offered fs m (inr (inr (inr (inr (inr h))))) = absurd h

module _ {S : Type 0} (process : Process) (engine : Engine S) where
  abbrev acknowledged : Result Raised Fields × S → Result Raised Fields × S
  acknowledged (err e, s) = (err e, s)
  acknowledged (ok fs, s) = (
    ok (
        merge
          (field "accepted" (bool true) (field "instance_id" (str process.instance_id) no_fields))
          fs),
    s,
  )

  -- What the engine answers to a call, and the state that it leaves.
  pub data Runs (id : String) (s : S) : Call → Result Raised Fields × S → Type 0 where
    lifecycle_run :
        (f : String → String → Bool → Operation S)
        → engine.lifecycle ≡ some f
        → (m : String) (force : Bool)
        → Runs id s (lifecycle m force) (acknowledged (f m id force s))
    retry_run :
        (t : String) (force : Bool) → Runs id s (submit_retry t force) (engine.retry t force id s)
    drop_run : (t x : String) → Runs id s (submit_drop t x) (engine.drop t x id s)
    recover_run :
        (t x head : String) → Runs id s (submit_recover t x head) (engine.recover t x head id s)
    update_base_run :
        (t : String) (onto : Option String) (rewrite : Bool)
        → Runs id s
            (submit_reconcile_update_base t onto rewrite)
            (engine.reconcile_update_base t onto rewrite id s)
    resume_run :
        (t : String) → Runs id s (submit_reconcile_resume t) (engine.reconcile_resume t id s)
    auto_run :
        (t : String) (onto : Option String)
        → Runs id s (submit_reconcile_auto t onto) (engine.reconcile_auto t onto id s)
    control_run :
        (a b : String)
        → Runs id s (submit_reconcile_control a b) (engine.reconcile_control a b id s)

  -- What a reading answers.
  pub data Reads (s : S) : String → Result Raised Fields → Type 0 where
    ping_read : Reads s "ping" (service_identity process engine s)
    status_read :
        (fs who : Fields)
        → engine.published_status_payload s ≡ ok fs
        → service_identity process engine s ≡ ok who
        → Reads s "status" (ok (put "service" (obj who) fs))
    status_unread :
        (e : Raised) → engine.published_status_payload s ≡ err e → Reads s "status" (err e)
    status_unnamed :
        (fs : Fields) (e : Raised)
        → engine.published_status_payload s ≡ ok fs
        → service_identity process engine s ≡ err e
        → Reads s "status" (err e)
    plan_read : Reads s "plan" (engine.published_plan s)
    retries_read :
        (l : Items)
        → engine.published_retry_candidates s ≡ ok l
        → Reads s "retry-candidates" (ok (field "candidates" (arr l) no_fields))
    retries_unread :
        (e : Raised)
        → engine.published_retry_candidates s ≡ err e
        → Reads s "retry-candidates" (err e)
    drops_read :
        (l : Items)
        → engine.published_drop_candidates s ≡ ok l
        → Reads s "drop-candidates" (ok (field "candidates" (arr l) no_fields))
    drops_unread :
        (e : Raised)
        → engine.published_drop_candidates s ≡ err e
        → Reads s "drop-candidates" (err e)

  pub Reads-read_only :
      (r : IpcRequest) (s : S)
      → OneOf r.method read_methods
      → Reads s r.method (dispatch_read_only process engine r s)
  unfolding dispatch_read_only
  Reads-read_only r s (inl h) = rw (dispatch_read_only, h) ping_read
  Reads-read_only r s (inr (inl h)) = elim (Result-cases (engine.published_status_payload s)) [
    | inl (e, k) ↦ rw (dispatch_read_only, h, k) (status_unread e k)
    | inr (fs, k) ↦ elim (Result-cases (service_identity process engine s)) [
      | inl (e, q) ↦ rw (dispatch_read_only, h, k, q) (status_unnamed fs e k q)
      | inr (who, q) ↦ rw (dispatch_read_only, h, k, q) (status_read fs who k q)
    ]
  ]
  Reads-read_only r s (inr (inr (inl h))) = rw (dispatch_read_only, h) plan_read
  Reads-read_only r s (inr (inr (inr (inl h)))) =
      elim (Result-cases (engine.published_retry_candidates s)) [
        | inl (e, k) ↦ rw (dispatch_read_only, h, k) (retries_unread e k)
        | inr (l, k) ↦ rw (dispatch_read_only, h, k) (retries_read l k)
      ]
  Reads-read_only r s (inr (inr (inr (inr (inl h))))) =
      elim (Result-cases (engine.published_drop_candidates s)) [
        | inl (e, k) ↦ rw (dispatch_read_only, h, k) (drops_unread e k)
        | inr (l, k) ↦ rw (dispatch_read_only, h, k) (drops_read l k)
      ]
  Reads-read_only r s (inr (inr (inr (inr (inr h))))) = absurd h

  pub no_reading :
      (r : IpcRequest) (s : S)
      → contains r.method read_methods ≡ false
      → dispatch_read_only process engine r s ≡ err (protocol (error unknown_method))
  unfolding dispatch_read_only contains
  no_reading r s h = ground arith

  acknowledged-accepted :
      (answer : Result Raised Fields × S) → acknowledged answer ≡ accepted process engine answer
  unfolding accepted
  acknowledged-accepted (err e, s) = refl
  acknowledged-accepted (ok fs, s) = refl

  Runs-call_lifecycle :
      (id : String) (s : S) (m : String) (force : Bool)
      (o : Option (String → String → Bool → Operation S))
      → engine.lifecycle ≡ o
      → is_offered o ≡ true
      → Runs id s (lifecycle m force) (call_lifecycle process engine o m id force s)
  Runs-call_lifecycle id s m force none e h = cc
  Runs-call_lifecycle id s m force (some f) e h =
      subst (Runs id s (lifecycle m force)) (acknowledged-accepted (f m id force s))
        (lifecycle_run f e m force)

  pub Runs-perform :
      (c : Call) (m : String) (fs : Fields) (id : String) (s : S)
      → Asks (is_offered engine.lifecycle) m fs c
      → Runs id s c (perform process engine c id s)
  unfolding perform accepted Asks
  Runs-perform (lifecycle n force) m fs id s asks =
      Runs-call_lifecycle id s n force engine.lifecycle refl asks.3
  Runs-perform (submit_retry t force) m fs id s asks = retry_run t force
  Runs-perform (submit_drop t x) m fs id s asks = drop_run t x
  Runs-perform (submit_recover t x head) m fs id s asks = recover_run t x head
  Runs-perform (submit_reconcile_update_base t onto b) m fs id s asks = update_base_run t onto b
  Runs-perform (submit_reconcile_resume t) m fs id s asks = resume_run t
  Runs-perform (submit_reconcile_auto t onto) m fs id s asks = auto_run t onto
  Runs-perform (submit_reconcile_control a b) m fs id s asks = control_run a b
