-- ===== src/Ipc/Dispatch/Handles.antt =====
-- What `dispatch_request` does with a request.
use devlegate.Prelude.{
  err-ne-ok, Result-cases, ◌≡◌, inl, inr, refl, sym, ap, ◌∙◌, Bool, false, Bool-cases, Result, ok,
  err, contains,
}
use devlegate.Values.{Fields}
use devlegate.Ipc.Errors.{
  Code, ProtocolError, error, unknown_method, oversized_frame, malformed_protocol, invalid_request,
  unsupported_version,
}
use devlegate.Ipc.Message.{IpcRequest}
use devlegate.Ipc.Dispatch.{
  is_offered, check_mutation, perform, dispatch_mutation, dispatch_read_only, or_read_only,
  dispatch_request,
}
use devlegate.Ipc.Dispatch.Asks.{check_mutation_iff}
use devlegate.Ipc.Calls.{Raised, Call, Engine, Process, protocol, other}
use devlegate.Ipc.Dispatch.Asked.{Asks}
use devlegate.Ipc.Dispatch.Runs.{
  read_methods, Asks-no_reading, contains-OneOf, reading_unknown, Runs, Reads, Reads-read_only,
  no_reading, Runs-perform,
}

-- An error that says that the method is unknown is raised anew, and is not fatal.
abbrev anew : ProtocolError → ProtocolError
anew e = elim e.code [ unknown_method ↦ error unknown_method | _ ↦ e ]

module _ {S : Type 0} (process : Process) (engine : Engine S) where
  -- The request asks for no call.
  abbrev pub AsksNothing : IpcRequest → Type 0
  AsksNothing r = (c : Call) → Asks (is_offered engine.lifecycle) r.method r.payload c → ⊥

  abbrev raised_anew : Result Raised Fields × S → Result Raised Fields × S
  raised_anew (ok fs, s) = (ok fs, s)
  raised_anew (err (other m), s) = (err (other m), s)
  raised_anew (err (protocol e), s) = (err (protocol (anew e)), s)

  -- What can become of a request.
  pub data Handled (r : IpcRequest) (s : S) : Type 0 where
    performed :
        (c : Call) (answer : Result Raised Fields × S)
        → Asks (is_offered engine.lifecycle) r.method r.payload c
        → Runs process engine r.request_id s c answer
        → dispatch_request process engine r s ≡ raised_anew answer
        → Handled r s
    answered :
        AsksNothing r
        → (answer : Result Raised Fields) → Reads process engine s r.method answer
        → dispatch_request process engine r s ≡ (answer, s)
        → Handled r s
    refused :
        AsksNothing r
        → contains r.method read_methods ≡ false
        → (e : ProtocolError) → dispatch_request process engine r s ≡ (err (protocol e), s)
        → Handled r s

  settled_error :
      (r : IpcRequest) (code : Code) (fatal : Bool) (s : S)
      → contains r.method read_methods ≡ false
      → or_read_only process engine r (err (protocol (record { code = code; fatal = fatal })), s)
        ≡ (err (protocol (anew (record { code = code; fatal = fatal }))), s)
  unfolding or_read_only
  settled_error r unknown_method fatal s h = ap (λ x. (x, s)) (no_reading process engine r s h)
  settled_error r oversized_frame fatal s h = refl
  settled_error r malformed_protocol fatal s h = refl
  settled_error r invalid_request fatal s h = refl
  settled_error r unsupported_version fatal s h = refl

  settled :
      (r : IpcRequest) (answer : Result Raised Fields × S)
      → contains r.method read_methods ≡ false
      → or_read_only process engine r answer ≡ raised_anew answer
  unfolding or_read_only
  settled r (ok fs, s) h = refl
  settled r (err (other m), s) h = refl
  settled r (err (protocol e), s) h = settled_error r e.code e.fatal s h

  handled :
      (r : IpcRequest) (s : S) (e : ProtocolError)
      → AsksNothing r
      → check_mutation (is_offered engine.lifecycle) r.method r.payload ≡ err e
      → Handled r s
  unfolding dispatch_mutation dispatch_request or_read_only
  handled r s e nothing h = elim (Bool-cases (contains r.method read_methods)) [
    | inl read ↦
        let reading = contains-OneOf r.method read_methods read in
        answered nothing (dispatch_read_only process engine r s)
          (Reads-read_only process engine r s reading)
          (rw
            (
              dispatch_request,
              dispatch_mutation,
              reading_unknown (is_offered engine.lifecycle) r.payload r.method reading,
            )
            refl)
    | inr no_read ↦
        refused nothing no_read (anew e)
          (rw (dispatch_request, dispatch_mutation, h) (settled r (err (protocol e), s) no_read))
  ]

  -- A request either asks for a call, and then `dispatch_request` returns what the engine answers to
  -- exactly that call under the request's id, where an error that says that the method is unknown is
  -- raised anew; or it asks for none, and then the state is kept: a reading is answered from it, and a
  -- request that is no reading is refused by a protocol error.
  pub dispatch_request-Handled : (r : IpcRequest) (s : S) → Handled r s
  unfolding dispatch_mutation dispatch_request
  dispatch_request-Handled r s =
      elim (Result-cases (check_mutation (is_offered engine.lifecycle) r.method r.payload)) [
        | inl (e, h) ↦
            handled r s e
              (λ c asks. err-ne-ok (sym h ∙ (check_mutation_iff _ r.method r.payload c).1 asks)) h
        | inr (c, h) ↦
            let asks = (check_mutation_iff _ r.method r.payload c).0 h in
            let answer = perform process engine c r.request_id s in
            performed c answer asks
              (Runs-perform process engine c r.method r.payload r.request_id s asks)
              (rw (dispatch_request, dispatch_mutation, h)
                (settled r answer
                  (Asks-no_reading (is_offered engine.lifecycle) r.method r.payload c asks)))
      ]
