-- ===== src/Ipc/Dispatch.antt =====
-- The dispatch of src/devlegate/ipc_server.py: the checks of a request's payload, and the call of the
-- engine behind them.
-- The engine is src/devlegate/runtime.py; what it is here is the operations that the dispatch calls,
-- over a state of its own.
pub mod Shapes
pub mod Asked
pub mod KeySets
pub mod Asks
pub mod Runs
pub mod Handles
use devlegate.Prelude.{
  ℕ, String, Bool, true, false, not, ◌&&◌, ◌||◌, Option, none, some, List, [], ◌∷◌, str_eq,
  if◌then◌else◌, Result, ok, err, ◌>>=◌, ◌>>◌, require, expect, contains, subset, same_set,
}
use devlegate.Values.{
  Value, Items, Fields, obj, arr, str, int, bool, null, field, no_fields, get, put, merge, keys,
  as_bool, as_nonempty_text,
}
use devlegate.Values.Int.{pos}
use devlegate.Ipc.Errors.{Code, ProtocolError, error, invalid_request, unknown_method}
use devlegate.Ipc.Message.{IpcRequest}
use devlegate.Values.{item_as}
use devlegate.Ipc.Calls.{
  Raised, Call, Operation, Engine, Process, protocol, other, lifecycle, submit_retry, submit_drop,
  submit_recover, submit_reconcile_update_base, submit_reconcile_resume, submit_reconcile_auto,
  submit_reconcile_control,
}

-- `payload.get(key, False)`, a Boolean
unfoldable pub flag : String → Fields → Option Bool
unfolding get as_bool
flag k fs = elim (get k fs) [ none ↦ some false | some v ↦ as_bool v ]

-- `payload.get(key)`, None or a text that is not empty
unfoldable pub text_or_none : Value → Option (Option String)
unfolding as_nonempty_text
text_or_none null = some none
text_or_none v = elim (as_nonempty_text v) [ none ↦ none | some s ↦ some (some s) ]

unfoldable pub optional_text : String → Fields → Option (Option String)
unfolding get text_or_none
optional_text k fs = elim (get k fs) [ none ↦ some none | some v ↦ text_or_none v ]

abbrev text_at : String → Fields → Result ProtocolError String
text_at k fs = expect (item_as as_nonempty_text k fs) (error invalid_request)

abbrev flag_at : String → Fields → Result ProtocolError Bool
flag_at k fs = expect (flag k fs) (error invalid_request)

-- The branch for "stop" and "restart"; `offered` says whether there is a lifecycle callback.
unfoldable pub check_lifecycle : Bool → String → Fields → Result ProtocolError Call
unfolding subset
check_lifecycle offered method fs = do
  require (subset (keys fs) ("force" ∷ [])) (error invalid_request)
  require offered (error unknown_method)
  force ← flag_at "force" fs
  ok (lifecycle method force)

unfoldable pub check_retry : Fields → Result ProtocolError Call
unfolding subset contains
check_retry fs = do
  require (subset (keys fs) ("ticket_id" ∷ "force" ∷ []) && contains "ticket_id" (keys fs))
      (error invalid_request)
  ticket_id ← text_at "ticket_id" fs
  force ← flag_at "force" fs
  ok (submit_retry ticket_id force)

unfoldable pub check_drop : Fields → Result ProtocolError Call
unfolding same_set
check_drop fs = do
  require (same_set (keys fs) ("ticket_id" ∷ "execution_id" ∷ [])) (error invalid_request)
  ticket_id ← text_at "ticket_id" fs
  execution_id ← text_at "execution_id" fs
  ok (submit_drop ticket_id execution_id)

unfoldable pub check_recover : Fields → Result ProtocolError Call
unfolding same_set
check_recover fs = do
  require (same_set (keys fs) ("ticket_id" ∷ "execution_id" ∷ "observed_head" ∷ []))
      (error invalid_request)
  ticket_id ← text_at "ticket_id" fs
  execution_id ← text_at "execution_id" fs
  observed_head ← text_at "observed_head" fs
  ok (submit_recover ticket_id execution_id observed_head)

unfoldable pub check_update_base : Fields → Result ProtocolError Call
unfolding same_set
check_update_base fs = do
  require
      (same_set (keys fs) ("ticket_id" ∷ [])
        || same_set (keys fs) ("ticket_id" ∷ "onto" ∷ [])
        || same_set (keys fs) ("ticket_id" ∷ "rewrite_published" ∷ [])
        || same_set (keys fs) ("ticket_id" ∷ "onto" ∷ "rewrite_published" ∷ []))
      (error invalid_request)
  ticket_id ← text_at "ticket_id" fs
  onto ← expect (optional_text "onto" fs) (error invalid_request)
  rewrite_published ← flag_at "rewrite_published" fs
  ok (submit_reconcile_update_base ticket_id onto rewrite_published)

unfoldable pub check_resume : Fields → Result ProtocolError Call
unfolding same_set
check_resume fs = do
  require (same_set (keys fs) ("ticket_id" ∷ [])) (error invalid_request)
  ticket_id ← text_at "ticket_id" fs
  ok (submit_reconcile_resume ticket_id)

unfoldable pub check_auto : Fields → Result ProtocolError Call
unfolding same_set
check_auto fs = do
  require (same_set (keys fs) ("ticket_id" ∷ []) || same_set (keys fs) ("ticket_id" ∷ "onto" ∷ []))
      (error invalid_request)
  ticket_id ← text_at "ticket_id" fs
  onto ← expect (optional_text "onto" fs) (error invalid_request)
  ok (submit_reconcile_auto ticket_id onto)

unfoldable pub check_control : Fields → Result ProtocolError Call
unfolding same_set
check_control fs = do
  require (same_set (keys fs) ("from" ∷ "to" ∷ [])) (error invalid_request)
  from_head ← text_at "from" fs
  to_head ← text_at "to" fs
  ok (submit_reconcile_control from_head to_head)

-- The part of `dispatch_mutation` in front of the call that each branch ends with.
unfoldable pub check_mutation : Bool → String → Fields → Result ProtocolError Call
check_mutation offered method fs =
    if str_eq method "stop" || str_eq method "restart"
    then check_lifecycle offered method fs
    else if str_eq method "retry"
    then check_retry fs
    else if str_eq method "drop"
    then check_drop fs
    else if str_eq method "recover"
    then check_recover fs
    else if str_eq method "reconcile-update-base"
    then check_update_base fs
    else if str_eq method "reconcile-resume"
    then check_resume fs
    else if str_eq method "reconcile-auto"
    then check_auto fs
    else if str_eq method "reconcile-control"
    then check_control fs
    else err (error unknown_method)

abbrev pub is_unknown_method : Code → Bool
is_unknown_method unknown_method = true
is_unknown_method _ = false

module _ {S : Type 0} where
  -- `lifecycle is not None`
  abbrev pub is_offered : Option (String → String → Bool → Operation S) → Bool
  is_offered none = false
  is_offered (some f) = true

module _ {S : Type 0} (process : Process) (engine : Engine S) where
  -- `{"accepted": True, "instance_id": …, **lifecycle_result}`
  unfoldable pub accepted : Result Raised Fields × S → Result Raised Fields × S
  unfolding merge
  accepted (err e, s) = (err e, s)
  accepted (ok fs, s) = (
    ok (
        merge
          (field "accepted" (bool true) (field "instance_id" (str process.instance_id) no_fields))
          fs),
    s,
  )

  -- The callback, behind the check that there is one.
  abbrev pub call_lifecycle :
      Option (String → String → Bool → Operation S) → String → String → Bool → Operation S
  call_lifecycle none method id force s = (err (protocol (error unknown_method)), s)
  call_lifecycle (some f) method id force s = accepted (f method id force s)

  -- The call that a branch of `dispatch_mutation` ends with.
  unfoldable pub perform : Call → String → Operation S
  unfolding accepted
  perform (lifecycle method force) id s = call_lifecycle engine.lifecycle method id force s
  perform (submit_retry t force) id s = engine.retry t force id s
  perform (submit_drop t x) id s = engine.drop t x id s
  perform (submit_recover t x head) id s = engine.recover t x head id s
  perform (submit_reconcile_update_base t onto rewrite) id s =
      engine.reconcile_update_base t onto rewrite id s
  perform (submit_reconcile_resume t) id s = engine.reconcile_resume t id s
  perform (submit_reconcile_auto t onto) id s = engine.reconcile_auto t onto id s
  perform (submit_reconcile_control a b) id s = engine.reconcile_control a b id s

  unfoldable pub dispatch_mutation : IpcRequest → Operation S
  unfolding check_mutation
  dispatch_mutation r s = elim (check_mutation (is_offered engine.lifecycle) r.method r.payload) [
    | err e ↦ (err (protocol e), s)
    | ok call ↦ perform call r.request_id s
  ]

  abbrev is_true : Option Value → Bool
  is_true (some (bool b)) = b
  is_true _ = false

  -- `_service_identity`
  unfoldable pub service_identity : S → Result Raised Fields
  unfolding put get
  service_identity s =
      let identity = field "service" (str "devlegate") (
        field "version" (str process.version) (
          field "protocol_version" (int (pos 1)) (
            field "pid" (int (pos process.pid))
              (field "instance_id" (str process.instance_id) no_fields)))) in
      elim engine.lifecycle_status_payload [
        | none ↦ ok identity
        | some payload ↦ elim (payload s) [
          | err e ↦ err e
          | ok status ↦ ok (
              put "ready" (bool (is_true (get "ready" status)))
                (put "lifecycle" (obj status) identity))
        ]
      ]

  abbrev with_service : Result Raised Fields → S → Result Raised Fields
  with_service status s = do
    result ← status
    identity ← service_identity s
    ok (put "service" (obj identity) result)

  abbrev candidates : Result Raised Items → Result Raised Fields
  candidates items = items >>= (λ l. ok (field "candidates" (arr l) no_fields))

  unfoldable pub dispatch_read_only : IpcRequest → S → Result Raised Fields
  unfolding service_identity put
  dispatch_read_only r s =
      if str_eq r.method "ping"
      then service_identity s
      else if str_eq r.method "status"
      then with_service (engine.published_status_payload s) s
      else if str_eq r.method "plan"
      then engine.published_plan s
      else if str_eq r.method "retry-candidates"
      then candidates (engine.published_retry_candidates s)
      else if str_eq r.method "drop-candidates"
      then candidates (engine.published_drop_candidates s)
      else err (protocol (error unknown_method))

  -- The `except` clause of `dispatch_request`.
  unfoldable pub or_read_only : IpcRequest → Result Raised Fields × S → Result Raised Fields × S
  unfolding dispatch_read_only
  or_read_only r (err (protocol e), s) =
      if is_unknown_method e.code then (dispatch_read_only r s, s) else (err (protocol e), s)
  or_read_only r (err (other message), s) = (err (other message), s)
  or_read_only r (ok fs, s) = (ok fs, s)

  unfoldable pub dispatch_request : IpcRequest → Operation S
  unfolding dispatch_mutation or_read_only
  dispatch_request r s = or_read_only r (dispatch_mutation r s)
