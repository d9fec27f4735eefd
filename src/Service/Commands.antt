-- ===== src/Service/Commands.antt =====
-- `OperatorCommand` and `_operator_ack` of src/devlegate/runtime.py.
use devlegate.Prelude.{
  ℕ, String, Bool, true, Option, none, some, str_eq, Result, ok, err, if◌then◌else◌,
}
use devlegate.Values.{Fields, str, bool, field, no_fields}

-- What the caller of `_submit_operator_command` gives.
pub record Request : Type 0 where
  pub method : String
  pub ticket_id : String
  pub request_id : String
  pub fingerprint : String
  pub onto : Option String
  pub execution_id : Option String
  pub rewrite_published : Bool
  pub force : Bool

-- `OperatorCommand`: the request, what the validation resolves, and the object's identity.
pub record Command : Type 0 where
  pub serial : ℕ
  pub request : Request
  pub onto : Option String
  pub resolution_class : Option String

abbrev optional : String → Option String → Fields → Fields
optional k none fs = fs
optional k (some s) fs = field k (str s) fs

abbrev accepted : Fields → Fields
accepted fs = field "accepted" (bool true) fs

abbrev ticket : String → Fields → Fields
ticket t fs = field "ticket_id" (str t) fs

unfoldable pub operator_ack :
    String → String → Option String → Option String → Option String → Result String Fields
operator_ack method t onto execution_id resolution_class =
    if str_eq method "retry"
    then ok (accepted (ticket t no_fields))
    else if str_eq method "drop"
    then elim execution_id [
      | none ↦ err "drop requires an exact execution identity"
      | some x ↦ ok (accepted (ticket t (field "execution_id" (str x) no_fields)))
    ]
    else if str_eq method "recover"
    then elim execution_id [
      | none ↦ err "recover requires an exact execution and observed branch HEAD"
      | some x ↦ elim onto [
        | none ↦ err "recover requires an exact execution and observed branch HEAD"
        | some head ↦ ok (
            accepted (
              ticket t (field "execution_id" (str x) (field "observed_head" (str head) no_fields))))
      ]
    ]
    else if str_eq method "reconcile-control"
    then elim onto [
      | none ↦ err "reconcile-control requires both control revisions"
      | some to ↦ ok (accepted (field "from" (str t) (field "to" (str to) no_fields)))
    ]
    else if str_eq method "reconcile-resume"
    then ok (accepted (ticket t no_fields))
    else if str_eq method "reconcile-update-base"
    then elim onto [
      | none ↦ err "reconciliation target was not resolved"
      | some to ↦ ok (accepted (ticket t (field "onto" (str to) no_fields)))
    ]
    else if str_eq method "reconcile-auto"
    then ok (
        accepted (
          ticket t (optional "onto" onto (optional "resolution_class" resolution_class no_fields))))
    else err "unsupported operator command"
