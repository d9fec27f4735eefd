-- ===== src/Client/RoundTrip.antt =====
-- What the client reads of a status that a service published.
use devlegate.Prelude.{
  String, ◌≡◌, refl, Bool, true, Bool-cases, inl, inr, Option, none, some, List, [], ◌∷◌, In,
  str_eq, contains, subset, same_set,
}
use devlegate.Values.{
  Fields, obj, no_fields, get, put, keys, as_dict, as_text, as_bool, as_int, item_as, nullable_text,
  nullable_item,
}
use devlegate.Values.Int.{ℤ}
use devlegate.Views.{
  Titled, Blocked, Count, Integration, StatusSnapshot, dicts, dict_or_none, observation_as_dict,
  observations_as_dict, titled_as_dict, blocked_as_dict, failure_as_dict, counts_as_dict, if_bound,
  execution_as_dict, tickets_as_dict, lifecycle_as_dict, status_as_dict,
}
use devlegate.Client.Decode.{
  nullable, optional, decode_items, decode_list, decode_observation, decode_titled, decode_blocked,
  decode_failure,
}
use devlegate.Client.Items.{
  IsReason, IsPlan, nullable_text-text_or_null, decode_items-dicts, nullable-dict_or_none,
  decode_observation-as_dict, decode_titled-as_dict, decode_blocked-as_dict, decode_failure-as_dict,
  decode_plan-as_dict,
}
use devlegate.Client.Decode.Status.{
  decode_numbers, decode_counts, decode_integration, decode_lifecycle, decode_plan_item,
  decode_status,
}

abbrev pub count_of : String → ℤ → Count
count_of s n = record { state = s; number = n }

-- A count for each state, in the order of the states.
abbrev pub five : ℤ → ℤ → ℤ → ℤ → ℤ → List Count
five a b c d e =
    count_of "backlog" a
    ∷ count_of "todo" b
    ∷ count_of "review" c
    ∷ count_of "accepted" d
    ∷ count_of "done" e
    ∷ []

-- A text that Python takes for false.
abbrev pub unset : Option String → Bool
unset none = true
unset (some t) = str_eq t ""

-- A snapshot as the service builds it.
pub record IsSnapshot (s : StatusSnapshot) : Type 0 where
  pub counted : (a b c d e : ℤ) × (s.counts ≡ five a b c d e)
  pub unbound_stage : unset s.bound_ticket_id ≡ true → s.execution_stage ≡ none
  pub unbound_execution : unset s.bound_ticket_id ≡ true → s.execution_id ≡ none
  pub reasons : (b : Blocked) → In b s.blocked → IsReason b.reason
  pub planned : IsPlan s.plan
  pub integrating : (i : Integration) → s.lifecycle_integration ≡ some i → i.state ≡ "in-progress"

counts_lem :
    (cs : List Count)
    → ((a b c d e : ℤ) × (cs ≡ five a b c d e))
    → decode_counts (obj (counts_as_dict no_fields cs)) ≡ some cs
unfolding decode_counts decode_numbers counts_as_dict put keys as_dict as_int item_as get same_set
    subset contains
counts_lem cs (a, b, c, d, e, h) = rw h refl

if_bound_lem :
    (o x : Option String) → (unset o ≡ true → x ≡ none) → nullable_text (if_bound o x) ≡ some x
unfolding if_bound nullable_text
if_bound_lem none x h = rw (h refl) refl
if_bound_lem (some t) x h = elim (Bool-cases (str_eq t "")) [
  | inl e ↦ rw (e, h e) refl
  | inr e ↦ rw (e, nullable_text-text_or_null x) refl
]

lifecycle_lem :
    (o : Option Integration)
    → ((i : Integration) → o ≡ some i → i.state ≡ "in-progress")
    → decode_lifecycle (get "lifecycle" (lifecycle_as_dict o)) ≡ some o
unfolding decode_lifecycle lifecycle_as_dict optional nullable decode_integration as_dict as_text
    item_as get
lifecycle_lem none h = refl
lifecycle_lem (some i) h = rw (h i refl) refl

reconciliation_lem : (o : Option Fields) → nullable as_dict (dict_or_none (λ fs. fs) o) ≡ some o
reconciliation_lem o = nullable-dict_or_none (λ fs. fs) as_dict o (λ fs. unfold as_dict in refl)

titled_lem : (l : List Titled) → decode_items decode_titled (dicts titled_as_dict l) ≡ some l
titled_lem l = decode_items-dicts titled_as_dict decode_titled l (λ t m. decode_titled-as_dict t)

-- The client reads a status that the service built as the snapshot that it was made of, less the runnable
-- tickets, which a status does not carry and which no comparison of snapshots regards.
pub decode_status-as_dict :
    (s : StatusSnapshot)
    → IsSnapshot s
    → decode_status (status_as_dict s) ≡ some (record s { runnable = [] })
unfolding decode_status status_as_dict execution_as_dict observations_as_dict tickets_as_dict
    dict_or_none optional nullable decode_list decode_plan_item as_dict as_text as_bool item_as get
    nullable_item
decode_status-as_dict s h =
    rw
      (
        decode_items-dicts blocked_as_dict decode_blocked s.blocked
            (λ b m. decode_blocked-as_dict b (h.reasons b m)),
        nullable_text-text_or_null s.bound_ticket_id,
        decode_observation-as_dict s.code,
        nullable-dict_or_none observation_as_dict decode_observation s.control
            decode_observation-as_dict,
        counts_lem s.counts h.counted,
        titled_lem s.eligible,
        titled_lem s.review,
        titled_lem s.accepted,
        nullable-dict_or_none titled_as_dict decode_titled s.next_ticket decode_titled-as_dict,
        decode_plan-as_dict s.plan h.planned,
        decode_items-dicts failure_as_dict decode_failure s.failed_executions
            (λ f m. decode_failure-as_dict f),
        reconciliation_lem s.reconciliation,
        if_bound_lem s.bound_ticket_id s.execution_stage h.unbound_stage,
        if_bound_lem s.bound_ticket_id s.execution_id h.unbound_execution,
        nullable_text-text_or_null s.bound_ticket_title,
        lifecycle_lem s.lifecycle_integration h.integrating,
      )
      refl
