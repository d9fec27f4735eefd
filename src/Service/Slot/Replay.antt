-- ===== src/Service/Slot/Replay.antt =====
-- A request that was admitted and is submitted again gets its answer from the receipt.
use mathlib.Core.Path.{subst}
use devlegate.Prelude.{
  ◌≡◌, inl, inr, refl, ap, ◌∙◌, String, Bool, false, Bool-cases, some, eq_refl, str_eq,
  if◌then◌else◌, ok, expect-eq-ok, bind_inversion, ok-injective, ◌>>=◌,
}
use devlegate.Values.{Value, Fields, obj, field, no_fields, get, put, as_dict}
use devlegate.Service.Commands.{Command}
use devlegate.Service.Receipts.{
  Receipt, read_receipt, present, found_receipt, mutable_receipt, make_receipt, record_receipt,
}
use devlegate.Service.Slot.{Slot, Submitted, as_submitted, replay, submit_reading, submit}
use devlegate.Service.Slot.Made.{IsResolved, ack, made}

get-put : (k : String) (v : Value) (fs : Fields) → get k (put k v fs) ≡ some v
unfolding get put
get-put k v no_fields = rw (eq_refl k) refl
get-put k v (field j w fs) = elim (Bool-cases (str_eq k j)) [
  | inl e ↦ rw (put, e, get, e) refl
  | inr e ↦ rw (put, e, get, e) (get-put k v fs)
]

looked_up :
    (k : String) (fs receipt : Fields) (r : Receipt)
    → read_receipt (obj receipt) ≡ ok r
    → mutable_receipt (obj (put k (obj receipt) fs)) k ≡ ok (some r)
unfolding mutable_receipt as_dict found_receipt
looked_up k fs receipt r read =
    ap (λ q. found_receipt (present q)) (get-put k (obj receipt) fs)
    ∙ ap (λ q. q >>= (λ z. ok (some z))) read

admitting_test :
    (b d : Bool) (x y z : Submitted × Slot)
    → b ≡ false
    → d ≡ false
    → (if b then x else if d then y else z) ≡ z
admitting_test b d x y z e f = rw (e, f) refl

module _ (c : Command) (i : IsResolved c) where
  -- A command whose receipt an admission has recorded: while the runtime state holds these receipts and
  -- the service neither drains nor shuts down, a submission of the same request keeps the slot and
  -- gets the answer that the admission gave, whatever else the slot does at that time.
  pub record_receipt-submit :
      (before recorded : Value) (s : Slot)
      → record_receipt c before ≡ ok recorded
      → s.receipts ≡ recorded
      → s.shutting_down ≡ false
      → s.draining ≡ false
      → submit c.request s ≡ (as_submitted (ack c i), s)
  unfolding record_receipt submit submit_reading
  record_receipt-submit before recorded s h same up admitting =
      let (fs, dict, h₁) =
        expect-eq-ok (as_dict before) "invalid mutable request receipt state" _ h in
      let (receipt, made_of, h₂) = bind_inversion (make_receipt c) _ h₁ in
      let (r, read, answer) = made c i receipt made_of in
      submitted r (found fs receipt r (ok-injective h₂) read) answer
    where
      found :
          (fs receipt : Fields) (r : Receipt)
          → obj (put c.request.request_id (obj receipt) fs) ≡ recorded
          → read_receipt (obj receipt) ≡ ok r
          → mutable_receipt recorded c.request.request_id ≡ ok (some r)
      found fs receipt r e read =
          subst (λ z. mutable_receipt z c.request.request_id ≡ ok (some r)) e
            (looked_up c.request.request_id fs receipt r read)

      submitted :
          (r : Receipt)
          → mutable_receipt recorded c.request.request_id ≡ ok (some r)
          → replay c.request r ≡ as_submitted (ack c i)
          → submit c.request s ≡ (as_submitted (ack c i), s)
      submitted r e answer =
          admitting_test s.shutting_down s.draining _ _ _ up admitting
          ∙ ap (λ m. submit_reading m c.request s)
              (ap (λ z. mutable_receipt z c.request.request_id) same ∙ e)
          ∙ ap (λ z. (z, s)) answer
