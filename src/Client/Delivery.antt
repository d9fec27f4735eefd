-- ===== src/Client/Delivery.antt =====
-- What a request of the client comes to, by what its connections come to.
use devlegate.Prelude.{
  ok-ne-err, true-ne-false, ◌≡◌, ◌∙◌, ap, sym, refl, ◌⊎◌, inl, inr, true, false, Bool-cases, Option,
  str_eq, Option-cases, Result, Result-cases, ok, err,
}
use devlegate.Values.{Fields}
use devlegate.Ipc.Json.{Json, IsJson, sorted_fields}
use devlegate.Ipc.Message.{IpcResponse, parse_response}
use devlegate.Client.Answers.{Answered, request_once-Answered}
use devlegate.Client.Request.{
  ClientError, Connection, refused, broken, connected, Sent, unavailable, uncertain_outcome, lost,
  refusal, conclude, exchange, request_once, request_again, request,
}

module _ (json : Json) (q : Sent) where
  -- The error of a block that raised.
  raised :
      {A : Type 0} {m : Result ClientError A} {a b : ClientError} → m ≡ err a → m ≡ err b → b ≡ a
  raised h k = of_err (sym h ∙ k)
    where
      of_err :
          {A : Type 0} {a b : ClientError} → ◌≡◌ {A = Result ClientError A} (err a) (err b) → b ≡ a
      of_err h = cc

  -- What an error of one attempt at a mutable request says.
  pub data Outcome (c : Connection) (e : ClientError) : Type 0 where
    unsent : c ≡ refused → e ≡ unavailable → Outcome c e
    unknown : e ≡ uncertain_outcome → Outcome c e
    by_service : (details : Option Fields) → e ≡ refusal details → Outcome c e

  conclude-Outcome :
      (c : Connection) (r : IpcResponse) (e : ClientError)
      → q.mutable_request ≡ true
      → conclude q r ≡ err e
      → Outcome c e
  unfolding conclude
  conclude-Outcome c r e m h = elim (Bool-cases (str_eq r.request_id q.request_id)) [
    | inr other ↦ unknown (raised (rw (conclude, other) refl) h ∙ ap lost m)
    | inl same ↦ elim (Bool-cases r.ok) [
      | inr failed ↦ by_service r.error (raised (rw (conclude, same, failed) refl) h)
      | inl good ↦ elim (Option-cases r.result) [
        | inl absent ↦ unknown (raised (rw (conclude, same, good, absent) refl) h ∙ ap lost m)
        | inr (fs, there) ↦
            absurd (ok-ne-err {a = fs} (sym (rw (conclude, same, good, there) refl) ∙ h))
      ]
    ]
  ]

  request_once-Outcome :
      (c : Connection) (e : ClientError)
      → q.mutable_request ≡ true
      → request_once json q c ≡ err e
      → Outcome c e
  unfolding request_once
  request_once-Outcome refused e m h = unsent refl (raised refl h)
  request_once-Outcome broken e m h = unknown (raised refl h ∙ ap lost m)
  request_once-Outcome (connected answers reply) e m h =
      elim (Option-cases (exchange json q answers reply)) [
        | inl silent ↦ unknown (raised (rw (request_once, silent) refl) h ∙ ap lost m)
        | inr (payload, back) ↦ elim (Result-cases (parse_response json payload)) [
          | inl (x, bad) ↦ unknown (raised (rw (request_once, back, bad) refl) h ∙ ap lost m)
          | inr (r, good) ↦
              conclude-Outcome (connected answers reply) r e m
                (sym (rw (request_once, back, good) refl) ∙ h)
        ]
      ]

  refused_run : request_once json q refused ≡ err unavailable
  unfolding request_once
  refused_run = refl

  request-ok :
      (first second : Connection) (fs : Fields)
      → request_once json q first ≡ ok fs
      → request json q first second ≡ ok fs
  unfolding request
  request-ok first second fs h = rw (request, h) refl

  request-uncertain :
      (first second : Connection)
      → q.mutable_request ≡ true
      → request_once json q first ≡ err uncertain_outcome
      → request json q first second ≡ request_again json q second
  unfolding request
  request-uncertain first second m h = rw (request, h, m) refl

  request-certain :
      (first second : Connection) (e : ClientError)
      → e.uncertain ≡ false
      → request_once json q first ≡ err e
      → request json q first second ≡ err e
  unfolding request
  request-certain first second e certain h = elim (Bool-cases q.mutable_request) [
    | inl m ↦ rw (request, h, m, certain) refl
    | inr m ↦ rw (request, h, m) refl
  ]

  -- How a mutable request fails.
  pub data Failed (first : Connection) (e : ClientError) : Type 0 where
    never_sent : first ≡ refused → e ≡ unavailable → Failed first e
    outcome_unknown : ¬ (first ≡ refused) → e ≡ uncertain_outcome → Failed first e
    refused_by_service : (details : Option Fields) → e ≡ refusal details → Failed first e

  request_again-cases :
      (c : Connection) (e : ClientError)
      → q.mutable_request ≡ true
      → request_again json q c ≡ err e
      → (e ≡ uncertain_outcome) ⊎ ((details : Option Fields) × (e ≡ refusal details))
  unfolding request_again
  request_again-cases c e m h = elim (Result-cases (request_once json q c)) [
    | inr (fs, done) ↦ absurd (ok-ne-err {a = fs} (sym (rw (request_again, done) refl) ∙ h))
    | inl (x, failed) ↦ elim (request_once-Outcome c x m failed) [
      | unsent _ same ↦ inl (raised (rw (request_again, failed, same) refl) h)
      | unknown same ↦ inl (raised (rw (request_again, failed, same) refl) h)
      | by_service details same ↦ inr (details, raised (rw (request_again, failed, same) refl) h)
    ]
  ]

  -- A mutable request that fails was never sent, by a first connection that was refused; or its
  -- outcome is unknown, and the error says so; or the service answered with a refusal.
  pub request-Failed :
      (first second : Connection) (e : ClientError)
      → q.mutable_request ≡ true
      → request json q first second ≡ err e
      → Failed first e
  request-Failed first second e m h = elim (Result-cases (request_once json q first)) [
    | inr (fs, done) ↦ absurd (ok-ne-err {a = fs} (sym (request-ok first second fs done) ∙ h))
    | inl (x, failed) ↦ elim (request_once-Outcome first x m failed) [
      | unsent is_refused same ↦
          never_sent is_refused (
            raised (request-certain first second unavailable refl (failed ∙ ap (λ y. err y) same))
              h)
      | unknown same ↦
          elim (request_again-cases second e m
            (sym (request-uncertain first second m (failed ∙ ap (λ y. err y) same)) ∙ h)) [
              | inl unclear ↦
                  outcome_unknown
                    (λ r.
                      apart (sym same ∙ raised (ap (request_once json q) r ∙ refused_run) failed))
                    unclear
              | inr (details, e') ↦ refused_by_service details e'
            ]
      | by_service details same ↦ refused_by_service details (
          raised
            (request-certain first second (refusal details) refl (failed ∙ ap (λ y. err y) same)) h)
    ]
  ]
    where
      apart : uncertain_outcome ≡ unavailable → ⊥
      apart k = true-ne-false refl (ap (λ x. x.uncertain) k)

  -- The first connection has brought an answer of the service.
  abbrev pub Decides : Connection → Type 0
  Decides c =
      ((fs : Fields) × (request_once json q c ≡ ok fs))
      ⊎ ((details : Option Fields) × (request_once json q c ≡ err (refusal details)))

  -- A mutable request whose first connection was not refused, and whose second takes it and answers it,
  -- returns that answer, unless the first has brought an answer of the service already: then it returns
  -- that one.
  pub request-Recovers :
      ⦃law : IsJson json⦄ (first second : Connection) (result : Fields)
      → q.mutable_request ≡ true
      → ¬ (first ≡ refused)
      → Answered json q result second
      → (request json q first second ≡ ok (sorted_fields result))
        ⊎ ((request json q first second ≡ request_once json q first) × Decides first)
  unfolding request_again
  request-Recovers first second result m sent a = elim (Result-cases (request_once json q first)) [
    | inr (fs, done) ↦ inr (request-ok first second fs done ∙ sym done, inl (fs, done))
    | inl (x, failed) ↦ elim (request_once-Outcome first x m failed) [
      | unsent is_refused same ↦ absurd (sent is_refused)
      | unknown same ↦ inl (
          request-uncertain first second m (failed ∙ ap (λ y. err y) same)
          ∙ rw (request_again, request_once-Answered json q result second a) refl)
      | by_service details same ↦
          let refusing = failed ∙ ap (λ y. err y) same in
          inr (
            request-certain first second (refusal details) refl refusing ∙ sym refusing,
            inr (details, refusing),
          )
    ]
  ]
