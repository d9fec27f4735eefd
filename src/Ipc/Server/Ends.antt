-- ===== src/Ipc/Server/Ends.antt =====
-- The loop of a connection ends.
use mathlib.Core.Path.{subst}
use mathlib.Core.List.{append_assoc}
use devlegate.Prelude.{
  ℕ, zero, suc, ◌<◌, ◌≡◌, refl, sym, ap, ◌∙◌, String, Bool, true, false, Bool-cases, Result-cases,
  Option-cases, inl, inr, Option, some, List, ◌++◌, length, drop, take, ltb, ◌==◌, arith, Result,
  ok, err, ok-ne-err, if◌then◌else◌,
}
use devlegate.Values.{str}
use devlegate.Ipc.Errors.{ProtocolError, fatal_error, malformed_protocol, oversized_frame}
use devlegate.Ipc.Json.{Json}
use devlegate.Ipc.Frame.{
  Stream, Received, bytes, clean_eof, send_frame, receive_frame, max_payload_bytes, unpack,
}
use devlegate.Ipc.Frame.Receive.{flat, IsBlocking}
use devlegate.Ipc.Frame.Flat.{receive_flat, receive_frame-Receives}
use devlegate.Ipc.Frame.Bounds.{receive_frame-Bounded, returned_injective}
use devlegate.Ipc.Message.{encode_error_response}
use devlegate.Ipc.Calls.{Engine, Process}
use devlegate.Ipc.Server.{
  Round, Reply, silent, raised, reply, Turn, ended, next, code_text, refuse, fail, answer, deliver,
  serve_received, serve_round, serve_connection,
}

-- Where a loop goes on, it does so on a blocking stream of fewer bytes.
abbrev Shrinks : {S : Type 0} → ℕ → Turn S → Type 0
Shrinks n (ended s sent) = Unit {0}
Shrinks n (next s after sent) = IsBlocking after × (length (flat after) < n)

abbrev EndsLoop : Reply → Type 0
EndsLoop silent = Unit {0}
EndsLoop raised = Unit {0}
EndsLoop (reply response fatal) = fatal ≡ true

-- An error in a frame ends the connection.
receive_flat_fatal :
    (bs : List ℕ) (e : ProtocolError) → (receive_flat bs).0 ≡ err e → e.fatal ≡ true
unfolding receive_flat
receive_flat_fatal bs e h = elim (Bool-cases (length bs == 0)) [
  | inl a ↦ absurd (ok-ne-err (rw (receive_flat, a) at h))
  | inr a ↦ elim (Bool-cases (ltb (length bs) 4)) [
    | inl b ↦ of_fatal malformed_protocol (rw (receive_flat, a, b) at h)
    | inr b ↦ elim (Bool-cases (ltb max_payload_bytes (unpack (take 4 bs)))) [
      | inl c ↦ of_fatal oversized_frame (rw (receive_flat, a, b, c) at h)
      | inr c ↦ elim (Bool-cases (ltb (length (drop 4 bs)) (unpack (take 4 bs)))) [
        | inl d ↦ of_fatal malformed_protocol (rw (receive_flat, a, b, c, d) at h)
        | inr d ↦ absurd (ok-ne-err (rw (receive_flat, a, b, c, d) at h))
      ]
    ]
  ]
]
  where
    of_fatal :
        (c : _)
        → ◌≡◌ {A = Result ProtocolError Received} (err (fatal_error c)) (err e)
        → e.fatal ≡ true
    of_fatal c k = ap (λ q. elim q [ err x ↦ x.fatal | ok y ↦ true ]) (sym k)

module _ {S : Type 0} where
  deliver-EndsLoop :
      (n : ℕ) (writes : List (Option ℕ)) (r : Reply) (s : S) (after : Stream)
      → EndsLoop r
      → Shrinks n (deliver writes r s after)
  unfolding deliver
  deliver-EndsLoop n writes silent s after h = tt
  deliver-EndsLoop n writes raised s after h = tt
  deliver-EndsLoop n writes (reply response fatal) s after h =
      elim (Result-cases (send_frame writes response).0) [
        | inl (e, k) ↦ rw (deliver, k) tt
        | inr (u, k) ↦ rw (deliver, k, h) tt
      ]

  deliver-Shrinks :
      (n : ℕ) (writes : List (Option ℕ)) (r : Reply) (s : S) (after : Stream)
      → IsBlocking after
      → length (flat after) < n
      → Shrinks n (deliver writes r s after)
  unfolding deliver
  deliver-Shrinks n writes silent s after b h = tt
  deliver-Shrinks n writes raised s after b h = tt
  deliver-Shrinks n writes (reply response fatal) s after b h =
      elim (Result-cases (send_frame writes response).0) [
        | inl (e, k) ↦ rw (deliver, k) tt
        | inr (u, k) ↦ rw (deliver, k) (either fatal)
      ]
    where
      either :
          (fatal : Bool)
          → Shrinks n (
              if fatal
              then ended s (send_frame writes response).1
              else next s after (send_frame writes response).1)
      either true = tt
      either false = (b, h)

module _ {S : Type 0} (json : Json) (told : ProtocolError → String) (process : Process)
    (engine : Engine S) where
  refuse-EndsLoop :
      (id : String) (e : ProtocolError)
      → e.fatal ≡ true
      → EndsLoop (refuse json told process engine id e)
  unfolding refuse
  refuse-EndsLoop id e h =
      elim (Result-cases
        (encode_error_response json (str id) (str (code_text e.code)) (str (told e)))) [
          | inl (x, k) ↦ rw (refuse, k) tt
          | inr (response, k) ↦ rw (refuse, k) h
        ]

  fail-EndsLoop :
      (stops : Bool) (id message : String)
      → EndsLoop (fail json told process engine stops id message)
  unfolding fail
  fail-EndsLoop true id message = tt
  fail-EndsLoop false id message =
      elim (Result-cases
        (encode_error_response json (str id) (str "application_error") (str message))) [
          | inl (x, k) ↦ rw (fail, k) tt
          | inr (response, k) ↦ rw (fail, k) refl
        ]

  serve_received-Shrinks :
      (r : Round) (s : S) (input : Stream)
      → IsBlocking input
      → (v : Result ProtocolError Received) (after : Stream) → receive_frame input ≡ some (v, after)
      → Shrinks (length (flat input)) (serve_received json told process engine r s v after)
  unfolding serve_received
  serve_received-Shrinks r s input b (err e) after h =
      let m = receive_frame-Receives input b in
      deliver-EndsLoop (length (flat input)) r.writes (refuse json told process engine "" e) s after
        (refuse-EndsLoop "" e
          (receive_flat_fatal (flat input) e (returned_injective (sym m.returned ∙ h)).0))
  serve_received-Shrinks r s input b (ok clean_eof) after h = tt
  serve_received-Shrinks r s input b (ok (bytes payload)) after h =
      let m = receive_frame-Receives input b in
      let (fits, whole) = receive_frame-Bounded input after payload b h in
      elim (Bool-cases r.admits) [
        | inl k ↦
            rw (serve_received, k)
              (deliver-Shrinks (length (flat input)) r.writes
                (answer json told process engine r.stops payload s).0
                (answer json told process engine r.stops payload s).1 after
                (subst IsBlocking (returned_injective (sym m.returned ∙ h)).1 m.blocking)
                (omega (arith, whole)))
        | inr k ↦ rw (serve_received, k) tt
      ]

  serve_round-Shrinks :
      (r : Round) (s : S) (input : Stream)
      → IsBlocking input
      → Shrinks (length (flat input)) (serve_round json told process engine r s input)
  unfolding serve_round
  serve_round-Shrinks r s input b = elim (Bool-cases r.stopped) [
    | inl k ↦ rw (serve_round, k) tt
    | inr k ↦ elim (Option-cases r.unreadable) [
      | inr (message, u) ↦
          rw (serve_round, k, u)
            (deliver-EndsLoop (length (flat input)) r.writes
              (fail json told process engine r.stops "" message) s input
              (fail-EndsLoop r.stops "" message))
      | inl u ↦
          let m = receive_frame-Receives input b in
          rw (serve_round, k, u, m.returned)
            (serve_received-Shrinks r s input b (receive_flat (flat input)).0 m.after m.returned)
    ]
  ]

  -- On a blocking stream the loop of a connection ends, whatever the peer sends, the engine answers and
  -- the system does: as many rounds as the stream has bytes, and one more, are enough.
  pub serve_connection-Ends :
      (n : ℕ) (rounds : ℕ → Round) (s : S) (input : Stream) (out : List ℕ)
      → IsBlocking input
      → length (flat input) < n
      → (t : S) × (sent : List ℕ) × (serve_connection json told process engine n rounds s input out
          ≡ some (t, out ++ sent))
  unfolding serve_connection
  serve_connection-Ends zero rounds s input out b h = absurd (omega arith)
  serve_connection-Ends (suc n) rounds s input out b h =
      after_round (serve_round json told process engine (rounds 0) s input)
        (serve_round-Shrinks (rounds 0) s input b)
        (λ t after o b' h'. serve_connection-Ends n (λ i. rounds (suc i)) t after o b' h')
    where
      after_round :
          (turn : Turn S)
          → Shrinks (length (flat input)) turn
          → ((t : S) (after : Stream) (o : List ℕ)
              → IsBlocking after
              → length (flat after) < n
              → (u : S) × (sent : List ℕ) × (serve_connection json told process engine n
                    (λ i. rounds (suc i))
                    t
                    after
                    o
                  ≡ some (u, o ++ sent)))
          → (t : S) × (sent : List ℕ) × ◌≡◌ {A = Option (S × List ℕ)}
              (elim turn [
                | ended t' sent' ↦ some (t', out ++ sent')
                | next t' after sent' ↦
                    serve_connection json told process engine n
                      (λ i. rounds (suc i))
                      t'
                      after
                      (out ++ sent')
              ])
              (some (t, out ++ sent))
      after_round (ended t sent) k rest = (t, sent, refl)
      after_round (next t after sent) k rest =
          let (u, more, e) = rest t after (out ++ sent) k.0 (omega (arith, k.1, h)) in
          (u, sent ++ more, e ∙ ap (λ l. some (u, l)) (append_assoc out sent more))
