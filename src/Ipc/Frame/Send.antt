-- ===== src/Ipc/Frame/Send.antt =====
-- What `send_frame` has written when it stops, and that a writer that takes bytes gets all of them.
use mathlib.Core.List.{append-nil, append_assoc}
use devlegate.Prelude.{
  err-ne-ok, ℕ, suc, zero, ◌+◌, ◌≤◌, ◌<◌, ◌≡◌, refl, ap, ◌∙◌, sym, Bool-cases, true, Option, none,
  some, List, [], ◌∷◌, ◌++◌, arith, length, take, drop, ltb, take-append-drop, length-drop,
  length-append, inl, inr, Result, ok, err,
}
use devlegate.Ipc.Errors.{ProtocolError, error, oversized_frame}
use devlegate.Ipc.Frame.{
  max_payload_bytes, pack, encode_frame, Stream, bytes, send_loop, send_frame,
}
use devlegate.Ipc.Frame.Header.{length-pack}
use devlegate.Ipc.Frame.Receive.{flat, IsBlocking}
use devlegate.Ipc.Frame.Flat.{Receives}
use devlegate.Ipc.Frame.Encoded.{receive_frame-encode_frame}

-- What was written is the pending bytes up to some point, and all of them after a normal return.
record Written (pending out : List ℕ) (r : Result ProtocolError (Unit {0}) × List ℕ) : Type 0 where
  rest : List ℕ
  prefix : r.1 ++ rest ≡ out ++ pending
  whole : r.0 ≡ ok tt → rest ≡ []

send_loop-Written :
    (answers : List (Option ℕ)) (pending out : List ℕ)
    → Written pending out (send_loop answers pending out)
send_loop-Written answers [] out =
    unfold send_loop in record { rest = []; prefix = refl; whole = λ _. refl }
send_loop-Written [] (x ∷ xs) out =
    unfold send_loop in record { rest = x ∷ xs; prefix = refl; whole = λ e. cc }
send_loop-Written (none ∷ answers) (x ∷ xs) out =
    unfold send_loop in record { rest = x ∷ xs; prefix = refl; whole = λ e. cc }
send_loop-Written (some zero ∷ answers) (x ∷ xs) out =
    unfold send_loop in record { rest = x ∷ xs; prefix = refl; whole = λ e. cc }
send_loop-Written (some (suc w) ∷ answers) (x ∷ xs) out =
    next answers w x xs out
      (send_loop-Written answers (drop (suc w) (x ∷ xs)) (out ++ take (suc w) (x ∷ xs)))
  where
    next :
        (answers : List (Option ℕ)) (w x : ℕ) (xs out : List ℕ)
        → Written
            (drop (suc w) (x ∷ xs))
            (out ++ take (suc w) (x ∷ xs))
            (send_loop answers (drop (suc w) (x ∷ xs)) (out ++ take (suc w) (x ∷ xs)))
        → Written (x ∷ xs) out (send_loop (some (suc w) ∷ answers) (x ∷ xs) out)
    next answers w x xs out r =
        unfold send_loop in
        record {
          rest = r.rest;
          prefix =
              r.prefix
              ∙ append_assoc out (take (suc w) (x ∷ xs)) (drop (suc w) (x ∷ xs))
              ∙ ap (λ l. out ++ l) (take-append-drop (suc w) (x ∷ xs));
          whole = r.whole;
        }

-- Every answer of the writer is a number of bytes above zero.
abbrev pub Progresses : List (Option ℕ) → Type 0
Progresses [] = Unit
Progresses (none ∷ answers) = ⊥
Progresses (some w ∷ answers) = (0 < w) × Progresses answers

send_loop_returns :
    (answers : List (Option ℕ)) (pending out : List ℕ)
    → Progresses answers
    → length pending ≤ length answers
    → (send_loop answers pending out).0 ≡ ok tt
unfolding send_loop
send_loop_returns answers [] out p h = refl
send_loop_returns [] (x ∷ xs) out p h = absurd (omega arith)
send_loop_returns (none ∷ answers) (x ∷ xs) out p h = absurd p
send_loop_returns (some zero ∷ answers) (x ∷ xs) out p h = absurd (omega arith)
send_loop_returns (some (suc w) ∷ answers) (x ∷ xs) out p h =
    send_loop_returns answers (drop w xs) (out ++ x ∷ take w xs) p.1
      (omega (arith, length-drop w xs))

send_frame-encode :
    (answers : List (Option ℕ)) (payload frame : List ℕ)
    → encode_frame payload ≡ ok frame
    → send_frame answers payload ≡ send_loop answers frame []
unfolding send_frame
send_frame-encode answers payload frame e = rw (e, send_frame) refl

-- A payload within the maximum is sent whole over a writer that takes at least one byte each time:
-- `send_frame` returns, and has written exactly the encoded frame.
pub send_frame-delivers :
    (answers : List (Option ℕ)) (payload : List ℕ)
    → length payload ≤ max_payload_bytes
    → Progresses answers
    → length payload + 4 ≤ length answers
    → (frame : List ℕ) × (encode_frame payload ≡ ok frame)
      × (send_frame answers payload ≡ (ok tt, frame))
send_frame-delivers answers payload fits p enough =
    let frame = pack (length payload) ++ payload in
    let coded : encode_frame payload ≡ ok frame = unfold encode_frame in ground (arith, fits) in
    let written = send_loop-Written answers frame [] in
    let done = send_loop_returns answers frame [] p (
      omega (arith, length-append (pack (length payload)) payload, length-pack (length payload))) in
    let all = written.whole done in
    (
      frame,
      coded,
      send_frame-encode answers payload frame coded
          ∙ pair_of (send_loop answers frame []) frame done (
              sym (append-nil (send_loop answers frame []).1)
              ∙ ap (λ l. (send_loop answers frame []).1 ++ l) (sym all)
              ∙ written.prefix),
    )
  where
    pair_of :
        (r : Result ProtocolError (Unit {0}) × List ℕ) (frame : List ℕ)
        → r.0 ≡ ok tt
        → r.1 ≡ frame
        → r ≡ (ok tt, frame)
    pair_of r frame a b = λ i. (a i, b i)

send_loop-eq-ok :
    (answers : List (Option ℕ)) (frame out : List ℕ)
    → send_loop answers frame [] ≡ (ok tt, out)
    → frame ≡ out
send_loop-eq-ok answers frame out e =
    let w = send_loop-Written answers frame [] in
    sym w.prefix
    ∙ ap (λ l. (send_loop answers frame []).1 ++ l) (w.whole (ap (λ r. r.0) e))
    ∙ append-nil (send_loop answers frame []).1
    ∙ ap (λ r. r.1) e

send_frame-oversized :
    (answers : List (Option ℕ)) (payload : List ℕ)
    → ltb max_payload_bytes (length payload) ≡ true
    → send_frame answers payload ≡ (err (error oversized_frame), [])
unfolding encode_frame send_frame
send_frame-oversized answers payload over = rw (over, send_frame) refl

pub send_frame-eq-ok :
    (answers : List (Option ℕ)) (payload out : List ℕ)
    → send_frame answers payload ≡ (ok tt, out)
    → encode_frame payload ≡ ok out
send_frame-eq-ok answers payload out e =
    elim (Bool-cases (ltb max_payload_bytes (length payload))) [
      | inl over ↦
          absurd (err-ne-ok (ap (λ r. r.0) (sym (send_frame-oversized answers payload over) ∙ e)))
      | inr fits ↦
          let frame = pack (length payload) ++ payload in
          let coded : encode_frame payload ≡ ok frame = unfold encode_frame in rw fits refl in
          coded
          ∙ ap ok (
              send_loop-eq-ok answers frame out
                (sym (send_frame-encode answers payload frame coded) ∙ e))
    ]

-- What one side has sent without an error the other side receives: the payload, and nothing of what
-- follows it, however the bytes were cut on either side.
pub send_frame-receive_frame :
    (answers : List (Option ℕ)) (payload out rest : List ℕ) (s : Stream)
    → send_frame answers payload ≡ (ok tt, out)
    → IsBlocking s
    → flat s ≡ out ++ rest
    → Receives s (ok (bytes payload), rest)
send_frame-receive_frame answers payload out rest s sent b f =
    receive_frame-encode_frame payload out rest s (send_frame-eq-ok answers payload out sent) b f
