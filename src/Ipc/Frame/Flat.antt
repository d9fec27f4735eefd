-- ===== src/Ipc/Frame/Flat.antt =====
-- `receive_frame` as a function of the bytes alone, and what it makes of an encoded frame.
use mathlib.Core.Path.{subst}
use devlegate.Prelude.{
  ℕ, suc, zero, ◌≤◌, ◌≡◌, refl, ap, ◌∙◌, sym, true, false, some, List, [], ◌∷◌, arith, length, take,
  drop, ltb, ◌==◌, if◌then◌else◌, Bool-cases, inl, inr, Result, ok, err,
}
use devlegate.Ipc.Errors.{ProtocolError, oversized_frame, malformed_protocol, fatal_error}
use devlegate.Ipc.Frame.{
  max_payload_bytes, unpack, Stream, Received, bytes, clean_eof, is_empty, read_loop, read_exact,
  receive_payload, receive_frame,
}
use devlegate.Ipc.Frame.Receive.{flat, IsBlocking, outcome, Looped, read_loop-Looped}

-- One frame at the head of the bytes, and the bytes that it leaves: at the end nothing, within a
-- frame that the end cuts off an error, and for a length over the maximum an error that leaves the
-- payload unread.
unfoldable pub receive_flat : List ℕ → Result ProtocolError Received × List ℕ
receive_flat bs =
    let size = unpack (take 4 bs) in
    if length bs == 0
    then (ok clean_eof, [])
    else if ltb (length bs) 4
    then (err (fatal_error malformed_protocol), [])
    else if ltb max_payload_bytes size
    then (err (fatal_error oversized_frame), drop 4 bs)
    else if ltb (length (drop 4 bs)) size
    then (err (fatal_error malformed_protocol), [])
    else (ok (bytes (take size (drop 4 bs))), drop size (drop 4 bs))

drop_all : (n : ℕ) (bs : List ℕ) → length bs ≤ n → drop n bs ≡ []
drop_all zero [] h = refl
drop_all zero (b ∷ bs) h = absurd (omega arith)
drop_all (suc n) [] h = refl
drop_all (suc n) (b ∷ bs) h = drop_all n bs (omega arith)

header_outcome :
    (bs : List ℕ)
    → outcome true 4 [] bs ≡ (
        if length bs == 0
        then ok clean_eof
        else if ltb (length bs) 4
        then err (fatal_error malformed_protocol)
        else ok (bytes (take 4 bs)))
unfolding outcome is_empty
header_outcome [] = refl
header_outcome (a ∷ []) = refl
header_outcome (a ∷ b ∷ []) = refl
header_outcome (a ∷ b ∷ c ∷ []) = refl
header_outcome (a ∷ b ∷ c ∷ d ∷ bs) = ground arith

-- The two halves of `receive_frame`, each by the outcome of its read.
receive_frame_step :
    (s after : Stream) (h : Result ProtocolError Received)
    → read_loop 4 true 4 [] s ≡ some (h, after)
    → receive_frame s ≡ receive_payload h after
unfolding receive_frame read_exact
receive_frame_step s after h e = rw (e, receive_frame) refl

payload_outcome :
    (size : ℕ) (bs : List ℕ)
    → outcome false size [] bs ≡ (
        if ltb (length bs) size
        then err (fatal_error malformed_protocol)
        else ok (bytes (take size bs)))
unfolding outcome
payload_outcome size bs = ground arith

receive_payload-Looped :
    (header : List ℕ) (s : Stream)
    → ltb max_payload_bytes (unpack header) ≡ false
    → IsBlocking s
    → Looped false (unpack header) [] s (receive_payload (ok (bytes header)) s)
receive_payload-Looped header s fits b =
    subst (Looped false (unpack header) [] s) (sym (read_payload header s fits))
      (read_loop-Looped (unpack header) false (unpack header) [] s (omega arith) b)
  where
    read_payload :
        (header : List ℕ) (s : Stream)
        → ltb max_payload_bytes (unpack header) ≡ false
        → receive_payload (ok (bytes header)) s
          ≡ read_loop (unpack header) false (unpack header) [] s
    read_payload header s fits = unfold receive_payload read_exact in rw fits refl

receive_payload_oversized :
    (header : List ℕ) (s : Stream)
    → ltb max_payload_bytes (unpack header) ≡ true
    → receive_payload (ok (bytes header)) s ≡ some (err (fatal_error oversized_frame), s)
unfolding receive_payload
receive_payload_oversized header s over = rw over refl

pub record Receives (s : Stream) (r : Result ProtocolError Received × List ℕ) : Type 0 where
  pub after : Stream
  pub returned : receive_frame s ≡ some (r.0, after)
  pub left : flat after ≡ r.1
  pub blocking : IsBlocking after

module _ (s : Stream) (b : IsBlocking s) where
  abbrev bs : List ℕ
  bs = flat s

  header_read : Looped true 4 [] s (read_loop 4 true 4 [] s)
  header_read = read_loop-Looped 4 true 4 [] s (omega arith) b

  Receives-empty : (length bs == 0) ≡ true → Receives s (receive_flat bs)
  Receives-empty empty =
      let l = header_read in
      let spec : receive_flat bs ≡ (ok clean_eof, []) = unfold receive_flat in rw empty refl in
      let header : outcome true 4 [] bs ≡ ok clean_eof = header_outcome bs ∙ rw empty refl in
      rw spec (record {
        after = l.after;
        returned =
            receive_frame_step s l.after (ok clean_eof)
              (l.returned ∙ ap (λ h. some (h, l.after)) header)
            ∙ (unfold receive_payload in refl);
        left = l.left ∙ drop_all 4 bs (ground arith);
        blocking = l.blocking;
      })

  Receives-short :
      (length bs == 0) ≡ false → ltb (length bs) 4 ≡ true → Receives s (receive_flat bs)
  Receives-short filled short =
      let l = header_read in
      let cut : Result ProtocolError Received = err (fatal_error malformed_protocol) in
      let spec : receive_flat bs ≡ (cut, []) = unfold receive_flat in rw (filled, short) refl in
      let header : outcome true 4 [] bs ≡ cut = header_outcome bs ∙ rw (filled, short) refl in
      rw spec (record {
        after = l.after;
        returned =
            receive_frame_step s l.after cut (l.returned ∙ ap (λ h. some (h, l.after)) header)
            ∙ (unfold receive_payload in refl);
        left = l.left ∙ drop_all 4 bs (ground arith);
        blocking = l.blocking;
      })

  module _ (filled : (length bs == 0) ≡ false) (long : ltb (length bs) 4 ≡ false) where
    payload_follows : receive_frame s ≡ receive_payload (ok (bytes (take 4 bs))) header_read.after
    payload_follows = receive_frame_step s header_read.after (ok (bytes (take 4 bs))) (
        header_read.returned
        ∙ ap (λ h. some (h, header_read.after)) (header_outcome bs ∙ rw (filled, long) refl))

    Receives-oversized :
        ltb max_payload_bytes (unpack (take 4 bs)) ≡ true → Receives s (receive_flat bs)
    Receives-oversized over =
        let spec : receive_flat bs ≡ (err (fatal_error oversized_frame), drop 4 bs) =
          unfold receive_flat in rw (filled, long, over) refl in
        rw spec (record {
          after = header_read.after;
          returned = payload_follows ∙ receive_payload_oversized (take 4 bs) header_read.after over;
          left = header_read.left;
          blocking = header_read.blocking;
        })

    Receives-payload :
        ltb max_payload_bytes (unpack (take 4 bs)) ≡ false → Receives s (receive_flat bs)
    Receives-payload fits =
        let size = unpack (take 4 bs) in
        let m = receive_payload-Looped (take 4 bs) header_read.after fits header_read.blocking in
        let returned =
          payload_follows
          ∙ m.returned
          ∙ ap (λ r. some (r, m.after))
              (ap (outcome false size []) header_read.left ∙ payload_outcome size (drop 4 bs)) in
        let left = m.left ∙ ap (drop size) header_read.left in
        elim (Bool-cases (ltb (length (drop 4 bs)) size)) [
          | inl cut ↦
              let broken : Result ProtocolError Received = err (fatal_error malformed_protocol) in
              let spec : receive_flat bs ≡ (broken, []) =
                unfold receive_flat in rw (filled, long, fits, cut) refl in
              rw spec (record {
                after = m.after;
                returned = returned ∙ rw cut refl;
                left = left ∙ drop_all size (drop 4 bs) (ground (arith, cut));
                blocking = m.blocking;
              })
          | inr whole ↦
              let spec : receive_flat bs
                  ≡ (ok (bytes (take size (drop 4 bs))), drop size (drop 4 bs)) =
                unfold receive_flat in rw (filled, long, fits, whole) refl in
              rw spec (record {
                after = m.after;
                returned = returned ∙ rw whole refl;
                left = left;
                blocking = m.blocking;
              })
        ]

-- However a blocking stream cuts its bytes into pieces, `receive_frame` ends, and returns and leaves
-- what `receive_flat` says of the bytes.
pub receive_frame-Receives : (s : Stream) → IsBlocking s → Receives s (receive_flat (flat s))
receive_frame-Receives s b = elim (Bool-cases (length (flat s) == 0)) [
  | inl empty ↦ Receives-empty s b empty
  | inr filled ↦ elim (Bool-cases (ltb (length (flat s)) 4)) [
    | inl short ↦ Receives-short s b filled short
    | inr long ↦ elim (Bool-cases (ltb max_payload_bytes (unpack (take 4 (flat s))))) [
      | inl over ↦ Receives-oversized s b filled long over
      | inr fits ↦ Receives-payload s b filled long fits
    ]
  ]
]
