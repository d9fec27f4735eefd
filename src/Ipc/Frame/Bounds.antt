-- ===== src/Ipc/Frame/Bounds.antt =====
-- How much of a stream `receive_frame` of src/devlegate/ipc_protocol.py takes.
use mathlib.Core.Path.{subst}
use devlegate.Prelude.{
  ℕ, ◌+◌, ◌≤◌, ◌≡◌, sym, ap, ◌∙◌, false, Bool-cases, inl, inr, Option, some, List, length, take,
  drop, length-take, length-drop, ltb, ◌==◌, arith, Result, ok, err-ne-ok,
}
use devlegate.Ipc.Errors.{ProtocolError}
use devlegate.Ipc.Frame.{
  max_payload_bytes, unpack, Stream, Received, bytes, clean_eof, receive_frame,
}
use devlegate.Ipc.Frame.Receive.{flat, IsBlocking}
use devlegate.Ipc.Frame.Flat.{receive_flat, receive_frame-Receives}

-- A payload within the maximum, and exactly its frame taken off the bytes.
abbrev Bounded : List ℕ → List ℕ → List ℕ → Type 0
Bounded bs payload rest =
    (length payload ≤ max_payload_bytes) × (length rest + (4 + length payload) ≡ length bs)

bytes-injective :
    {p q : List ℕ} → ◌≡◌ {A = Result ProtocolError Received} (ok (bytes p)) (ok (bytes q)) → p ≡ q
bytes-injective h = cc

clean_eof-ne-bytes :
    {q : List ℕ} → ◌≡◌ {A = Result ProtocolError Received} (ok clean_eof) (ok (bytes q)) → ⊥
clean_eof-ne-bytes h = cc

taken :
    (size : ℕ) (bs : List ℕ)
    → ltb (length bs) 4 ≡ false
    → ltb max_payload_bytes size ≡ false
    → ltb (length (drop 4 bs)) size ≡ false
    → Bounded bs (take size (drop 4 bs)) (drop size (drop 4 bs))
taken size bs long fits whole = (
  ground (arith, length-take size (drop 4 bs)),
  ground (arith, length-take size (drop 4 bs), length-drop size (drop 4 bs), length-drop 4 bs),
)

receive_flat-Bounded :
    (bs payload : List ℕ)
    → (receive_flat bs).0 ≡ ok (bytes payload)
    → Bounded bs payload (receive_flat bs).1
unfolding receive_flat
receive_flat-Bounded bs payload h = elim (Bool-cases (length bs == 0)) [
  | inl e ↦ absurd (clean_eof-ne-bytes (rw (receive_flat, e) at h))
  | inr e ↦ elim (Bool-cases (ltb (length bs) 4)) [
    | inl e₁ ↦ absurd (err-ne-ok (rw (receive_flat, e, e₁) at h))
    | inr e₁ ↦ elim (Bool-cases (ltb max_payload_bytes (unpack (take 4 bs)))) [
      | inl e₂ ↦ absurd (err-ne-ok (rw (receive_flat, e, e₁, e₂) at h))
      | inr e₂ ↦ elim (Bool-cases (ltb (length (drop 4 bs)) (unpack (take 4 bs)))) [
        | inl e₃ ↦ absurd (err-ne-ok (rw (receive_flat, e, e₁, e₂, e₃) at h))
        | inr e₃ ↦
            let same = bytes-injective (rw (receive_flat, e, e₁, e₂, e₃) at h) in
            rw (receive_flat, e, e₁, e₂, e₃)
              (subst (λ p. Bounded bs p (drop (unpack (take 4 bs)) (drop 4 bs))) same
                (taken (unpack (take 4 bs)) bs e₁ e₂ e₃))
      ]
    ]
  ]
]

pub returned_injective :
    {v w : Result ProtocolError Received} {x y : Stream}
    → ◌≡◌ {A = Option (Result ProtocolError Received × Stream)} (some (v, x)) (some (w, y))
    → (v ≡ w) × (x ≡ y)
returned_injective k = (cc, cc)

-- Whatever a peer sends, in any pieces: a payload that `receive_frame` returns has at most
-- `max_payload_bytes` bytes, and its four bytes of length and itself are all that it has taken.
pub receive_frame-Bounded :
    (s after : Stream) (payload : List ℕ)
    → IsBlocking s
    → receive_frame s ≡ some (ok (bytes payload), after)
    → (length payload ≤ max_payload_bytes)
      × (length (flat after) + (4 + length payload) ≡ length (flat s))
receive_frame-Bounded s after payload b h =
    let r = receive_frame-Receives s b in
    let (value, rest) = returned_injective (sym r.returned ∙ h) in
    let (fits, whole) = receive_flat-Bounded (flat s) payload value in
    (fits, ap (λ l. length l + (4 + length payload)) (ap flat (sym rest) ∙ r.left) ∙ whole)
