-- ===== src/Ipc/Frame/Encoded.antt =====
-- What `receive_frame` makes of an encoded frame and the bytes behind it.
use mathlib.Core.Path.{subst}
use mathlib.Core.List.{append_assoc}
use devlegate.Prelude.{
  ℕ, ◌+◌, ◌≤◌, ◌≡◌, refl, ap, ◌∙◌, List, ◌++◌, arith, length, take, drop, ltb, length-append,
  take-append, drop-append, Bool-cases, inl, inr, ok,
}
use devlegate.Ipc.Frame.{max_payload_bytes, pack, encode_frame, Stream, bytes}
use devlegate.Ipc.Frame.Header.{unpack-pack}
use devlegate.Ipc.Frame.Receive.{flat, IsBlocking}
use devlegate.Ipc.Frame.Flat.{receive_flat, Receives, receive_frame-Receives}

pack_split :
    (n : ℕ) (bs : List ℕ)
    → (take 4 (pack n ++ bs) ≡ pack n)
      × (drop 4 (pack n ++ bs) ≡ bs)
      × (length (pack n ++ bs) ≡ 4 + length bs)
unfolding pack
pack_split n bs = (refl, refl, omega arith)

payload_split :
    (n : ℕ) (payload rest : List ℕ)
    → length payload ≡ n
    → (take n (payload ++ rest) ≡ payload) × (drop n (payload ++ rest) ≡ rest)
payload_split n payload rest e = rw (← e) (take-append payload rest, drop-append payload rest)

receive_flat-frame :
    (payload rest : List ℕ)
    → length payload ≤ max_payload_bytes
    → receive_flat ((pack (length payload) ++ payload) ++ rest) ≡ (ok (bytes payload), rest)
receive_flat-frame payload rest h =
    rw (append_assoc (pack (length payload)) payload rest)
      (flat_frame (length payload) payload rest refl h)
  where
    flat_frame :
        (n : ℕ) (payload rest : List ℕ)
        → length payload ≡ n
        → n ≤ max_payload_bytes
        → receive_flat (pack n ++ (payload ++ rest)) ≡ (ok (bytes payload), rest)
    flat_frame n payload rest e h =
        let (front, back, size) = pack_split n (payload ++ rest) in
        let (taken, left) = payload_split n payload rest e in
        unfold receive_flat in
        rw (front, back, size)
          (rw (unpack-pack n (omega arith))
            (ground (arith, taken, left, length-append payload rest, e, h)))

pub encode_frame_parts :
    (payload frame : List ℕ)
    → encode_frame payload ≡ ok frame
    → (length payload ≤ max_payload_bytes) × (frame ≡ pack (length payload) ++ payload)
encode_frame_parts payload frame e = elim (Bool-cases (ltb max_payload_bytes (length payload))) [
  | inl over ↦ absurd (unfold encode_frame in ground (arith, over, e))
  | inr fits ↦ (ground (arith, fits), unfold encode_frame in ground (arith, fits, e))
]

-- Of the bytes of an encoded frame and more, `receive_frame` returns the payload and leaves the rest,
-- however they are cut into pieces.
pub receive_frame-encode_frame :
    (payload frame rest : List ℕ) (s : Stream)
    → encode_frame payload ≡ ok frame
    → IsBlocking s
    → flat s ≡ frame ++ rest
    → Receives s (ok (bytes payload), rest)
receive_frame-encode_frame payload frame rest s e b f =
    let (fits, shape) = encode_frame_parts payload frame e in
    subst (Receives s)
      (ap receive_flat (f ∙ ap (λ l. l ++ rest) shape) ∙ receive_flat-frame payload rest fits)
      (receive_frame-Receives s b)
