-- ===== src/Ipc/Frame.antt =====
-- Length-prefixed frames of src/devlegate/ipc_protocol.py, over byte streams that deliver and accept
-- their bytes in pieces of any size.
pub mod Header
pub mod Receive
pub mod Flat
pub mod Encoded
pub mod Send
pub mod Bounds
use devlegate.Prelude.{
  ℕ, zero, suc, ◌+◌, ◌-◌, ◌*◌, ◌/◌, ◌%◌, ◌^◌, Bool, true, false, Option, none, some, List, [], ◌∷◌,
  ◌++◌, length, take, drop, ltb, leb, ◌==◌, if◌then◌else◌, Result, ok, err, ◌>>=◌, ◌&&◌,
}
use devlegate.Ipc.Errors.{
  Code, ProtocolError, oversized_frame, malformed_protocol, error, fatal_error,
}

abbrev pub max_payload_bytes : ℕ
max_payload_bytes = 1048576

-- `_HEADER.pack`: four bytes, the highest first.
unfoldable pub pack : ℕ → List ℕ
pack n = n / 2 ^ 24 % 256 ∷ n / 2 ^ 16 % 256 ∷ n / 2 ^ 8 % 256 ∷ n % 256 ∷ []

-- `_HEADER.unpack`. It is called on four bytes.
unfoldable pub unpack : List ℕ → ℕ
unpack (a ∷ b ∷ c ∷ d ∷ []) = ((a * 256 + b) * 256 + c) * 256 + d
unpack _ = 0

unfoldable pub encode_frame : List ℕ → Result ProtocolError (List ℕ)
unfolding pack
encode_frame payload =
    if ltb max_payload_bytes (length payload)
    then err (error oversized_frame)
    else ok (pack (length payload) ++ payload)

-- What a stream still has to say: a `read(n)` takes from its first piece, at most `n` bytes, and an
-- empty piece, like the end, reads as no bytes.
abbrev pub Stream : Type 0
Stream = List (List ℕ)

unfoldable pub read : ℕ → Stream → List ℕ × Stream
read n [] = ([], [])
read n (piece ∷ rest) =
    if leb (length piece) n then (piece, rest) else (take n piece, drop n piece ∷ rest)

-- What `_read_exact` returns: the bytes, or `None` at a clean end.
pub data Received : Type 0 where
  bytes : List ℕ → Received
  clean_eof : Received

unfoldable pub is_empty : List ℕ → Bool
is_empty [] = true
is_empty (x ∷ xs) = false

-- The loop of `_read_exact`: `got` is what `chunks` holds. The fuel bounds the rounds; it runs out
-- where the stream goes on sending pieces after `remaining` bytes, which it does not.
unfoldable pub read_loop :
    ℕ → Bool → ℕ → List ℕ → Stream → Option (Result ProtocolError Received × Stream)
unfolding read is_empty
read_loop fuel allow zero got s = some (ok (bytes got), s)
read_loop zero allow (suc n) got s = none
read_loop (suc fuel) allow (suc n) got s =
    let chunk = (read (suc n) s).0 in
    let after = (read (suc n) s).1 in
    let more = read_loop fuel allow (suc n - length chunk) (got ++ chunk) after in
    if is_empty chunk
    then if allow && is_empty got
      then some (ok clean_eof, after)
      else some (err (fatal_error malformed_protocol), after)
    else more

-- Each round that goes on reads at least one byte, so `size` rounds are enough.
unfoldable pub read_exact : ℕ → Bool → Stream → Option (Result ProtocolError Received × Stream)
read_exact size allow s = read_loop size allow size [] s

-- The part of `receive_frame` behind the header.
unfoldable pub receive_payload :
    Result ProtocolError Received → Stream → Option (Result ProtocolError Received × Stream)
receive_payload (err e) s = some (err e, s)
receive_payload (ok clean_eof) s = some (ok clean_eof, s)
receive_payload (ok (bytes header)) s =
    if ltb max_payload_bytes (unpack header)
    then some (err (fatal_error oversized_frame), s)
    else read_exact (unpack header) false s

unfoldable pub receive_frame : Stream → Option (Result ProtocolError Received × Stream)
receive_frame s = elim (read_exact 4 true s) [
  | none ↦ none
  | some (header, after) ↦ receive_payload header after
]

-- The loop of `send_frame` against the answers of `stream.write`: how many bytes it took, or nothing
-- for `None`. It returns the bytes that were written so far.
unfoldable pub send_loop :
    List (Option ℕ) → List ℕ → List ℕ → Result ProtocolError (Unit {0}) × List ℕ
send_loop answers [] out = (ok tt, out)
send_loop [] (x ∷ xs) out = (err (error malformed_protocol), out)
send_loop (none ∷ answers) (x ∷ xs) out = (err (error malformed_protocol), out)
send_loop (some zero ∷ answers) (x ∷ xs) out = (err (error malformed_protocol), out)
send_loop (some (suc w) ∷ answers) (x ∷ xs) out =
    send_loop answers (drop (suc w) (x ∷ xs)) (out ++ take (suc w) (x ∷ xs))

unfoldable pub send_frame : List (Option ℕ) → List ℕ → Result ProtocolError (Unit {0}) × List ℕ
send_frame answers payload = elim (encode_frame payload) [
  | err e ↦ (err e, [])
  | ok frame ↦ send_loop answers frame []
]
