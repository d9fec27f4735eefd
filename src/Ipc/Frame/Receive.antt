-- ===== src/Ipc/Frame/Receive.antt =====
-- How the bytes of a stream are cut into pieces does not show in what `receive_frame` returns.
use mathlib.Core.List.{append-nil, append_assoc}
use devlegate.Prelude.{
  ℕ, suc, zero, ◌-◌, ◌<◌, ◌≤◌, ◌≡◌, refl, ap, ◌∙◌, sym, Bool, false, ◌&&◌, Option, some, List, [],
  ◌∷◌, ◌++◌, arith, length, take, drop, leb, if◌then◌else◌, length-append, length-drop, length-take,
  take-append-drop, Bool-cases, inl, inr, Result, ok, err,
}
use devlegate.Ipc.Errors.{ProtocolError, malformed_protocol, fatal_error}
use devlegate.Ipc.Frame.{Stream, read, Received, bytes, clean_eof, is_empty, read_loop}
use devlegate.Ipc.Frame.Header.{take-append_le, drop-append_le}

-- The bytes of a stream.
abbrev pub flat : Stream → List ℕ
flat [] = []
flat (piece ∷ rest) = piece ++ flat rest

-- A blocking stream delivers no empty piece before its end.
abbrev pub IsBlocking : Stream → Type 0
IsBlocking [] = Unit
IsBlocking (piece ∷ rest) = (0 < length piece) × IsBlocking rest

record Taken (n : ℕ) (s : Stream) (r : List ℕ × Stream) : Type 0 where
  whole : r.0 ++ flat r.1 ≡ flat s
  fits : length r.0 ≤ n
  blocking : IsBlocking r.1

read-cons :
    (n : ℕ) (piece : List ℕ) (rest : Stream)
    → read n (piece ∷ rest)
      ≡ (if leb (length piece) n then (piece, rest) else (take n piece, drop n piece ∷ rest))
unfolding read
read-cons n piece rest = refl

read-Taken : (n : ℕ) (s : Stream) → IsBlocking s → Taken n s (read n s)
read-Taken n [] b = unfold read in record { whole = refl; fits = omega arith; blocking = tt }
read-Taken n (piece ∷ rest) b = elim (Bool-cases (leb (length piece) n)) [
  | inl small ↦ rw (read-cons, small) (record { whole = refl; fits = ground arith; blocking = b.1 })
  | inr large ↦
      rw (read-cons, large)
        (record {
          whole =
              sym (append_assoc (take n piece) (drop n piece) (flat rest))
              ∙ ap (λ l. l ++ flat rest) (take-append-drop n piece);
          fits = omega (arith, length-take n piece);
          blocking = (ground (arith, length-drop n piece), b.1);
        })
]

is_empty_pos : (l : List ℕ) → 0 < length l → is_empty l ≡ false
unfolding is_empty
is_empty_pos [] h = absurd (omega arith)
is_empty_pos (x ∷ l) h = refl

read_some :
    (n : ℕ) (piece : List ℕ) (rest : Stream)
    → 0 < n
    → 0 < length piece
    → 0 < length (read n (piece ∷ rest)).0
unfolding read
read_some n piece rest h k = ground (arith, length-take n piece)

-- What the loop returns, by the bytes alone.
unfoldable pub outcome : Bool → ℕ → List ℕ → List ℕ → Result ProtocolError Received
outcome allow n got bs =
    if leb n (length bs)
    then ok (bytes (got ++ take n bs))
    else if allow && is_empty (got ++ bs)
    then ok clean_eof
    else err (fatal_error malformed_protocol)

outcome_step :
    (allow : Bool) (n : ℕ) (got chunk bs : List ℕ)
    → 0 < length chunk
    → length chunk ≤ n
    → outcome allow (n - length chunk) (got ++ chunk) bs ≡ outcome allow n got (chunk ++ bs)
unfolding outcome
outcome_step allow n got chunk bs h k = ground (
  arith,
  append_assoc got chunk (take (n - length chunk) bs),
  append_assoc got chunk bs,
  take-append_le n chunk bs k,
  length-append chunk bs,
)

-- The loop ends within its fuel, with the outcome for the bytes of the stream, and leaves the rest.
pub record Looped (allow : Bool) (n : ℕ) (got : List ℕ) (s : Stream)
    (r : Option (Result ProtocolError Received × Stream)) : Type 0 where
  pub after : Stream
  pub returned : r ≡ some (outcome allow n got (flat s), after)
  pub left : flat after ≡ drop n (flat s)
  pub blocking : IsBlocking after

read_loop_round :
    (fuel : ℕ) (allow : Bool) (n : ℕ) (got : List ℕ) (s : Stream)
    → 0 < length (read (suc n) s).0
    → read_loop (suc fuel) allow (suc n) got s
      ≡ read_loop fuel allow
          (suc n - length (read (suc n) s).0)
          (got ++ (read (suc n) s).0)
          (read (suc n) s).1
unfolding read_loop
read_loop_round fuel allow n got s more = rw (is_empty_pos (read (suc n) s).0 more) refl

next_round :
    (fuel : ℕ) (allow : Bool) (n : ℕ) (got : List ℕ) (s : Stream)
    → Taken (suc n) s (read (suc n) s)
    → 0 < length (read (suc n) s).0
    → Looped allow
        (suc n - length (read (suc n) s).0)
        (got ++ (read (suc n) s).0)
        (read (suc n) s).1
        (read_loop fuel allow
          (suc n - length (read (suc n) s).0)
          (got ++ (read (suc n) s).0)
          (read (suc n) s).1)
    → Looped allow (suc n) got s (read_loop (suc fuel) allow (suc n) got s)
next_round fuel allow n got s t more l =
    let chunk = (read (suc n) s).0 in
    record {
      after = l.after;
      returned =
          read_loop_round fuel allow n got s more
          ∙ l.returned
          ∙ ap (λ r. some (r, l.after))
              (outcome_step allow (suc n) got chunk (flat (read (suc n) s).1) more t.fits
                ∙ ap (λ bs. outcome allow (suc n) got bs) t.whole);
      left =
          l.left
          ∙ sym (drop-append_le (suc n) chunk (flat (read (suc n) s).1) t.fits)
          ∙ ap (drop (suc n)) t.whole;
      blocking = l.blocking;
    }

pub read_loop-Looped :
    (fuel : ℕ) (allow : Bool) (n : ℕ) (got : List ℕ) (s : Stream)
    → n ≤ fuel
    → IsBlocking s
    → Looped allow n got s (read_loop fuel allow n got s)
read_loop-Looped fuel allow zero got s h b = record {
  after = s;
  returned = unfold read_loop outcome in ground (arith, append-nil got);
  left = refl;
  blocking = b;
}
read_loop-Looped zero allow (suc n) got s h b = absurd (omega arith)
read_loop-Looped (suc fuel) allow (suc n) got [] h b = record {
  after = [];
  returned = unfold read_loop outcome in ground (arith, append-nil got);
  left = refl;
  blocking = tt;
}
read_loop-Looped (suc fuel) allow (suc n) got (piece ∷ rest) h b =
    let s = piece ∷ rest in
    let t = read-Taken (suc n) s b in
    let more = read_some (suc n) piece rest (omega arith) b.0 in
    next_round fuel allow n got s t more (
      read_loop-Looped fuel allow (suc n - length (read (suc n) s).0) (got ++ (read (suc n) s).0)
        (read (suc n) s).1 (omega arith) t.blocking)
