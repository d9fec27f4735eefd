-- ===== src/WorkerText.antt =====
-- `_render_worker_text` of src/devlegate/worker_supervisor.py: how the text that a worker controls is
-- made inert before an operator's terminal shows it. A text is a list of code points, below 16 ^ 6.
-- `str.isprintable` of one character is not part of the repository, and a parameter.
pub mod Inert
mod Tests
use devlegate.Prelude.{
  ℕ, ◌+◌, ◌/◌, ◌%◌, ◌^◌, Bool, true, false, ◌&&◌, ◌||◌, List, [], ◌∷◌, ◌++◌, ltb, leb, ◌==◌,
  if◌then◌else◌,
}

-- A digit in hexadecimal, for a number below 16.
abbrev pub hex : ℕ → ℕ
hex d = if ltb d 10 then 48 + d else 87 + d

-- `{codepoint:02x}` of at most 0x7f
unfoldable pub two_digits : ℕ → List ℕ
two_digits c = hex (c / 16 % 16) ∷ hex (c % 16) ∷ []

unfoldable pub low_digits : ℕ → List ℕ
low_digits c = hex (c / 16 ^ 3 % 16) ∷ hex (c / 16 ^ 2 % 16) ∷ hex (c / 16 % 16) ∷ hex (c % 16) ∷ []

-- `{codepoint:04x}`
unfoldable pub four_digits : ℕ → List ℕ
unfolding low_digits
four_digits c =
    if ltb c (16 ^ 4)
    then low_digits c
    else if ltb c (16 ^ 5)
    then hex (c / 16 ^ 4 % 16) ∷ low_digits c
    else hex (c / 16 ^ 5 % 16) ∷ hex (c / 16 ^ 4 % 16) ∷ low_digits c

module _ (is_printable : ℕ → Bool) where
  -- The characters that are written as they are: newline, tab, and what can be shown.
  unfoldable pub is_shown : ℕ → Bool
  is_shown c = c == 10 || c == 9 || (leb 32 c && leb c 126) || is_printable c

  unfoldable pub render_character : ℕ → List ℕ
  unfolding is_shown two_digits four_digits
  render_character c =
      if is_shown c
      then c ∷ []
      else if leb c 127
      then 92 ∷ 120 ∷ two_digits c
      else 92 ∷ 117 ∷ four_digits c

  unfoldable pub render_worker_text : List ℕ → List ℕ
  unfolding render_character
  render_worker_text [] = []
  render_worker_text (c ∷ cs) = render_character c ++ render_worker_text cs
