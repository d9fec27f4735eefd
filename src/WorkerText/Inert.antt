-- ===== src/WorkerText/Inert.antt =====
-- What an operator's terminal is given.
use devlegate.Prelude.{
  ℕ, ◌+◌, ◌/◌, ◌%◌, ◌^◌, ◌≤◌, ◌<◌, ◌≡◌, ◌⊎◌, inl, inr, refl, ap, Bool, true, Bool-cases, List, [],
  ◌∷◌, ◌++◌, ltb, leb, arith,
}
use devlegate.WorkerText.{
  hex, two_digits, low_digits, four_digits, is_shown, render_character, render_worker_text,
}

-- Newline, tab, or no control character.
abbrev pub IsInert : ℕ → Type 0
IsInert c = (c ≡ 10) ⊎ (c ≡ 9) ⊎ ((32 ≤ c) × ((c ≤ 126) ⊎ (160 ≤ c)))

abbrev pub AllInert : List ℕ → Type 0
AllInert [] = Unit {0}
AllInert (c ∷ cs) = IsInert c × AllInert cs

module _ (is_printable : ℕ → Bool) where
  abbrev AllShown : List ℕ → Type 0
  AllShown [] = Unit {0}
  AllShown (c ∷ cs) = (is_shown is_printable c ≡ true) × AllShown cs

  ascii-shown : (c : ℕ) → 32 ≤ c → c ≤ 126 → is_shown is_printable c ≡ true
  unfolding is_shown
  ascii-shown c low high = ground arith

  hex-shown : (d : ℕ) → d < 16 → is_shown is_printable (hex d) ≡ true
  hex-shown d h = elim (Bool-cases (ltb d 10)) [
    | inl e ↦ rw e (ascii-shown (48 + d) (omega arith) (ground arith))
    | inr e ↦ rw e (ascii-shown (87 + d) (omega arith) (omega arith))
  ]

  two_digits-AllShown : (c : ℕ) → AllShown (two_digits c)
  unfolding two_digits
  two_digits-AllShown c =
      (hex-shown (c / 16 % 16) (omega arith), (hex-shown (c % 16) (omega arith), tt))

  low_digits-AllShown : (c : ℕ) → AllShown (low_digits c)
  unfolding low_digits
  low_digits-AllShown c = (
    hex-shown (c / 16 ^ 3 % 16) (omega arith),
    (
      hex-shown (c / 16 ^ 2 % 16) (omega arith),
      (hex-shown (c / 16 % 16) (omega arith), (hex-shown (c % 16) (omega arith), tt)),
    ),
  )

  four_digits-AllShown : (c : ℕ) → AllShown (four_digits c)
  unfolding four_digits
  four_digits-AllShown c = elim (Bool-cases (ltb c (16 ^ 4))) [
    | inl e ↦ rw (four_digits, e) (low_digits-AllShown c)
    | inr e ↦ elim (Bool-cases (ltb c (16 ^ 5))) [
      | inl k ↦
          rw (four_digits, e, k) (hex-shown (c / 16 ^ 4 % 16) (omega arith), low_digits-AllShown c)
      | inr k ↦
          rw (four_digits, e, k)
            (
              hex-shown (c / 16 ^ 5 % 16) (omega arith),
              (hex-shown (c / 16 ^ 4 % 16) (omega arith), low_digits-AllShown c),
            )
    ]
  ]

  render_character-AllShown : (c : ℕ) → AllShown (render_character is_printable c)
  unfolding render_character
  render_character-AllShown c = elim (Bool-cases (is_shown is_printable c)) [
    | inl e ↦ rw (render_character, e) (e, tt)
    | inr e ↦ elim (Bool-cases (leb c 127)) [
      | inl k ↦
          rw (render_character, e, k)
            (
              ascii-shown 92 (omega arith) (omega arith),
              (ascii-shown 120 (omega arith) (omega arith), two_digits-AllShown c),
            )
      | inr k ↦
          rw (render_character, e, k)
            (
              ascii-shown 92 (omega arith) (omega arith),
              (ascii-shown 117 (omega arith) (omega arith), four_digits-AllShown c),
            )
    ]
  ]

  AllShown-append : (xs ys : List ℕ) → AllShown xs → AllShown ys → AllShown (xs ++ ys)
  AllShown-append [] ys h k = k
  AllShown-append (x ∷ xs) ys h k = (h.0, AllShown-append xs ys h.1 k)

  rendered-AllShown : (cs : List ℕ) → AllShown (render_worker_text is_printable cs)
  unfolding render_worker_text
  rendered-AllShown [] = tt
  rendered-AllShown (c ∷ cs) =
      AllShown-append (render_character is_printable c) (render_worker_text is_printable cs)
        (render_character-AllShown c) (rendered-AllShown cs)

  AllShown-stable : (cs : List ℕ) → AllShown cs → render_worker_text is_printable cs ≡ cs
  unfolding render_worker_text render_character
  AllShown-stable [] h = refl
  AllShown-stable (c ∷ cs) h =
      rw (render_worker_text, render_character, h.0) (ap (λ l. c ∷ l) (AllShown-stable cs h.1))

  -- `str.isprintable` says no of the control characters.
  abbrev pub RefusesControls : Type 0
  RefusesControls = (c : ℕ) → is_printable c ≡ true → (32 ≤ c) × ((c ≤ 126) ⊎ (160 ≤ c))

  shown-IsInert : RefusesControls → (c : ℕ) → is_shown is_printable c ≡ true → IsInert c
  unfolding is_shown
  shown-IsInert law c h = elim (Bool-cases (is_printable c)) [
    | inl e ↦ inr (inr (law c e))
    | inr e ↦ ground arith
  ]

  AllShown-AllInert : RefusesControls → (cs : List ℕ) → AllShown cs → AllInert cs
  AllShown-AllInert law [] h = tt
  AllShown-AllInert law (c ∷ cs) h = (shown-IsInert law c h.0, AllShown-AllInert law cs h.1)

  -- Where no control character is printable, the rendered text of a worker has none but newlines and tabs,
  -- whatever the worker wrote, and rendering it again changes nothing.
  pub render_worker_text-AllInert :
      RefusesControls
      → (cs : List ℕ)
      → AllInert (render_worker_text is_printable cs)
        × (render_worker_text is_printable (render_worker_text is_printable cs)
            ≡ render_worker_text is_printable cs)
  render_worker_text-AllInert law cs =
      let shown = rendered-AllShown cs in
      (
        AllShown-AllInert law (render_worker_text is_printable cs) shown,
        AllShown-stable (render_worker_text is_printable cs) shown,
      )
