-- ===== src/WorkerText/Tests.antt =====
-- A text with an escape sequence, rendered.
use devlegate.Prelude.{ℕ, ◌≡◌, refl, inl, Bool, List, [], ◌∷◌, ◌&&◌, leb, arith}
use devlegate.WorkerText.{render_worker_text}
use devlegate.WorkerText.Inert.{AllInert, RefusesControls, render_worker_text-AllInert}

abbrev ascii : ℕ → Bool
ascii c = leb 32 c && leb c 126

ascii-RefusesControls : RefusesControls ascii
ascii-RefusesControls c h = (ground arith, inl (ground arith))

-- An escape, a letter, a newline and the control character 0x9b.
abbrev coloured : List ℕ
coloured = 27 ∷ 97 ∷ 10 ∷ 155 ∷ []

rendered_run :
    render_worker_text ascii coloured
    ≡ 92 ∷ 120 ∷ 49 ∷ 98 ∷ 97 ∷ 10 ∷ 92 ∷ 117 ∷ 48 ∷ 48 ∷ 57 ∷ 98 ∷ []
unfolding render_worker_text
rendered_run = refl

render_worker_text-AllInert_example :
    AllInert (render_worker_text ascii coloured)
    × (render_worker_text ascii (render_worker_text ascii coloured)
        ≡ render_worker_text ascii coloured)
render_worker_text-AllInert_example =
    render_worker_text-AllInert ascii ascii-RefusesControls coloured
