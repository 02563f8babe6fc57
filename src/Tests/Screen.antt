-- ===== src/Tests/Screen.antt =====
-- Runs of the display.
use mstd.Prelude.{ℕ, ◌≡◌, inl, inr, refl, true, some, List, [], ◌∷◌, Memory, arith}
use mstd.Display.Draw.{Display, newline, draw_text_imp, draw_text, start_pi, inc_pis}
use mstd.Display.Rows.{draw_rows, draw_text-draw_rows}
use mstd.Display.Columns.{Sent, selected, draw_text_imp-Sent}
use mstd.Display.Progress.{IsBar, inc_pis-start_pi}
use mstd.Display.Glyphs.{draw_text-inside}

abbrev pub display : Display
display = record { dev = true; pi_row = 0; pi_data = 0; pi_count = 0; bus = [] }

-- What two boards may hold behind the font.
abbrev pub zeros : Memory
zeros i = 0

abbrev ones : Memory
ones i = 1

-- Two lines.
abbrev text : List ℕ
text = 72 ∷ 105 ∷ newline ∷ 33 ∷ []

draw_text-draw_rows_example :
    draw_text zeros display 3 text
    ≡ some (draw_rows zeros display 3 ((72 ∷ 105 ∷ []) ∷ (33 ∷ []) ∷ []))
draw_text-draw_rows_example = draw_text-draw_rows zeros display 3 text

draw_text_imp-Sent_example : Sent (selected display 3) (draw_text_imp zeros display 3 text).0 128
draw_text_imp-Sent_example = draw_text_imp-Sent zeros display 3 text refl

inc_pis-start_pi_example : IsBar (inc_pis zeros 2047 (start_pi zeros display 6)) 6 2047
inc_pis-start_pi_example = inc_pis-start_pi zeros display 6 2047 (omega arith)

draw_text-inside_example : draw_text zeros display 3 text ≡ draw_text ones display 3 text
draw_text-inside_example = draw_text-inside zeros ones display 3 text (
  inr (omega arith, omega arith),
  (inr (omega arith, omega arith), (inl refl, (inr (omega arith, omega arith), tt))),
)
