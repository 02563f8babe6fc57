-- ===== src/Display/Rows.antt =====
-- draw_text, row by row: the text's lines, and the 128 columns that each row is given.
use mstd.Prelude.{
  ℕ, zero, suc, ◌+◌, ◌%◌, ◌<◌, ◌≡◌, refl, ap, ap₂, inl, inr, some, List, [], ◌∷◌, Memory, length,
  ◌==◌, if◌then◌else◌, arith, Bool-cases,
}
use mstd.Display.Draw.{
  Display, newline, draw_char, draw_chars, select_row, clear_rest, draw_text_imp, draw_lines,
  draw_text,
}

-- The text before the first newline, and the text from there on.
abbrev pub line : List ℕ → List ℕ
line [] = []
line (c ∷ text) = if c == newline then [] else c ∷ line text

abbrev pub from_newline : List ℕ → List ℕ
from_newline [] = []
from_newline (c ∷ text) = if c == newline then c ∷ text else from_newline text

-- The lines of a text; a newline at its end leaves an empty one.
abbrev pub cons_first : ℕ → List (List ℕ) → List (List ℕ)
cons_first c [] = (c ∷ []) ∷ []
cons_first c (l ∷ ls) = (c ∷ l) ∷ ls

abbrev pub lines : List ℕ → List (List ℕ)
lines [] = [] ∷ []
lines (c ∷ text) = if c == newline then [] ∷ lines text else cons_first c (lines text)

module _ (beyond : Memory) where
  -- A line in each row, the rows one after another, from the last to the first again.
  unfoldable pub draw_rows : Display → ℕ → List (List ℕ) → Display
  draw_rows d y [] = d
  draw_rows d y (l ∷ ls) = draw_rows (draw_text_imp beyond d y l).0 ((y + 1) % 8) ls

  draw_chars-rest :
      (d : Display) (len : ℕ) (text : List ℕ) → (draw_chars beyond d len text).2 ≡ from_newline text
  unfolding draw_chars
  draw_chars-rest d len [] = refl
  draw_chars-rest d len (c ∷ text) =
      let (d', len') = draw_char beyond d len c in
      ground (arith, draw_chars-rest (draw_char beyond d len c).0 (draw_char beyond d len c).1 text)

  draw_chars-line :
      (d : Display) (len : ℕ) (text : List ℕ)
      → ((draw_chars beyond d len text).0 ≡ (draw_chars beyond d len (line text)).0)
        × ((draw_chars beyond d len text).1 ≡ (draw_chars beyond d len (line text)).1)
  unfolding draw_chars
  draw_chars-line d len [] = (refl, refl)
  draw_chars-line d len (c ∷ text) =
      let h = draw_chars-line (draw_char beyond d len c).0 (draw_char beyond d len c).1 text in
      ground (arith, h.0, h.1)

  -- A row shows the text up to its first newline, and the text from there on is left.
  draw_text_imp-line :
      (d : Display) (y : ℕ) (text : List ℕ)
      → ((draw_text_imp beyond d y text).0 ≡ (draw_text_imp beyond d y (line text)).0)
        × ((draw_text_imp beyond d y text).1 ≡ from_newline text)
  unfolding draw_text_imp
  draw_text_imp-line d y text =
      let h = draw_chars-line (select_row beyond d y) 0 text in
      (ap₂ (clear_rest beyond) h.0 h.1, draw_chars-rest (select_row beyond d y) 0 text)

  abbrev later_lines : List ℕ → List (List ℕ)
  later_lines [] = []
  later_lines (c ∷ text) = lines text

  lines-eq-line : (text : List ℕ) → lines text ≡ line text ∷ later_lines (from_newline text)
  lines-eq-line [] = refl
  lines-eq-line (c ∷ text) = ground (arith, lines-eq-line text)

  length-from_newline :
      (text : List ℕ) {c : ℕ} {t : List ℕ} → from_newline text ≡ c ∷ t → length t < length text
  length-from_newline [] e = cc
  length-from_newline (x ∷ text) {c} {t} e = elim (Bool-cases (x == newline)) [
    | inl b ↦ let e' : x ∷ text ≡ c ∷ t = rw b at e in ground (arith, ap length e')
    | inr b ↦ omega (arith, length-from_newline text (rw b at e))
  ]

  draw_lines-draw_rows :
      (fuel : ℕ) (d : Display) (y : ℕ) (text : List ℕ)
      → length text < fuel
      → draw_lines beyond fuel d y text ≡ some (draw_rows d y (lines text))
  unfolding draw_lines draw_rows
  draw_lines-draw_rows zero d y text h = elim h [ ]
  draw_lines-draw_rows (suc fuel) d y text h =
      split (from_newline text) refl
        (λ d' t lt. draw_lines-draw_rows fuel d' ((y + 1) % 8) t (omega arith))
    where
      imp : (draw_text_imp beyond d y text).0 ≡ (draw_text_imp beyond d y (line text)).0
      imp = (draw_text_imp-line d y text).0

      split :
          (rest : List ℕ)
          → from_newline text ≡ rest
          → ((d' : Display) (t : List ℕ)
              → length t < length text
              → draw_lines beyond fuel d' ((y + 1) % 8) t
                ≡ some (draw_rows d' ((y + 1) % 8) (lines t)))
          → draw_lines beyond (suc fuel) d y text ≡ some (draw_rows d y (lines text))
      split [] e rec =
          ground (arith, draw_text_imp-line d y text, ap later_lines e, lines-eq-line text)
      split (c ∷ t) e rec = ground (
        arith,
        draw_text_imp-line d y text,
        ap later_lines e,
        lines-eq-line text,
        rec (draw_text_imp beyond d y text).0 t (length-from_newline text e),
      )

  -- draw_text ends, and draws the lines of the text one to a row from row y on, going on at row 0
  -- behind row 7.
  pub draw_text-draw_rows :
      (d : Display) (y : ℕ) (text : List ℕ)
      → draw_text beyond d y text ≡ some (draw_rows d y (lines text))
  unfolding draw_text
  draw_text-draw_rows d y text = draw_lines-draw_rows (suc (length text)) d y text (omega arith)
