-- ===== src/Display/Glyphs.antt =====
-- Which characters are drawn from the font table, whatever stands behind it in memory.
use mstd.Prelude.{
  ℕ, ◌+◌, ◌*◌, ◌%◌, ◌≤◌, ◌<◌, ◌≡◌, refl, sym, ap, ◌∙◌, ◌⊎◌, inl, inr, some, List, [], ◌∷◌, Memory,
  ◌==◌, if◌then◌else◌, arith, Bool-cases, lt→ltb,
}
use mstd.Display.Font.{font_byte, font_size}
use mstd.Display.Draw.{
  Display, newline, symbol, glyph, draw_char, draw_chars, select_row, clear_rest, draw_text_imp,
  draw_text,
}
use mstd.Display.Rows.{lines, cons_first, draw_rows, draw_text-draw_rows}

-- The characters of the table: from the space to z.
abbrev pub IsPrintable : ℕ → Type 0
IsPrintable c = (32 ≤ c) × (c ≤ 122)

abbrev pub AllPrintable : List ℕ → Type 0
AllPrintable [] = Unit {0}
AllPrintable (c ∷ text) = IsPrintable c × AllPrintable text

-- A text of several lines.
abbrev pub AllShown : List ℕ → Type 0
AllShown [] = Unit {0}
AllShown (c ∷ text) = ((c ≡ newline) ⊎ IsPrintable c) × AllShown text

AllLines : List (List ℕ) → Type 0
AllLines [] = Unit {0}
AllLines (l ∷ ls) = AllPrintable l × AllLines ls

font_byte-inside : (b b' : Memory) (i : ℕ) → i < font_size → font_byte b i ≡ font_byte b' i
unfolding font_byte
font_byte-inside b b' i h = rw (lt→ltb i font_size h)

glyph-inside : (b b' : Memory) (c : ℕ) → IsPrintable c → glyph b (symbol c) ≡ glyph b' (symbol c)
unfolding glyph
glyph-inside b b' c h = ground (
  arith,
  font_byte-inside b b' (symbol c * 5) (omega arith),
  font_byte-inside b b' (symbol c * 5 + 1) (omega arith),
  font_byte-inside b b' (symbol c * 5 + 2) (omega arith),
  font_byte-inside b b' (symbol c * 5 + 3) (omega arith),
  font_byte-inside b b' (symbol c * 5 + 4) (omega arith),
)

module _ (b b' : Memory) where
  draw_char-inside :
      (d : Display) (len c : ℕ) → IsPrintable c → draw_char b d len c ≡ draw_char b' d len c
  unfolding draw_char
  draw_char-inside d len c h = rw (glyph-inside b b' c h)

  draw_chars-inside :
      (d : Display) (len : ℕ) (text : List ℕ)
      → AllPrintable text
      → draw_chars b d len text ≡ draw_chars b' d len text
  unfolding draw_chars
  draw_chars-inside d len [] h = refl
  draw_chars-inside d len (c ∷ text) h = rw (draw_char-inside d len c h.0) (
      ap (λ r. if c == newline then (d, len, c ∷ text) else r)
        (draw_chars-inside (draw_char b' d len c).0 (draw_char b' d len c).1 text h.1))

  draw_text_imp-inside :
      (d : Display) (y : ℕ) (text : List ℕ)
      → AllPrintable text
      → draw_text_imp b d y text ≡ draw_text_imp b' d y text
  unfolding draw_text_imp select_row clear_rest
  draw_text_imp-inside d y text h = ground (arith, draw_chars-inside (select_row b d y) 0 text h)

  draw_rows-inside :
      (d : Display) (y : ℕ) (ls : List (List ℕ))
      → AllLines ls
      → draw_rows b d y ls ≡ draw_rows b' d y ls
  unfolding draw_rows AllLines
  draw_rows-inside d y [] h = refl
  draw_rows-inside d y (l ∷ ls) h =
      rw (draw_text_imp-inside d y l h.0)
        (draw_rows-inside (draw_text_imp b' d y l).0 ((y + 1) % 8) ls h.1)

AllLines-cons_first :
    (c : ℕ) (ls : List (List ℕ)) → IsPrintable c → AllLines ls → AllLines (cons_first c ls)
unfolding AllLines
AllLines-cons_first c [] h k = ((h, tt), tt)
AllLines-cons_first c (l ∷ ls) h k = ((h, k.0), k.1)

lines-AllLines : (text : List ℕ) → AllShown text → AllLines (lines text)
unfolding AllLines
lines-AllLines [] h = (tt, tt)
lines-AllLines (c ∷ text) h = elim (Bool-cases (c == newline)) [
  | inl e ↦ rw e (tt, lines-AllLines text h.1)
  | inr e ↦ rw e (
      AllLines-cons_first c (lines text) (elim h.0 [ inl n ↦ absurd (ground arith) | inr p ↦ p ])
        (lines-AllLines text h.1))
]

-- A text of newlines and characters from the space to z is drawn from the font table alone: what
-- stands behind the table in memory does not show.
pub draw_text-inside :
    (b b' : Memory) (d : Display) (y : ℕ) (text : List ℕ)
    → AllShown text
    → draw_text b d y text ≡ draw_text b' d y text
draw_text-inside b b' d y text h =
    draw_text-draw_rows b d y text
    ∙ ap some (draw_rows-inside b b' d y (lines text) (lines-AllLines text h))
    ∙ sym (draw_text-draw_rows b' d y text)
