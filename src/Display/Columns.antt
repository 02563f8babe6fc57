-- ===== src/Display/Columns.antt =====
-- What a row transmits: the choice of its page, and data for each of its 128 columns.
use mstd.Prelude.{
  ℕ, ◌+◌, ◌-◌, ◌*◌, ◌%◌, ◌≤◌, ◌≡◌, refl, sym, ap, ◌∙◌, inl, inr, true, List, [], ◌∷◌, ◌++◌,
  append-nil, append_assoc, Memory, length, length-replicate, replicate, concat, ltb, ◌==◌, arith,
  Bool-cases, ltb→lt,
}
use Prim.Native.Nat.{bit_or}
use mstd.Display.Draw.{
  Display, newline, row_chars, send_cmd, glyph, draw_char, draw_chars, select_row, clear_rest,
  draw_text_imp,
}
use mstd.Display.Codes.{cb_data, cb_cmd, opcode, low_col_start_pm, hi_col_start_pm, set_page}

-- Transmissions of display data, and the number of data bytes in them.
abbrev pub IsData : List ℕ → Type 0
IsData [] = ⊥
IsData (b ∷ bytes) = b ≡ cb_data

abbrev pub AllData : List (List ℕ) → Type 0
AllData [] = Unit {0}
AllData (t ∷ ts) = IsData t × AllData ts

abbrev pub columns : List (List ℕ) → ℕ
columns [] = 0
columns (t ∷ ts) = length t - 1 + columns ts

AllData-append : (ts us : List (List ℕ)) → AllData ts → AllData us → AllData (ts ++ us)
AllData-append [] us h k = k
AllData-append (t ∷ ts) us h k = (h.0, AllData-append ts us h.1 k)

columns-append : (ts us : List (List ℕ)) → columns (ts ++ us) ≡ columns ts + columns us
columns-append [] us = omega arith
columns-append (t ∷ ts) us = omega (arith, columns-append ts us)

-- A step of drawing that has sent data for n columns and changed nothing else.
pub record Sent (d d' : Display) (n : ℕ) : Type 0 where
  pub ts : List (List ℕ)
  pub bus : d'.bus ≡ d.bus ++ ts
  pub only_data : AllData ts
  pub width : columns ts ≡ n
  pub dev : d'.dev ≡ d.dev
  pub pi_row : d'.pi_row ≡ d.pi_row
  pub pi_data : d'.pi_data ≡ d.pi_data
  pub pi_count : d'.pi_count ≡ d.pi_count

Sent-refl : (d : Display) → Sent d d 0
Sent-refl d = record {
  ts = [];
  bus = sym (append-nil d.bus);
  only_data = tt;
  width = refl;
  dev = refl;
  pi_row = refl;
  pi_data = refl;
  pi_count = refl;
}

Sent-trans : {d e f : Display} {k l n : ℕ} → Sent d e k → Sent e f l → n ≡ k + l → Sent d f n
Sent-trans {d} s t h = record {
  ts = s.ts ++ t.ts;
  bus = t.bus ∙ ap (λ b. b ++ t.ts) s.bus ∙ append_assoc d.bus s.ts t.ts;
  only_data = AllData-append s.ts t.ts s.only_data t.only_data;
  width = columns-append s.ts t.ts ∙ omega (arith, s.width, t.width);
  dev = t.dev ∙ s.dev;
  pi_row = t.pi_row ∙ s.pi_row;
  pi_data = t.pi_data ∙ s.pi_data;
  pi_count = t.pi_count ∙ s.pi_count;
}

send_cmd-Sent :
    (d : Display) (args : List (List ℕ)) (bytes : List ℕ) (n : ℕ)
    → d.dev ≡ true
    → concat args ≡ cb_data ∷ bytes
    → length bytes ≡ n
    → Sent d (send_cmd d args) n
unfolding send_cmd
send_cmd-Sent d args bytes n on e l = rw on (record {
  ts = concat args ∷ [];
  bus = refl;
  only_data = rw e (refl, tt);
  width = rw e (omega arith);
  dev = refl;
  pi_row = refl;
  pi_data = refl;
  pi_count = refl;
})

-- The display after the choice of the page of row y, from its first column on.
abbrev pub selected : Display → ℕ → Display
selected d y = record d {
  bus =
      d.bus
      ++ ((cb_cmd
            ∷ opcode low_col_start_pm
            ∷ opcode hi_col_start_pm
            ∷ bit_or (opcode set_page) (y % 8)
            ∷ [])
          ∷ []);
}

module _ (beyond : Memory) where
  draw_char-Sent :
      (d : Display) (len c : ℕ)
      → d.dev ≡ true
      → len ≤ row_chars
      → Sent d (draw_char beyond d len c).0 ((draw_char beyond d len c).1 * 6 - len * 6)
        × (len ≤ (draw_char beyond d len c).1)
        × ((draw_char beyond d len c).1 ≤ row_chars)
  unfolding draw_char glyph
  draw_char-Sent d len c on le = elim (Bool-cases (ltb len row_chars)) [
    | inl b ↦
        rw b (send_cmd-Sent d _ _ _ on refl (omega arith), omega arith, omega (arith, ltb→lt _ _ b))
    | inr b ↦
        let e : 0 ≡ len * 6 - len * 6 = omega arith in
        rw b (rw (← e) (Sent-refl d), omega arith, le)
  ]

  draw_chars-Sent :
      (d : Display) (len : ℕ) (text : List ℕ)
      → d.dev ≡ true
      → len ≤ row_chars
      → Sent d (draw_chars beyond d len text).0 ((draw_chars beyond d len text).1 * 6 - len * 6)
        × (len ≤ (draw_chars beyond d len text).1)
        × ((draw_chars beyond d len text).1 ≤ row_chars)
  unfolding draw_chars
  draw_chars-Sent d len [] on le =
      let e : 0 ≡ len * 6 - len * 6 = omega arith in (rw (← e) (Sent-refl d), omega arith, le)
  draw_chars-Sent d len (c ∷ text) on le = elim (Bool-cases (c == newline)) [
    | inl b ↦
        let e : 0 ≡ len * 6 - len * 6 = omega arith in
        rw b (rw (← e) (Sent-refl d), omega arith, le)
    | inr b ↦
        let h = draw_char-Sent d len c on le in
        let t =
          draw_chars-Sent (draw_char beyond d len c).0 (draw_char beyond d len c).1 text
            (h.0.dev ∙ on) h.2 in
        rw b (Sent-trans h.0 t.0 (omega (arith, h.1, t.1)), omega (arith, h.1, t.1), t.2)
  ]

  clear_rest-Sent :
      (d : Display) (len : ℕ)
      → d.dev ≡ true
      → len ≤ row_chars
      → Sent d (clear_rest beyond d len) (128 - len * 6)
  unfolding clear_rest
  clear_rest-Sent d len on le =
      send_cmd-Sent d _ (replicate (129 - len * 6 - 1) 0) _ on (append-nil _)
        (length-replicate (129 - len * 6 - 1) 0 ∙ omega arith)

  select_row-selected : (d : Display) (y : ℕ) → d.dev ≡ true → select_row beyond d y ≡ selected d y
  unfolding select_row send_cmd
  select_row-selected d y on = ground arith

  -- What draw_text_imp transmits to a display that is there: the choice of the page of row y, from
  -- its first column on, and then data for exactly the 128 columns of the row. It changes nothing
  -- of the progress indicator's state.
  pub draw_text_imp-Sent :
      (d : Display) (y : ℕ) (text : List ℕ)
      → d.dev ≡ true
      → Sent (selected d y) (draw_text_imp beyond d y text).0 128
  unfolding draw_text_imp
  draw_text_imp-Sent d y text on =
      let h = draw_chars-Sent (selected d y) 0 text on (omega arith) in
      let t =
        clear_rest-Sent (draw_chars beyond (selected d y) 0 text).0
          (draw_chars beyond (selected d y) 0 text).1 (h.0.dev ∙ on) h.2 in
      rw (select_row-selected d y on, draw_text_imp) (Sent-trans h.0 t (omega (arith, h.1, h.2)))
