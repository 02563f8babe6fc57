-- ===== src/Display/Wipe.antt =====
-- Where the progress indicator draws: below the row it starts in, until it has run through the last
-- row and clears the screen.
use Prim.Native.Nat.{bit_or}
use mstd.Prelude.{
  ℕ, zero, suc, ◌+◌, ◌-◌, ◌/◌, ◌%◌, ◌≤◌, ◌<◌, ◌≡◌, refl, sym, ap, ◌∙◌, true, inl, inr, List, [],
  ◌∷◌, ◌++◌, append-nil, append_assoc, Memory, concat, replicate, ◌==◌, leb, arith, Bool-cases, ltb,
  ltb→lt, ==→eq,
}
use mstd.Display.Draw.{
  Display, send_cmd, select_row, clear_rest, draw_chars, draw_text_imp, clear_rows, clr_screen,
  enter_pi_row, setup_pi_row, start_pi, next_level, inc_pi, inc_pis,
}
use mstd.Display.Progress.{IsBar, level-next, inc_pis-start_pi}
use mstd.Display.Codes.{
  cb_cmd, cb_data, opcode, low_col_start_pm, hi_col_start_pm, mem_mode, mm_page, set_page,
}

-- The choice of a page, by a row that is drawn and by the indicator.
abbrev pub row_command : ℕ → List ℕ
row_command p =
    cb_cmd ∷ opcode low_col_start_pm ∷ opcode hi_col_start_pm ∷ bit_or (opcode set_page) p ∷ []

abbrev pub bar_command : ℕ → List ℕ
bar_command p =
    cb_cmd
    ∷ opcode low_col_start_pm
    ∷ opcode hi_col_start_pm
    ∷ opcode mem_mode
    ∷ mm_page
    ∷ opcode set_page
    ∷ bit_or (opcode set_page) p
    ∷ []

-- A transmission of data, or the choice of a page from r on.
pub data DrawsFrom (r : ℕ) : List ℕ → Type 0 where
  columns : (bytes : List ℕ) → DrawsFrom r (cb_data ∷ bytes)
  row : (p : ℕ) → r ≤ p → p < 8 → DrawsFrom r (row_command p)
  bar : (p : ℕ) → r ≤ p → p < 8 → DrawsFrom r (bar_command p)

abbrev pub AllFrom : ℕ → List (List ℕ) → Type 0
AllFrom r [] = Unit {0}
AllFrom r (t ∷ ts) = DrawsFrom r t × AllFrom r ts

AllFrom-append :
    (r : ℕ) (ts us : List (List ℕ)) → AllFrom r ts → AllFrom r us → AllFrom r (ts ++ us)
AllFrom-append r [] us h k = k
AllFrom-append r (t ∷ ts) us h k = (h.0, AllFrom-append r ts us h.1 k)

-- What has been transmitted on the way draws from row r on.
pub record Below (r : ℕ) (d d' : Display) : Type 0 where
  pub ts : List (List ℕ)
  pub bus : d'.bus ≡ d.bus ++ ts
  pub rows : AllFrom r ts
  pub dev : d'.dev ≡ d.dev

Below-refl : (r : ℕ) (d : Display) → Below r d d
Below-refl r d = record { ts = []; bus = sym (append-nil d.bus); rows = tt; dev = refl }

Below-trans : {r : ℕ} {d e f : Display} → Below r d e → Below r e f → Below r d f
Below-trans {r} {d} s t = record {
  ts = s.ts ++ t.ts;
  bus = t.bus ∙ ap (λ b. b ++ t.ts) s.bus ∙ append_assoc d.bus s.ts t.ts;
  rows = AllFrom-append r s.ts t.ts s.rows t.rows;
  dev = t.dev ∙ s.dev;
}

send_cmd-bus :
    (d : Display) (args : List (List ℕ))
    → d.dev ≡ true
    → send_cmd d args ≡ record d { bus = d.bus ++ (concat args ∷ []) }
unfolding send_cmd
send_cmd-bus d args on = ground arith

send_cmd-Below :
    (r : ℕ) (d : Display) (args : List (List ℕ))
    → d.dev ≡ true
    → DrawsFrom r (concat args)
    → Below r d (send_cmd d args)
unfolding send_cmd
send_cmd-Below r d args on h =
    rw on (record { ts = concat args ∷ []; bus = refl; rows = (h, tt); dev = refl })

-- The transmissions of a row that is cleared, and of the screen.
abbrev pub cleared_row : ℕ → List (List ℕ)
cleared_row p = row_command p ∷ (cb_data ∷ replicate 128 0) ∷ []

abbrev pub cleared_rows : ℕ → ℕ → List (List ℕ)
cleared_rows zero p = []
cleared_rows (suc n) p = cleared_row p ++ cleared_rows n (p + 1)

-- The transmissions of the step that leaves the last row.
abbrev pub wiped : List (List ℕ)
wiped = cleared_rows 8 0 ++ (bar_command 0 ∷ (cb_data ∷ 1 ∷ []) ∷ [])

module _ (beyond : Memory) where
  clear_row-bus :
      (d : Display) (p : ℕ)
      → d.dev ≡ true
      → p < 8
      → (draw_text_imp beyond d p []).0 ≡ record d { bus = d.bus ++ cleared_row p }
  unfolding draw_text_imp draw_chars select_row clear_rest
  clear_row-bus d p on h =
      let e : p % 8 ≡ p = omega arith in
      let zeros = (cb_data ∷ replicate 128 0) ∷ [] in
      ap (λ q. send_cmd (send_cmd d (row_command q ∷ [])) zeros) e
      ∙ ap (λ x. send_cmd x zeros) (send_cmd-bus d (row_command p ∷ []) on)
      ∙ send_cmd-bus (record d { bus = d.bus ++ (row_command p ∷ []) }) zeros on
      ∙ ap (λ (b : List (List ℕ)). record d { bus = b })
          (append_assoc d.bus (row_command p ∷ []) ((cb_data ∷ replicate 128 0) ∷ []))

  clear_rows-bus :
      (n : ℕ) (d : Display) (p : ℕ)
      → d.dev ≡ true
      → p + n ≤ 8
      → clear_rows beyond n d p ≡ record d { bus = d.bus ++ cleared_rows n p }
  unfolding clear_rows
  clear_rows-bus zero d p on h = ap (λ b. record d { bus = b }) (sym (append-nil d.bus))
  clear_rows-bus (suc n) d p on h =
      ap (λ x. clear_rows beyond n x (p + 1)) (clear_row-bus d p on (omega arith))
      ∙ clear_rows-bus n (record d { bus = d.bus ++ cleared_row p }) (p + 1) on (omega arith)
      ∙ ap (λ b. record d { bus = b }) (append_assoc d.bus (cleared_row p) (cleared_rows n (p + 1)))

  cleared_rows-AllFrom : (r n p : ℕ) → r ≤ p → p + n ≤ 8 → AllFrom r (cleared_rows n p)
  cleared_rows-AllFrom r zero p h k = tt
  cleared_rows-AllFrom r (suc n) p h k = (
    row p h (omega arith),
    (columns _, cleared_rows-AllFrom r n (p + 1) (omega arith) (omega arith)),
  )

  clr_screen-Below :
      (r : ℕ) (d : Display) → d.dev ≡ true → r < 8 → Below r d (clr_screen beyond d r 8)
  unfolding clr_screen
  clr_screen-Below r d on h = rw (clear_rows-bus (8 - r) d r on (omega arith)) (record {
    ts = cleared_rows (8 - r) r;
    bus = refl;
    rows = cleared_rows-AllFrom r (8 - r) r (omega arith) (omega arith);
    dev = refl;
  })

  setup_pi_row-Below :
      (r : ℕ) (d : Display) (p : ℕ)
      → d.dev ≡ true
      → r ≤ p
      → p < 8
      → Below r d (setup_pi_row beyond d p)
  unfolding setup_pi_row enter_pi_row send_cmd
  setup_pi_row-Below r d p on h k = elim (Bool-cases (leb 8 p)) [
    | inl b ↦ absurd (ground (arith, b, k))
    | inr b ↦
        rw (b, on)
          (record { ts = bar_command p ∷ []; bus = refl; rows = (bar p h k, tt); dev = refl })
  ]

  start_pi-Below : (r : ℕ) (d : Display) → d.dev ≡ true → r < 8 → Below r d (start_pi beyond d r)
  unfolding start_pi
  start_pi-Below r d on h =
      let c = clr_screen-Below r d on h in
      Below-trans c (setup_pi_row-Below r _ r (c.dev ∙ on) (omega arith) h)

  next_level-Below :
      (r : ℕ) (d : Display)
      → d.dev ≡ true
      → r ≤ d.pi_row
      → d.pi_row < 8
      → (d.pi_data ≡ 0xff → d.pi_row + 1 < 8)
      → Below r d (next_level beyond d)
  unfolding next_level
  next_level-Below r d on h k l = elim (Bool-cases (d.pi_data == 0xff)) [
    | inl b ↦ rw b (setup_pi_row-Below r d (d.pi_row + 1) on (omega arith) (l (==→eq _ _ b)))
    | inr b ↦
        let s = setup_pi_row-Below r d d.pi_row on h k in
        rw b (record { ts = s.ts; bus = s.bus; rows = s.rows; dev = s.dev })
  ]

  -- A step that does not leave the last row.
  inc_pi-Below :
      (r k : ℕ) (d : Display)
      → d.dev ≡ true
      → IsBar d r k
      → r + (k + 1) / 1024 < 8
      → Below r d (inc_pi beyond d)
  unfolding inc_pi
  inc_pi-Below r k d on b h = elim (Bool-cases (leb 128 ((d.pi_count + 1) % 256))) [
    | inl x ↦
        let full : k % 128 ≡ 127 = ground (arith, b.count) in
        let c = (d.pi_count + 1) % 256 in
        let last : d.pi_data ≡ 0xff → d.pi_row + 1 < 8 = λ e. last_row full e in
        let s =
          next_level-Below r (record d { pi_count = c }) on (omega (arith, b.row))
            (omega (arith, b.row)) last in
        let s' : Below r d (next_level beyond (record d { pi_count = c })) = record {
          ts = s.ts;
          bus = s.bus;
          rows = s.rows;
          dev = s.dev;
        } in
        rw x (Below-trans s' (send_cmd-Below r _ _ (s.dev ∙ on) (columns _)))
    | inr x ↦
        let s =
          send_cmd-Below r (record d { pi_count = (d.pi_count + 1) % 256 })
            ((cb_data ∷ d.pi_data ∷ []) ∷ []) on (columns _) in
        rw x (record { ts = s.ts; bus = s.bus; rows = s.rows; dev = s.dev })
  ]
    where
      last_row : k % 128 ≡ 127 → d.pi_data ≡ 0xff → d.pi_row + 1 < 8
      last_row full e = elim (Bool-cases (ltb (k / 128 % 8) 7)) [
        | inl y ↦ absurd ((level-next (k / 128 % 8) (ltb→lt _ _ y)).1 (sym b.column ∙ e))
        | inr y ↦ let top : k / 128 % 8 ≡ 7 = ground arith in omega (arith, b.row)
      ]

  inc_pis-suc :
      (n : ℕ) (d : Display) → inc_pis beyond (suc n) d ≡ inc_pi beyond (inc_pis beyond n d)
  unfolding inc_pis
  inc_pis-suc zero d = refl
  inc_pis-suc (suc n) d = inc_pis-suc n (inc_pi beyond d)

  -- Up to the last step in row 7 the bar that starts in row r draws from row r on.
  pub inc_pis-Below :
      (r n : ℕ) (d : Display)
      → d.dev ≡ true
      → r + n / 1024 < 8
      → Below r d (inc_pis beyond n (start_pi beyond d r))
  unfolding inc_pis
  inc_pis-Below r zero d on h = start_pi-Below r d on (omega arith)
  inc_pis-Below r (suc n) d on h =
      let s = inc_pis-Below r n d on (omega arith) in
      let b = inc_pis-start_pi beyond d r n (omega arith) in
      let room : r + (n + 1) / 1024 < 8 = omega arith in
      rw (inc_pis-suc n (start_pi beyond d r))
        (Below-trans s (inc_pi-Below r n _ (s.dev ∙ on) b room))
