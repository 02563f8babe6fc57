-- ===== src/Display/Progress.antt =====
-- The progress indicator: a bar of 128 columns that rises through eight levels in each row.
use Prim.Native.Nat.{bit_or}
use mstd.Prelude.{
  ℕ, zero, suc, ◌+◌, ◌-◌, ◌*◌, ◌/◌, ◌%◌, ◌^◌, ◌≤◌, ◌<◌, ◌≡◌, refl, sym, ap, ◌∙◌, ◌≢◌, inl, inr,
  List, [], ◌∷◌, Memory, ltb, leb, arith, Bool-cases, ltb→lt, eq→==, ne→==,
}
use mstd.Display.Draw.{
  Display, send_cmd, clr_screen, enter_pi_row, setup_pi_row, start_pi, next_level, inc_pi, inc_pis,
}
use mstd.Display.Codes.{cb_data}

-- The byte of a column whose lowest l + 1 pixels are on.
abbrev pub level : ℕ → ℕ
level l = 2 ^ (l + 1) - 1

-- The indicator after k steps from the start of row r.
pub record IsBar (d : Display) (r k : ℕ) : Type 0 where
  pub count : d.pi_count ≡ k % 128
  pub column : d.pi_data ≡ level (k / 128 % 8)
  pub row : d.pi_row ≡ (r + k / 1024) % 8

pub level-next : (l : ℕ) → l < 7 → (bit_or (level l * 2) 1 % 256 ≡ level (l + 1)) × (level l ≢ 0xff)
level-next zero h = (refl, omega arith)
level-next (suc zero) h = (refl, omega arith)
level-next (suc (suc zero)) h = (refl, omega arith)
level-next (suc (suc (suc zero))) h = (refl, omega arith)
level-next (suc (suc (suc (suc zero)))) h = (refl, omega arith)
level-next (suc (suc (suc (suc (suc zero))))) h = (refl, omega arith)
level-next (suc (suc (suc (suc (suc (suc zero)))))) h = (refl, omega arith)
level-next (suc (suc (suc (suc (suc (suc (suc l))))))) h = absurd (omega arith)

module _ (beyond : Memory) where
  -- A transmission leaves the indicator alone.
  send_cmd-IsBar :
      (d : Display) (args : List (List ℕ)) (r k : ℕ) → IsBar d r k → IsBar (send_cmd d args) r k
  unfolding send_cmd
  send_cmd-IsBar d args r k b = ground (arith, b.count, b.column, b.row)

  enter_pi_row-fields :
      (d : Display) (row : ℕ)
      → let e = enter_pi_row beyond d row in (e.pi_row ≡ row) × (e.pi_data ≡ 1) × (e.pi_count ≡ 0)
  unfolding enter_pi_row send_cmd
  enter_pi_row-fields d row = ground arith

  setup_pi_row-fields :
      (d : Display) (row : ℕ)
      → row ≤ 8
      → let e = setup_pi_row beyond d row in
        (e.pi_row ≡ row % 8) × (e.pi_data ≡ 1) × (e.pi_count ≡ 0)
  unfolding setup_pi_row
  setup_pi_row-fields d row h =
      ground (arith, enter_pi_row-fields (clr_screen beyond d 0 8) 0, enter_pi_row-fields d row)

  next_level-IsBar :
      (d : Display) (r k c : ℕ)
      → k % 128 ≡ 127
      → IsBar d r k
      → IsBar (next_level beyond (record d { pi_count = c })) r (k + 1)
  unfolding next_level
  next_level-IsBar d r k c full b = elim (Bool-cases (ltb (k / 128 % 8) 7)) [
    | inl x ↦
        let l = level-next (k / 128 % 8) (ltb→lt _ _ x) in
        let s = setup_pi_row-fields (record d { pi_count = c }) d.pi_row (omega (arith, b.row)) in
        let up : k / 128 % 8 + 1 ≡ (k + 1) / 128 % 8 = omega (arith, ltb→lt _ _ x) in
        let data' : bit_or (d.pi_data * 2) 1 % 256 ≡ level ((k + 1) / 128 % 8) =
          ap (λ z. bit_or (z * 2) 1 % 256) b.column ∙ l.0 ∙ ap level up in
        rw (ne→== d.pi_data 0xff (λ e. l.1 (sym b.column ∙ e))) (record {
          count = s.2 ∙ omega arith;
          column = data';
          row = s.0 ∙ omega (arith, b.row, ltb→lt _ _ x);
        })
    | inr x ↦
        let top : k / 128 % 8 ≡ 7 = ground arith in
        let full' : d.pi_data ≡ 0xff = b.column ∙ ap level top in
        let start : 0 ≡ (k + 1) / 128 % 8 = omega arith in
        let s =
          setup_pi_row-fields (record d { pi_count = c }) (d.pi_row + 1) (omega (arith, b.row)) in
        rw (eq→== d.pi_data 0xff full') (record {
          count = s.2 ∙ omega arith;
          column = s.1 ∙ ap level start;
          row = s.0 ∙ omega (arith, b.row);
        })
  ]

  -- One step of the indicator.
  pub inc_pi-IsBar : (d : Display) (r k : ℕ) → IsBar d r k → IsBar (inc_pi beyond d) r (k + 1)
  unfolding inc_pi
  inc_pi-IsBar d r k b = elim (Bool-cases (leb 128 ((d.pi_count + 1) % 256))) [
    | inl x ↦
        let full : k % 128 ≡ 127 = ground (arith, b.count) in
        rw x (send_cmd-IsBar _ _ r (k + 1) (next_level-IsBar d r k ((d.pi_count + 1) % 256) full b))
    | inr x ↦
        let room : k % 128 < 127 = ground (arith, b.count) in
        rw x (
          send_cmd-IsBar _ _ r (k + 1) (record {
            count = omega (arith, b.count);
            column = b.column ∙ ap level (omega arith);
            row = b.row ∙ omega arith;
          }))
  ]

  inc_pis-IsBar :
      (n : ℕ) (d : Display) (r k : ℕ) → IsBar d r k → IsBar (inc_pis beyond n d) r (k + n)
  unfolding inc_pis
  inc_pis-IsBar zero d r k b = let e : k ≡ k + 0 = omega arith in rw (← e) b
  inc_pis-IsBar (suc n) d r k b =
      let e : k + 1 + n ≡ k + suc n = omega arith in
      rw (← e) (inc_pis-IsBar n (inc_pi beyond d) r (k + 1) (inc_pi-IsBar d r k b))

  -- After n steps from the start of row r, one of the eight, the indicator stands in row (r + n / 1024) % 8, at level
  -- n / 128 % 8 of it, n % 128 columns on.
  pub inc_pis-start_pi :
      (d : Display) (r n : ℕ) → r < 8 → IsBar (inc_pis beyond n (start_pi beyond d r)) r n
  unfolding start_pi
  inc_pis-start_pi d r n h =
      let s = setup_pi_row-fields (clr_screen beyond d r 8) r (omega arith) in
      let e : 0 + n ≡ n = omega arith in
      let b : IsBar (setup_pi_row beyond (clr_screen beyond d r 8) r) r 0 = record {
        count = s.2;
        column = s.1;
        row = s.0 ∙ omega arith;
      } in
      ap_bar e (inc_pis-IsBar n _ r 0 b)
    where
      ap_bar :
          {k : ℕ}
          → k ≡ n
          → IsBar (inc_pis beyond n (setup_pi_row beyond (clr_screen beyond d r 8) r)) r k
          → IsBar (inc_pis beyond n (setup_pi_row beyond (clr_screen beyond d r 8) r)) r n
      ap_bar e b = rw e at b

  -- The step at the end of the last row clears the whole screen and goes on at row 0: started in row
  -- r, the bar is wiped by its step number (8 - r) * 1024.
  pub inc_pi-wipes :
      (d : Display) (r k : ℕ)
      → IsBar d r k
      → r + k / 1024 ≡ 7
      → k % 1024 ≡ 1023
      → inc_pi beyond d
        ≡ send_cmd
            (enter_pi_row beyond (clr_screen beyond (record d { pi_count = 128 }) 0 8) 0)
            ((cb_data ∷ 1 ∷ []) ∷ [])
  unfolding inc_pi next_level setup_pi_row
  inc_pi-wipes d r k b last full =
      let top : k / 128 % 8 ≡ 7 = omega arith in
      let data' : d.pi_data ≡ 0xff = b.column ∙ ap level top in
      let row : d.pi_row ≡ 7 = omega (arith, b.row) in
      let count : d.pi_count ≡ 127 = omega (arith, b.count) in
      ground (arith, enter_pi_row-fields (clr_screen beyond (record d { pi_count = 128 }) 0 8) 0)
