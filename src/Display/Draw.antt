-- ===== src/Display/Draw.antt =====
-- class SSD1306 of sd1306.cpp and sd1306.h. The bus holds every transmission attempted, oldest
-- first; a transmission that fails is only logged by the code.
use Prim.Native.Nat.{bit_or}
use mstd.Prelude.{
  length, ℕ, zero, suc, ◌+◌, ◌-◌, ◌*◌, ◌%◌, Bool, true, Option, none, some, List, [], ◌∷◌, ◌++◌,
  Memory, concat, replicate, not, ltb, leb, ◌==◌, ◌||◌, if◌then◌else◌,
}
use mstd.Display.Font.{font_byte}
use mstd.Display.Codes.{
  cb_cmd, cb_data, opcode, contrast, disp_ram, normal, off, on, low_col_start_pm, hi_col_start_pm,
  mem_mode, set_page, charge_pump, start_line, col_seg_remap_dir, col_seg_remap_swp, mux_ratio,
  com_scan_dir, com_scan_swp, disp_offset, com_pin_cfg, freq, precharge, vcom_level, mm_page,
  cpc_alternative, vcl_083, cps_75,
}

pub record Display : Type 0 where
  -- dev is not null
  pub dev : Bool
  pub pi_row : ℕ
  pub pi_data : ℕ
  pub pi_count : ℕ
  pub bus : List (List ℕ)

-- The buffers of one call are transmitted one after another in one transaction.
unfoldable pub send_cmd : Display → List (List ℕ) → Display
send_cmd d args = if not d.dev then d else record d { bus = d.bus ++ (concat args ∷ []) }

-- What the I2C driver answers while the display is set up.
pub record I2C : Type 0 where
  pub new_master_bus : Bool
  pub probe : ℕ → Bool
  pub add_device : ℕ → Bool

abbrev pub newline : ℕ
newline = 10

-- The number of characters that fit into a row.
abbrev pub row_chars : ℕ
row_chars = 21

-- uint8_t sym = *text++ - ' '
abbrev pub symbol : ℕ → ℕ
symbol c = (c + 256 - 32) % 256

module _ (beyond : Memory) where
  -- The five bytes at font5x8 + sym * 5.
  unfoldable pub glyph : ℕ → List ℕ
  glyph sym =
      font_byte beyond (sym * 5)
      ∷ font_byte beyond (sym * 5 + 1)
      ∷ font_byte beyond (sym * 5 + 2)
      ∷ font_byte beyond (sym * 5 + 3)
      ∷ font_byte beyond (sym * 5 + 4)
      ∷ []

  -- One character, drawn if the row has room for it.
  unfoldable pub draw_char : Display → ℕ → ℕ → Display × ℕ
  draw_char d len c =
      if ltb len row_chars
      then (send_cmd d ((cb_data ∷ []) ∷ glyph (symbol c) ∷ (0 ∷ []) ∷ []), len + 1)
      else (d, len)

  -- The loop of draw_text_imp over a text without its final 0: the display, the number of
  -- characters drawn and the text left.
  unfoldable pub draw_chars : Display → ℕ → List ℕ → Display × ℕ × List ℕ
  draw_chars d len [] = (d, len, [])
  draw_chars d len (c ∷ text) =
      let (d', len') = draw_char d len c in
      let rest = draw_chars d' len' text in if c == newline then (d, len, c ∷ text) else rest

  -- The page of a row is y & 7.
  unfoldable pub select_row : Display → ℕ → Display
  select_row d y = send_cmd d (
      (cb_cmd
        ∷ opcode low_col_start_pm
        ∷ opcode hi_col_start_pm
        ∷ bit_or (opcode set_page) (y % 8)
        ∷ [])
      ∷ [])

  -- 129 - len * 6 bytes: the control byte and zeros.
  unfoldable pub clear_rest : Display → ℕ → Display
  clear_rest d len = send_cmd d ((cb_data ∷ replicate (129 - len * 6 - 1) 0) ∷ [])

  unfoldable pub draw_text_imp : Display → ℕ → List ℕ → Display × List ℕ
  draw_text_imp d y text =
      let (d', len, rest) = draw_chars (select_row d y) 0 text in (clear_rest d' len, rest)

  -- The loop of draw_text with fuel.
  unfoldable pub draw_lines : ℕ → Display → ℕ → List ℕ → Option Display
  draw_lines zero d y text = none
  draw_lines (suc fuel) d y text =
      let (d', rest) = draw_text_imp d y text in
      elim rest [ [] ↦ some d' | c ∷ text' ↦ draw_lines fuel d' ((y + 1) % 8) text' ]

  unfoldable pub draw_text : Display → ℕ → List ℕ → Option Display
  draw_text d y text = draw_lines (suc (length text)) d y text

  -- The loop of clr_screen with n rows left.
  unfoldable pub clear_rows : ℕ → Display → ℕ → Display
  clear_rows zero d row = d
  clear_rows (suc n) d row = clear_rows n (draw_text_imp d row []).0 (row + 1)

  unfoldable pub clr_screen : Display → ℕ → ℕ → Display
  clr_screen d row_start row_end = clear_rows (row_end - row_start) d row_start

  unfoldable pub set_contrast : Display → ℕ → Display
  set_contrast d ct = send_cmd d ((cb_cmd ∷ opcode contrast ∷ ct ∷ []) ∷ [])

  unfoldable pub swap_display : Display → Bool → Display
  swap_display d swp = send_cmd d (
      (if swp
        then cb_cmd ∷ opcode col_seg_remap_swp ∷ opcode com_scan_swp ∷ []
        else cb_cmd ∷ opcode col_seg_remap_dir ∷ opcode com_scan_dir ∷ [])
      ∷ [])

  -- setup_pi_row for a row below 8: the indicator starts again at the left of the row.
  unfoldable pub enter_pi_row : Display → ℕ → Display
  enter_pi_row d row =
      send_cmd (record d { pi_row = row; pi_data = 1; pi_count = 0 })
        ((cb_cmd
            ∷ opcode low_col_start_pm
            ∷ opcode hi_col_start_pm
            ∷ opcode mem_mode
            ∷ mm_page
            ∷ opcode set_page
            ∷ [])
          ∷ (bit_or (opcode set_page) row ∷ [])
          ∷ [])

  unfoldable pub setup_pi_row : Display → ℕ → Display
  setup_pi_row d row = if leb 8 row then enter_pi_row (clr_screen d 0 8) 0 else enter_pi_row d row

  unfoldable pub start_pi : Display → ℕ → Display
  start_pi d row = setup_pi_row (clr_screen d row 8) row

  -- The end of a row: the next level of the bar, or the next row.
  unfoldable pub next_level : Display → Display
  next_level d =
      if not (d.pi_data == 0xff)
      then (let new_pi_data = bit_or (d.pi_data * 2) 1 % 256 in
          record (setup_pi_row d d.pi_row) { pi_data = new_pi_data })
      else setup_pi_row d (d.pi_row + 1)

  unfoldable pub inc_pi : Display → Display
  inc_pi d =
      let count = (d.pi_count + 1) % 256 in
      let d' = record d { pi_count = count } in
      let e = if leb 128 count then next_level d' else d' in
      send_cmd e ((cb_data ∷ e.pi_data ∷ []) ∷ [])

  -- n rounds of the loop that advances the indicator.
  unfoldable pub inc_pis : ℕ → Display → Display
  inc_pis zero d = d
  inc_pis (suc n) d = inc_pis n (inc_pi d)

  abbrev pub init_seq : List ℕ
  init_seq =
      cb_cmd
      ∷ opcode off
      ∷ opcode freq
      ∷ 0x80
      ∷ opcode mux_ratio
      ∷ 0x3F
      ∷ opcode disp_offset
      ∷ 0
      ∷ opcode start_line
      ∷ opcode col_seg_remap_dir
      ∷ opcode com_scan_dir
      ∷ opcode com_pin_cfg
      ∷ cpc_alternative
      ∷ opcode contrast
      ∷ 0xCF
      ∷ opcode precharge
      ∷ 0xF1
      ∷ opcode vcom_level
      ∷ vcl_083
      ∷ opcode disp_ram
      ∷ opcode normal
      ∷ opcode charge_pump
      ∷ cps_75
      ∷ opcode mem_mode
      ∷ mm_page
      ∷ []

  -- The device is found at 0x3C or 0x3D; without it nothing is ever transmitted.
  unfoldable pub init : I2C → Display → Display
  init i2c d =
      if not i2c.new_master_bus
      then d
      else if not (i2c.probe 0x3C || i2c.probe 0x3D)
      then d
      else if not (i2c.add_device (if i2c.probe 0x3C then 0x3C else 0x3D))
      then d
      else (let d1 = send_cmd (record d { dev = true }) (init_seq ∷ []) in
          send_cmd (clr_screen d1 0 8) ((cb_cmd ∷ opcode on ∷ []) ∷ []))
