-- ===== src/Display/Codes.antt =====
-- The control bytes, commands and settings of the SSD1306 as sd1306.cpp numbers them.
use mstd.Prelude.{ℕ}

-- enum CtrlByte
abbrev pub cb_cmd : ℕ
cb_cmd = 0x00

abbrev pub cb_data : ℕ
cb_data = 0x40

-- enum SD1306Cmds
pub data Command : Type 0 where
  contrast disp_ram disp_on normal inverted off on low_col_start_pm hi_col_start_pm : Command
  mem_mode set_col_addr set_page_addr set_page charge_pump nop start_line : Command
  col_seg_remap_dir col_seg_remap_swp mux_ratio com_scan_dir com_scan_swp disp_offset : Command
  com_pin_cfg freq precharge vcom_level iref fade_out zoom : Command

abbrev pub opcode : Command → ℕ
opcode contrast = 0x81
opcode disp_ram = 0xA4
opcode disp_on = 0xA5
opcode normal = 0xA6
opcode inverted = 0xA7
opcode off = 0xAE
opcode on = 0xAF
opcode low_col_start_pm = 0x00
opcode hi_col_start_pm = 0x10
opcode mem_mode = 0x20
opcode set_col_addr = 0x21
opcode set_page_addr = 0x22
opcode set_page = 0xB0
opcode charge_pump = 0x8D
opcode nop = 0xE3
opcode start_line = 0x40
opcode col_seg_remap_dir = 0xA0
opcode col_seg_remap_swp = 0xA1
opcode mux_ratio = 0xA8
opcode com_scan_dir = 0xC0
opcode com_scan_swp = 0xC8
opcode disp_offset = 0xD3
opcode com_pin_cfg = 0xDA
opcode freq = 0xD5
opcode precharge = 0xD9
opcode vcom_level = 0xDB
opcode iref = 0xAD
opcode fade_out = 0x23
opcode zoom = 0xD6

-- The settings that init sends: MM_Page, CPC_Alternative, VCL_083, CPS_75.
abbrev pub mm_page : ℕ
mm_page = 0x02

abbrev pub cpc_alternative : ℕ
cpc_alternative = 0x12

abbrev pub vcl_083 : ℕ
vcl_083 = 0x30

abbrev pub cps_75 : ℕ
cps_75 = 0x14
