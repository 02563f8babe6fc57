-- ===== src/Display/Font.antt =====
-- The table font5x8 of soft/bootloader/main/sd1306.cpp: five columns for each character from the
-- space to z.
use mstd.Prelude.{ℕ, List, [], ◌∷◌, Memory, get_or, ltb, if◌then◌else◌, length, ◌≡◌, refl}

unfoldable pub font5x8 : List ℕ
font5x8 =
    0x00 ∷ 0x00 ∷ 0x00 ∷ 0x00 ∷ 0x00 ∷ 0x00 ∷ 0x00 ∷ 0x2f ∷ 0x00 ∷ 0x00 ∷ 0x00 ∷ 0x07 ∷ 0x00 ∷ 0x07
    ∷ 0x00 ∷ 0x14 ∷ 0x7f ∷ 0x14 ∷ 0x7f ∷ 0x14 ∷ 0x24 ∷ 0x2a ∷ 0x7f ∷ 0x2a ∷ 0x12 ∷ 0x62 ∷ 0x64
    ∷ 0x08 ∷ 0x13 ∷ 0x23 ∷ 0x36 ∷ 0x49 ∷ 0x55 ∷ 0x22 ∷ 0x50 ∷ 0x00 ∷ 0x05 ∷ 0x03 ∷ 0x00 ∷ 0x00
    ∷ 0x00 ∷ 0x1c ∷ 0x22 ∷ 0x41 ∷ 0x00 ∷ 0x00 ∷ 0x41 ∷ 0x22 ∷ 0x1c ∷ 0x00 ∷ 0x14 ∷ 0x08 ∷ 0x3e
    ∷ 0x08 ∷ 0x14 ∷ 0x08 ∷ 0x08 ∷ 0x3e ∷ 0x08 ∷ 0x08 ∷ 0x00 ∷ 0x00 ∷ 0xa0 ∷ 0x60 ∷ 0x00 ∷ 0x08
    ∷ 0x08 ∷ 0x08 ∷ 0x08 ∷ 0x08 ∷ 0x00 ∷ 0x60 ∷ 0x60 ∷ 0x00 ∷ 0x00 ∷ 0x20 ∷ 0x10 ∷ 0x08 ∷ 0x04
    ∷ 0x02 ∷ 0x3e ∷ 0x51 ∷ 0x49 ∷ 0x45 ∷ 0x3e ∷ 0x00 ∷ 0x42 ∷ 0x7f ∷ 0x40 ∷ 0x00 ∷ 0x42 ∷ 0x61
    ∷ 0x51 ∷ 0x49 ∷ 0x46 ∷ 0x21 ∷ 0x41 ∷ 0x45 ∷ 0x4b ∷ 0x31 ∷ 0x18 ∷ 0x14 ∷ 0x12 ∷ 0x7f ∷ 0x10
    ∷ 0x27 ∷ 0x45 ∷ 0x45 ∷ 0x45 ∷ 0x39 ∷ 0x3c ∷ 0x4a ∷ 0x49 ∷ 0x49 ∷ 0x30 ∷ 0x01 ∷ 0x71 ∷ 0x09
    ∷ 0x05 ∷ 0x03 ∷ 0x36 ∷ 0x49 ∷ 0x49 ∷ 0x49 ∷ 0x36 ∷ 0x06 ∷ 0x49 ∷ 0x49 ∷ 0x29 ∷ 0x1e ∷ 0x00
    ∷ 0x36 ∷ 0x36 ∷ 0x00 ∷ 0x00 ∷ 0x00 ∷ 0x56 ∷ 0x36 ∷ 0x00 ∷ 0x00 ∷ 0x08 ∷ 0x14 ∷ 0x22 ∷ 0x41
    ∷ 0x00 ∷ 0x14 ∷ 0x14 ∷ 0x14 ∷ 0x14 ∷ 0x14 ∷ 0x00 ∷ 0x41 ∷ 0x22 ∷ 0x14 ∷ 0x08 ∷ 0x02 ∷ 0x01
    ∷ 0x51 ∷ 0x09 ∷ 0x06 ∷ 0x32 ∷ 0x49 ∷ 0x59 ∷ 0x51 ∷ 0x3e ∷ 0x7c ∷ 0x12 ∷ 0x11 ∷ 0x12 ∷ 0x7c
    ∷ 0x7f ∷ 0x49 ∷ 0x49 ∷ 0x49 ∷ 0x36 ∷ 0x3e ∷ 0x41 ∷ 0x41 ∷ 0x41 ∷ 0x22 ∷ 0x7f ∷ 0x41 ∷ 0x41
    ∷ 0x22 ∷ 0x1c ∷ 0x7f ∷ 0x49 ∷ 0x49 ∷ 0x49 ∷ 0x41 ∷ 0x7f ∷ 0x09 ∷ 0x09 ∷ 0x09 ∷ 0x01 ∷ 0x3e
    ∷ 0x41 ∷ 0x49 ∷ 0x49 ∷ 0x7a ∷ 0x7f ∷ 0x08 ∷ 0x08 ∷ 0x08 ∷ 0x7f ∷ 0x00 ∷ 0x41 ∷ 0x7f ∷ 0x41
    ∷ 0x00 ∷ 0x20 ∷ 0x40 ∷ 0x41 ∷ 0x3f ∷ 0x01 ∷ 0x7f ∷ 0x08 ∷ 0x14 ∷ 0x22 ∷ 0x41 ∷ 0x7f ∷ 0x40
    ∷ 0x40 ∷ 0x40 ∷ 0x40 ∷ 0x7f ∷ 0x02 ∷ 0x0c ∷ 0x02 ∷ 0x7f ∷ 0x7f ∷ 0x04 ∷ 0x08 ∷ 0x10 ∷ 0x7f
    ∷ 0x3e ∷ 0x41 ∷ 0x41 ∷ 0x41 ∷ 0x3e ∷ 0x7f ∷ 0x09 ∷ 0x09 ∷ 0x09 ∷ 0x06 ∷ 0x3e ∷ 0x41 ∷ 0x51
    ∷ 0x21 ∷ 0x5e ∷ 0x7f ∷ 0x09 ∷ 0x19 ∷ 0x29 ∷ 0x46 ∷ 0x46 ∷ 0x49 ∷ 0x49 ∷ 0x49 ∷ 0x31 ∷ 0x01
    ∷ 0x01 ∷ 0x7f ∷ 0x01 ∷ 0x01 ∷ 0x3f ∷ 0x40 ∷ 0x40 ∷ 0x40 ∷ 0x3f ∷ 0x1f ∷ 0x20 ∷ 0x40 ∷ 0x20
    ∷ 0x1f ∷ 0x3f ∷ 0x40 ∷ 0x38 ∷ 0x40 ∷ 0x3f ∷ 0x63 ∷ 0x14 ∷ 0x08 ∷ 0x14 ∷ 0x63 ∷ 0x07 ∷ 0x08
    ∷ 0x70 ∷ 0x08 ∷ 0x07 ∷ 0x61 ∷ 0x51 ∷ 0x49 ∷ 0x45 ∷ 0x43 ∷ 0x00 ∷ 0x7f ∷ 0x41 ∷ 0x41 ∷ 0x00
    ∷ 0x55 ∷ 0x2a ∷ 0x55 ∷ 0x2a ∷ 0x55 ∷ 0x00 ∷ 0x41 ∷ 0x41 ∷ 0x7f ∷ 0x00 ∷ 0x04 ∷ 0x02 ∷ 0x01
    ∷ 0x02 ∷ 0x04 ∷ 0x40 ∷ 0x40 ∷ 0x40 ∷ 0x40 ∷ 0x40 ∷ 0x00 ∷ 0x01 ∷ 0x02 ∷ 0x04 ∷ 0x00 ∷ 0x20
    ∷ 0x54 ∷ 0x54 ∷ 0x54 ∷ 0x78 ∷ 0x7f ∷ 0x48 ∷ 0x44 ∷ 0x44 ∷ 0x38 ∷ 0x38 ∷ 0x44 ∷ 0x44 ∷ 0x44
    ∷ 0x20 ∷ 0x38 ∷ 0x44 ∷ 0x44 ∷ 0x48 ∷ 0x7f ∷ 0x38 ∷ 0x54 ∷ 0x54 ∷ 0x54 ∷ 0x18 ∷ 0x08 ∷ 0x7e
    ∷ 0x09 ∷ 0x01 ∷ 0x02 ∷ 0x18 ∷ 0xa4 ∷ 0xa4 ∷ 0xa4 ∷ 0x7c ∷ 0x7f ∷ 0x08 ∷ 0x04 ∷ 0x04 ∷ 0x78
    ∷ 0x00 ∷ 0x44 ∷ 0x7d ∷ 0x40 ∷ 0x00 ∷ 0x40 ∷ 0x80 ∷ 0x84 ∷ 0x7d ∷ 0x00 ∷ 0x7f ∷ 0x10 ∷ 0x28
    ∷ 0x44 ∷ 0x00 ∷ 0x00 ∷ 0x41 ∷ 0x7f ∷ 0x40 ∷ 0x00 ∷ 0x7c ∷ 0x04 ∷ 0x18 ∷ 0x04 ∷ 0x78 ∷ 0x7c
    ∷ 0x08 ∷ 0x04 ∷ 0x04 ∷ 0x78 ∷ 0x38 ∷ 0x44 ∷ 0x44 ∷ 0x44 ∷ 0x38 ∷ 0xfc ∷ 0x24 ∷ 0x24 ∷ 0x24
    ∷ 0x18 ∷ 0x18 ∷ 0x24 ∷ 0x24 ∷ 0x18 ∷ 0xfc ∷ 0x7c ∷ 0x08 ∷ 0x04 ∷ 0x04 ∷ 0x08 ∷ 0x48 ∷ 0x54
    ∷ 0x54 ∷ 0x54 ∷ 0x20 ∷ 0x04 ∷ 0x3f ∷ 0x44 ∷ 0x40 ∷ 0x20 ∷ 0x3c ∷ 0x40 ∷ 0x40 ∷ 0x20 ∷ 0x7c
    ∷ 0x1c ∷ 0x20 ∷ 0x40 ∷ 0x20 ∷ 0x1c ∷ 0x3c ∷ 0x40 ∷ 0x30 ∷ 0x40 ∷ 0x3c ∷ 0x44 ∷ 0x28 ∷ 0x10
    ∷ 0x28 ∷ 0x44 ∷ 0x1c ∷ 0xa0 ∷ 0xa0 ∷ 0xa0 ∷ 0x7c ∷ 0x44 ∷ 0x64 ∷ 0x54 ∷ 0x4c ∷ 0x44 ∷ []

abbrev pub font_size : ℕ
font_size = 455

-- A read at an index of the table; `beyond` is what stands behind the table in memory.
unfoldable pub font_byte : Memory → ℕ → ℕ
font_byte beyond i = if ltb i font_size then get_or font5x8 i 0 else beyond i

pub length-font5x8 : length font5x8 ≡ font_size
unfolding font5x8
length-font5x8 = refl
