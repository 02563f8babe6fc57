-- ===== src/Board/Pins.antt =====
-- pins.h: the numbers of the pins, and their states in the loader as its comments give them. And
-- bit() of soft/bootloader/main/common.h.
use Prim.Native.Nat.{bit_or}
use mstd.Prelude.{ℕ, ◌^◌, Option, none, some, List, [], ◌∷◌, ◌==◌, ◌||◌, Bool, false, if◌then◌else◌}

abbrev pub pin_cdone : ℕ
pin_cdone = 23

abbrev pub pin_creset : ℕ
pin_creset = 22

abbrev pub pin_iob29b : ℕ
pin_iob29b = 18

abbrev pub pin_iob31b : ℕ
pin_iob31b = 5

abbrev pub pin_spi_miso : ℕ
pin_spi_miso = 17

abbrev pub pin_spi_mosi : ℕ
pin_spi_mosi = 16

abbrev pub pin_spi_sck : ℕ
pin_spi_sck = 4

abbrev pub pin_spi_ss : ℕ
pin_spi_ss = 2

abbrev pub pin_left : ℕ
pin_left = 36

abbrev pub pin_hit : ℕ
pin_hit = 39

abbrev pub pin_up : ℕ
pin_up = 34

abbrev pub pin_right : ℕ
pin_right = 35

abbrev pub pin_down : ℕ
pin_down = 32

abbrev pub pin_rom_dis3 : ℕ
pin_rom_dis3 = 26

abbrev pub pin_s_uknc : ℕ
pin_s_uknc = 27

abbrev pub pin_rom_dis1 : ℕ
pin_rom_dis1 = 13

abbrev pub pin_s_bk : ℕ
pin_s_bk = 21

abbrev pub pin_rom_dis2 : ℕ
pin_rom_dis2 = 19

abbrev pub pin_oled_scl : ℕ
pin_oled_scl = 33

abbrev pub pin_oled_sda : ℕ
pin_oled_sda = 25

-- The column "Loader state": "in/PU", "in" and "out, zero". The two pins of the I2C bus have none.
pub data PinState : Type 0 where
  pulled_up floating zero_output : PinState

abbrev is_any : List ℕ → ℕ → Bool
is_any [] p = false
is_any (q ∷ qs) p = (p == q) || is_any qs p

unfoldable pub loader_state : ℕ → Option PinState
loader_state p =
    if is_any
      (pin_cdone ∷ pin_iob29b ∷ pin_iob31b ∷ pin_spi_miso ∷ pin_spi_mosi ∷ pin_spi_sck ∷ pin_spi_ss
        ∷ pin_rom_dis3 ∷ pin_s_uknc ∷ pin_rom_dis1 ∷ pin_s_bk ∷ pin_rom_dis2 ∷ [])
      p
    then some pulled_up
    else if is_any (pin_left ∷ pin_hit ∷ pin_up ∷ pin_right ∷ pin_down ∷ []) p
    then some floating
    else if p == pin_creset
    then some zero_output
    else none

-- The mask of some pins, of numbers below 64.
unfoldable pub bit : List ℕ → ℕ
bit [] = 0
bit (p ∷ ps) = bit_or (2 ^ p) (bit ps)
