-- ===== src/Board/Test.antt =====
-- bit(), pins_init and hw_init of soft/test-hw/main: the pins as the FPGA loader needs them, and the
-- SPI bus.
use Prim.Native.Nat.{bit_or}
use mstd.Prelude.{ℕ, ◌^◌, ◌*◌, Bool, true, false, none, List, [], ◌∷◌, Memory, ltb, if◌then◌else◌}
use mstd.Display.Draw.{I2C}
use mstd.Driver.Calls.{
  Driver, GpioMode, mode_input, mode_output, gpio_config, gpio_set_level, spi_bus_initialize,
  spi_bus_add_device, SpiBus, SpiDevice,
}
use mstd.Driver.Run.{Program, ◌>>◌, ignore, check}
use mstd.Board.Pins.{
  pin_cdone, pin_creset, pin_iob29b, pin_iob31b, pin_spi_miso, pin_spi_mosi, pin_spi_sck,
  pin_spi_ss, pin_left, pin_hit, pin_up, pin_right, pin_down, pin_rom_dis3, pin_s_uknc,
  pin_rom_dis1, pin_s_bk, pin_rom_dis2,
}
use mstd.Board.Init.{oled_init}

-- This bit() shifts an int, of 32 bits: C leaves a shift by 32 or more undefined, and shifted is what
-- the compiler makes of one.
unfoldable pub int_bit : (ℕ → ℕ) → List ℕ → ℕ
int_bit shifted [] = 0
int_bit shifted (p ∷ ps) = bit_or (if ltb p 32 then 2 ^ p else shifted p) (int_bit shifted ps)

abbrev pub buscfg : SpiBus
buscfg = record {
  mosi_io_num = pin_spi_mosi;
  miso_io_num = pin_spi_miso;
  sclk_io_num = pin_spi_sck;
  quadwp_io_num = none;
  quadhd_io_num = none;
}

abbrev pub spi_cfg : SpiDevice
spi_cfg = record {
  mode = 3;
  clock_speed_hz = 20 * 1000 * 1000;
  spics_io_num = none;
  no_dummy = true;
  queue_size = 1;
}

module _ (driver : Driver) where
  -- The pull-ups are off or on; pull-downs and interrupts are off.
  unfoldable pub pins_init : GpioMode → Bool → ℕ → Program (Unit {0})
  pins_init mode pull_up_en bmask = check driver (gpio_config mode pull_up_en bmask)

  module _ (beyond : Memory) (shifted : ℕ → ℕ) where
    unfoldable pub hw_init : I2C → Program (Unit {0})
    hw_init i2c = do
      ignore driver (gpio_set_level pin_creset 0)
      pins_init mode_output false (
          int_bit shifted (
            pin_creset ∷ pin_spi_mosi ∷ pin_spi_sck ∷ pin_spi_ss ∷ pin_rom_dis3 ∷ pin_rom_dis2
            ∷ pin_rom_dis1 ∷ []))
      pins_init mode_input true
          (int_bit shifted (pin_cdone ∷ pin_iob29b ∷ pin_iob31b ∷ pin_s_uknc ∷ pin_s_bk ∷ []))
      pins_init mode_input false
          (int_bit shifted (pin_hit ∷ pin_left ∷ pin_right ∷ pin_up ∷ pin_down ∷ pin_spi_miso ∷ []))
      ignore driver (gpio_set_level pin_creset 0)
      ignore driver (gpio_set_level pin_spi_ss 0)
      check driver (spi_bus_initialize buscfg)
      check driver (spi_bus_add_device spi_cfg)
      oled_init driver beyond i2c
