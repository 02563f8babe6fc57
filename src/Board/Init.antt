-- ===== src/Board/Init.antt =====
-- pins_init and hw_init of soft/bootloader/main/hardware.cpp.
use mstd.Prelude.{ℕ, ◌==◌, Bool, true, false, [], ◌∷◌, Memory}
use mstd.Display.Draw.{I2C, init}
use mstd.Driver.Calls.{
  Driver, GpioMode, mode_input, mode_output, gpio_config, gpio_set_level, i2c_new_master_bus,
}
use mstd.Driver.Run.{Program, done, ◌>>=◌, ◌>>◌, call, ignore, check}
use mstd.Board.Pins.{
  bit, pin_cdone, pin_creset, pin_iob29b, pin_iob31b, pin_spi_miso, pin_spi_mosi, pin_spi_sck,
  pin_spi_ss, pin_left, pin_hit, pin_up, pin_right, pin_down, pin_rom_dis3, pin_s_uknc,
  pin_rom_dis1, pin_s_bk, pin_rom_dis2, pin_oled_sda, pin_oled_scl,
}

-- oled.init() behind the call of i2c_new_master_bus, which has returned err.
unfoldable pub oled_start : Memory → I2C → ℕ → Program (Unit {0})
oled_start beyond i2c err w =
    (done tt, record w { oled = init beyond (record i2c { new_master_bus = err == 0 }) w.oled })

module _ (driver : Driver) where
  -- oled.init(). The call that sets up the bus is one of the drivers', which answer it; i2c answers
  -- the calls behind it.
  unfoldable pub oled_init : Memory → I2C → Program (Unit {0})
  oled_init beyond i2c = do
    err ← call driver (i2c_new_master_bus pin_oled_sda pin_oled_scl)
    oled_start beyond i2c err

  -- The pull-ups are off or on; pull-downs and interrupts are off.
  unfoldable pub pins_init : GpioMode → Bool → ℕ → Program (Unit {0})
  pins_init mode pull_up_en bmask = check driver (gpio_config mode pull_up_en bmask)

  module _ (beyond : Memory) where
    unfoldable pub hw_init : I2C → Program (Unit {0})
    hw_init i2c = do
      ignore driver (gpio_set_level pin_creset 0)
      pins_init mode_output false (bit (pin_creset ∷ []))
      pins_init mode_input true (
          bit (
            pin_cdone ∷ pin_iob29b ∷ pin_iob31b ∷ pin_spi_miso ∷ pin_spi_mosi ∷ pin_spi_sck
            ∷ pin_spi_ss ∷ pin_rom_dis3 ∷ pin_s_uknc ∷ pin_rom_dis1 ∷ pin_s_bk ∷ pin_rom_dis2 ∷ []))
      pins_init mode_input false (bit (pin_hit ∷ pin_left ∷ pin_right ∷ pin_up ∷ pin_down ∷ []))
      ignore driver (gpio_set_level pin_creset 0)
      oled_init beyond i2c
