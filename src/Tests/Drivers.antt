-- ===== src/Tests/Drivers.antt =====
-- Drivers for the runs, and runs of the set-up of the board.
use mstd.Prelude.{ℕ, ◌+◌, ◌%◌, List, ◌∷◌, ◌≡◌, refl, true, false, codes, arith, none, ◌==◌, []}
use mstd.Setup.Save.{at_reset}
use mstd.Display.Draw.{I2C, init}
use mstd.Display.Rows.{lines, draw_rows}
use mstd.Driver.Calls.{Driver}
use mstd.Driver.Run.{World, done, IsReliable, ignore, call, check, error_check}
use mstd.Driver.Stops.{Ends}
use mstd.Board.Pins.{loader_state}
use mstd.Board.Init.{hw_init, pins_init, oled_init, oled_start}
use mstd.Board.States.{pad_after, pad_of, on_bus, hw_init-states}
use mstd.Fpga.Load.{load_fpga, not_started}
use mstd.Fpga.Start
use mstd.Fpga.Start.{app_main-shown}
use mstd.App.Start.{app_main}
use mstd.App.Stops.{app_main-Stops}
use mstd.Tests.Data.{crc, flash, erased, stored}
use mstd.Tests.Bitstream.{board}
use mstd.Tests.Screen.{display, zeros}

-- No call fails.
abbrev pub driver : Driver
driver = record {
  answer = λ es c. 0;
  no_free_pages = 4365;
  new_version_found = 4368;
  processors = 2;
}

pub reliable : IsReliable driver
reliable = record {
  succeeds = λ es c. refl;
  no_free_pages = omega arith;
  new_version_found = omega arith;
}

-- The first set-up of the storage fails for good.
abbrev broken : Driver
broken = record driver { answer = λ es c. 1 }

-- A display at the second address.
abbrev pub i2c : I2C
i2c = record { new_master_bus = true; probe = λ a. a == 0x3D; add_device = λ a. true }

abbrev start : World
start = record { setup = at_reset erased; oled = display; calls = [] }

app_main-Stops_example : Ends start (app_main broken zeros crc flash true i2c erased start)
app_main-Stops_example = app_main-Stops broken zeros crc flash true i2c erased start

returns_board : (hw_init driver zeros i2c start).0 ≡ done tt
unfolding hw_init pins_init oled_init oled_start ignore call check error_check
returns_board = refl

hw_init-states_example :
    pad_after 22
      (record { mode = none; level = none; bus = false })
      (hw_init driver zeros i2c start).1.calls
    ≡ on_bus 22 (pad_of (loader_state 22) (record { mode = none; level = none; bus = false }))
hw_init-states_example =
    hw_init-states driver zeros i2c start 22 (record { mode = none; level = none; bus = false })
      returns_board (omega arith)

-- %d of numbers that are not negative and not above 9.
abbrev print_int : ℕ → List ℕ
print_int n = (48 + n % 10) ∷ []

app_main-shown_example :
    let d = init zeros (record i2c { new_master_bus = true }) display in
    let started = draw_rows zeros d 0 (codes "HW Test run" ∷ []) in
    (w : World) × (Start.app_main driver zeros print_int board (λ p. p) i2c stored 108 start
      ≡ (done (load_fpga board stored 108 not_started).1, w))
    × (w.oled ≡ draw_rows zeros started 5 (lines (codes "FPGA Load done")))
app_main-shown_example =
    app_main-shown driver zeros print_int board (λ p. p) i2c stored 108 start reliable (λ k. refl)
