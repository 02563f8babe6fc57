-- ===== src/Tests/Bitstream.antt =====
-- A run of the FPGA loader.
use mstd.Prelude.{◌==◌, refl}
use mstd.Fpga.Load.{Board, not_started, load_fpga}
use mstd.Fpga.Stream.{Loaded, load_fpga-Loaded}
use mstd.Tests.Data.{stored}

-- CDONE rises after the first read.
abbrev pub board : Board
board = record { cdone = λ k. k == 1; transmit = λ k. 0; tick_period_ms = 10 }

load_fpga-Loaded_example :
    Loaded board (λ k. refl) stored 108 not_started (load_fpga board stored 108 not_started)
load_fpga-Loaded_example = load_fpga-Loaded board (λ k. refl) stored 108 not_started
