-- ===== src/Board.antt =====
-- The pins of the board: soft/bootloader/main/pins.h, and hw_init of soft/bootloader/main/hardware.cpp
-- and of soft/test-hw/main/hardware.cpp.
pub mod Pins
pub mod Init
pub mod Test
pub mod States
