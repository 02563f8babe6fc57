-- ===== src/Fpga.antt =====
-- The hardware test of soft/test-hw: the loader that sends a bitstream to the FPGA.
pub mod Load
pub mod Stream
pub mod Start
