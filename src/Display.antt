-- ===== src/Display.antt =====
-- The OLED display of soft/bootloader/main/sd1306.cpp: what it transmits for text and for the
-- progress indicator.
pub mod Font
pub mod Codes
pub mod Draw
pub mod Rows
pub mod Columns
pub mod Progress
pub mod Glyphs
pub mod Wipe
