-- ===== src/Crc.antt =====
-- The checksum of a configuration: crc32_le as the comment at the end of
-- soft/bootloader/main/setup_data.cpp gives it.
pub mod Xor
pub mod Table
pub mod Polynomial
pub mod Agree
pub mod Detect
