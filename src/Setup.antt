-- ===== src/Setup.antt =====
-- The configuration store of soft/bootloader/main/setup_data.cpp: a flash partition of 4096 bytes
-- that holds configuration records one after another, and the image of it in memory.
pub mod Scan
pub mod Layout
pub mod Flash
pub mod Save
pub mod Rounds
pub mod Walk
pub mod Agree
pub mod Sound
pub mod Shift
pub mod Append
pub mod Same
pub mod Torn
pub mod Image
pub mod Boot
pub mod RoundTrip
pub mod Restart
pub mod Ready
pub mod Load
pub mod Below
pub mod Partial
pub mod PowerLoss
pub mod Stale
pub mod Keeps
pub mod Kept
pub mod History
pub mod Broken
pub mod Outages
pub mod Survival
pub mod Corrupt
pub mod Full
pub mod Success
