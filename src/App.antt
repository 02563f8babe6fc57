-- ===== src/App.antt =====
-- The program of soft/bootloader/main/main.cpp, put together from the other parts.
pub mod Start
pub mod Boot
pub mod Stops
pub mod Screen
pub mod Credentials
pub mod Session
