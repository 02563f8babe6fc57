-- ===== src/Wifi.antt =====
-- The network set-up of soft/bootloader/main/wifi_module.cpp: its event handlers and the station
-- that wifi_init configures.
pub mod Events
pub mod Retries
pub mod Station
pub mod Credentials
pub mod Init
pub mod BringUp
pub mod Stops
