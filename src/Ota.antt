-- ===== src/Ota.antt =====
-- The update server of soft/bootloader/main/tftp/src/tftp_ota_server.cpp: the handlers that the
-- TFTP library calls for a transfer.
pub mod Api
pub mod Server
pub mod Handlers
pub mod Transfer
pub mod Close
pub mod Upload
pub mod Bounds
pub mod Names
pub mod Firmware
pub mod Session
pub mod Partition
pub mod Calls
pub mod Safety
pub mod SafeData
pub mod SafeRun
pub mod Stores
pub mod Closes
pub mod Refine
pub mod Slots
pub mod Download
