-- ===== src/Tests.antt =====
-- Runs of the model at concrete inputs.
pub mod Data
pub mod Store
pub mod Server
pub mod Screen
pub mod Drivers
pub mod Checksum
pub mod PowerLoss
pub mod Outages
pub mod Network
pub mod Bitstream
pub mod Client
pub mod Credentials
pub mod Program
