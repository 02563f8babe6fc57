-- ===== src/Driver.antt =====
-- The drivers of ESP-IDF that the program sets up, and ESP_ERROR_CHECK: a program makes calls, and
-- an error in a checked call restarts the board.
pub mod Calls
pub mod Run
pub mod Stops
