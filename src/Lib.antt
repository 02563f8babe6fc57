-- ===== src/Lib.antt =====
-- The boot loader of an ESP32 board (soft/bootloader/main): it loads its configuration from a flash
-- partition, joins a Wi-Fi network, and takes updates of the configuration and of the firmware over
-- TFTP, with messages and a progress indicator on an OLED display. And the FPGA loader of the
-- board's hardware test (soft/test-hw/main).
--
-- Parts, files and source:
--   Setup    the configuration store, soft/bootloader/main/setup_data.cpp and setup_data.h. Scan:
--            find_active_config; Save: load_config, save_config_image and save_config_full; Flash:
--            the calls esp_partition_* and what their documentation promises. A record Setup holds
--            the module's globals; a pointer into cfg_full is an offset, next_cfg_shift -1 is none.
--            Kept and History: any saves, one after another; Outages: saves and restarts; Corrupt,
--            Torn and PowerLoss: a byte that has changed, and a write that was cut off. Layout:
--            struct Config_V1 of soft/cfg_compiler/setup_data.h.
--   Crc      the routine crc32_le and its table, from a comment of setup_data.cpp, and the division
--            by its polynomial.
--   Display  class SSD1306, soft/bootloader/main/sd1306.cpp and sd1306.h. Codes and Font: its
--            tables; Draw: its methods. The state holds the transmissions attempted so far. Wipe: the
--            rows that the progress indicator draws in.
--   Ota      class TftpOtaServer, soft/bootloader/main/tftp/src/tftp_ota_server.cpp. Server: the
--            fields, test_file_name and inc_cur_ptr; Handlers: on_write and on_read; Transfer:
--            on_write_data and on_read_data; Close: on_close; Session and Slots: whole
--            transfers of a configuration and of a firmware image.
--            Calls: any calls of the handlers, in any order; Partition: the transfers of full.cfg;
--            Refine: the server as a client of the store.
--   Driver   the calls of the drivers of ESP-IDF, and ESP_ERROR_CHECK: programs are functions on
--            the state and the list of the calls made, and end with a result or abort.
--   Board    pins.h, bit() of common.h, and hw_init of soft/bootloader/main/hardware.cpp; Test: the
--            same of soft/test-hw/main.
--   Wifi     soft/bootloader/main/wifi_module.cpp. Events: the event handlers; Init: wifi_init;
--            Station: the station that it sets up from the active configuration; Credentials: the
--            texts that it is given.
--   App      soft/bootloader/main/main.cpp; app_main is put together from the parts above. Screen:
--            the server's calls of the display, carried out; Session: whole transfers over a start of
--            the program; Credentials: from a record of the later layout to the station.
--   Fpga     load_fpga of soft/test-hw/main/hardware.cpp, and app_main of soft/test-hw/main/main.cpp.
--   Prelude  Boolean tests, lists, byte memories and texts; Tests runs at concrete inputs.
-- The store is part of the server's state: on_close saves what on_write_data has collected, and
-- on_read_data sends what load_config has found. The server's calls of the display are a list of
-- calls, in their order.
--
-- Parameters: the checksum crc32_le of the ROM, any function into 32 bits; the flash chip; the
-- firmware slots esp_ota_*; inet_ntoa; %d of sprintf; the memory behind the font table; what the
-- compiler makes of a shift that C leaves undefined, in bit() of the hardware test; the answers of
-- the display's bus, of the FPGA board and of the other drivers, an esp_err_t for each call. The TFTP library calls
-- on_write, on_write_data for each chunk and on_close for an upload, and on_read and on_read_data
-- for blocks of 512 bytes until a short one for a download.
--
-- Bounds: size_t is 32 bits wide, and sums in it wrap. A scan has 1025 rounds of fuel: each moves on
-- by four bytes or more of 4096. draw_text has a round for each byte of its text and one more.
-- A download of at most 4096 bytes has nine blocks. load_fpga has a round for each byte of the
-- bitstream and one more, and one for the wait.
--
-- Not modelled: the TFTP library, a copy of another project; the hardware test's copy of the display;
-- log output and delays of the boot loader; the configuration compiler, a tool for the host but for
-- its record. A failed read of the partition leaves cfg_full as it was. The update server's calls
-- of esp_task_wdt_* in reboot are taken to succeed.
pub mod Prelude
pub mod Setup
pub mod Crc
pub mod Display
pub mod Ota
pub mod Driver
pub mod Board
pub mod Wifi
pub mod Fpga
pub mod App
pub mod Tests
