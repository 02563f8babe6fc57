-- ===== src/Driver/Calls.antt =====
-- The calls of the drivers that soft/bootloader/main and soft/test-hw/main make, with their
-- arguments, and what the drivers answer.
use mstd.Prelude.{ℕ, Bool, List, Option}
use mstd.Wifi.Station.{Station}

pub data Mode : Type 0 where
  mode_ap mode_apsta : Mode

pub data AuthMode : Type 0 where
  auth_wep auth_wpa2_psk : AuthMode

-- wifi_config.ap
pub record AccessPoint : Type 0 where
  pub ssid : List ℕ
  pub password : List ℕ
  pub channel : ℕ
  pub authmode : AuthMode
  pub max_connection : ℕ

pub data GpioMode : Type 0 where
  mode_input mode_output : GpioMode

-- The events that a handler is registered for: WIFI_EVENT with ESP_EVENT_ANY_ID, and IP_EVENT with
-- IP_EVENT_STA_GOT_IP.
pub data Events : Type 0 where
  any_wifi_event sta_got_ip_event : Events

-- spi_bus_config_t and spi_device_interface_config_t; a pin of -1 is none.
pub record SpiBus : Type 0 where
  pub mosi_io_num : ℕ
  pub miso_io_num : ℕ
  pub sclk_io_num : ℕ
  pub quadwp_io_num : Option ℕ
  pub quadhd_io_num : Option ℕ

pub record SpiDevice : Type 0 where
  pub mode : ℕ
  pub clock_speed_hz : ℕ
  pub spics_io_num : Option ℕ
  pub no_dummy : Bool
  pub queue_size : ℕ

pub data Call : Type 0 where
  -- nvs_flash
  nvs_flash_init nvs_flash_erase : Call
  -- esp_netif, esp_event
  esp_netif_init esp_event_loop_create_default : Call
  esp_netif_create_default_wifi_sta esp_netif_create_default_wifi_ap : Call
  -- esp_wifi
  esp_wifi_init esp_wifi_start : Call
  esp_event_handler_instance_register : Events → Call
  esp_wifi_set_mode : Mode → Call
  set_config_sta : AuthMode → Station → Call
  set_config_ap : AccessPoint → Call
  -- mdns, netbiosns
  mdns_init netbiosns_init : Call
  mdns_hostname_set mdns_instance_name_set netbiosns_set_name : List ℕ → Call
  mdns_service_add : List ℕ → List ℕ → List ℕ → ℕ → List (List ℕ × List ℕ) → Call
  -- esp_task_wdt: the time in ms, the mask of the cores, and whether it panics
  esp_task_wdt_init : ℕ → ℕ → Bool → Call
  esp_task_wdt_add : Call
  -- gpio: the pin and its level; the mode, the pull-up and the mask of the pins
  gpio_set_level : ℕ → ℕ → Call
  gpio_config : GpioMode → Bool → ℕ → Call
  -- i2c_master: the pins SDA and SCL
  i2c_new_master_bus : ℕ → ℕ → Call
  -- spi_master
  spi_bus_initialize : SpiBus → Call
  spi_bus_add_device : SpiDevice → Call

-- A call and its esp_err_t, 0 for ESP_OK.
pub record Entry : Type 0 where
  pub call : Call
  pub answer : ℕ

-- The drivers answer a call by all that went before it.
pub record Driver : Type 0 where
  pub answer : List Entry → Call → ℕ
  -- ESP_ERR_NVS_NO_FREE_PAGES and ESP_ERR_NVS_NEW_VERSION_FOUND
  pub no_free_pages : ℕ
  pub new_version_found : ℕ
  pub processors : ℕ
