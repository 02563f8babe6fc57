-- ===== src/Wifi/Init.antt =====
-- wifi_init of soft/bootloader/main/wifi_module.cpp, with its calls of the drivers.
use mstd.Prelude.{ℕ, none, some, List, ◌==◌, ◌||◌, if◌then◌else◌, codes}
use mstd.Wifi.Station.{do_sta, station, terminate_passwd}
use mstd.Driver.Calls.{
  Driver, AccessPoint, mode_ap, mode_apsta, auth_wep, auth_wpa2_psk, any_wifi_event,
  sta_got_ip_event, nvs_flash_init, nvs_flash_erase, esp_netif_init, esp_event_loop_create_default,
  esp_netif_create_default_wifi_sta, esp_netif_create_default_wifi_ap, esp_wifi_init,
  esp_wifi_start, esp_event_handler_instance_register, esp_wifi_set_mode, set_config_sta,
  set_config_ap,
}
use mstd.Driver.Run.{Program, done, pure, ◌>>=◌, ◌>>◌, error_check, call, ignore, check}

-- MASTER_WIFI_SSID and MASTER_WIFI_PASSWD of wifi_module.h
abbrev pub master_wifi_ssid : List ℕ
master_wifi_ssid = codes "MSTDP"

abbrev pub master_wifi_passwd : List ℕ
master_wifi_passwd = codes "MSTD-BK-UKNC"

abbrev pub access_point : AccessPoint
access_point = record {
  ssid = master_wifi_ssid;
  password = master_wifi_passwd;
  channel = 10;
  authmode = auth_wpa2_psk;
  max_connection = 1;
}

module _ (driver : Driver) where
  -- The storage is erased, and set up once more, if it is full or of another version.
  unfoldable pub mend_nvs : ℕ → Program ℕ
  mend_nvs ret =
      if ret == driver.no_free_pages || ret == driver.new_version_found
      then (do check driver nvs_flash_erase; call driver nvs_flash_init)
      else pure ret

  -- The station of the active configuration; only called where there is one.
  unfoldable pub configure_station : Program (Unit {0})
  configure_station w = elim w.setup.config [
    | none ↦ (done tt, w)
    | some p ↦
        let s = terminate_passwd w.setup p in
        check driver (set_config_sta auth_wep (station s p)) (record w { setup = s })
  ]

  unfoldable pub wifi_init : Program (Unit {0})
  wifi_init w =
      let sta = do_sta w.setup in
      (do
        ret ← call driver nvs_flash_init
        ret ← mend_nvs ret
        error_check ret
        check driver esp_netif_init
        check driver esp_event_loop_create_default
        (if sta then ignore driver esp_netif_create_default_wifi_sta else pure tt)
        ignore driver esp_netif_create_default_wifi_ap
        check driver esp_wifi_init
        check driver (esp_event_handler_instance_register any_wifi_event)
        check driver (esp_event_handler_instance_register sta_got_ip_event)
        check driver (esp_wifi_set_mode (if sta then mode_apsta else mode_ap))
        (if sta then configure_station else pure tt)
        check driver (set_config_ap access_point)
        check driver esp_wifi_start)
        w
