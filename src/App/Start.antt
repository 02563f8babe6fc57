-- ===== src/App/Start.antt =====
-- initialise_mdns, app_main and reboot of soft/bootloader/main/main.cpp, with their calls of the
-- drivers; app_main up to the loop that serves updates.
use mstd.Prelude.{
  ℕ, ◌-◌, ◌^◌, Bool, true, none, some, List, [], ◌∷◌, ◌++◌, Memory, if◌then◌else◌, codes,
}
use mstd.Setup.Flash.{Flash}
use mstd.Setup.Save.{load_config}
use mstd.Display.Draw.{I2C, draw_text}
use mstd.Driver.Calls.{
  Driver, mdns_init, mdns_hostname_set, mdns_instance_name_set, mdns_service_add, netbiosns_init,
  netbiosns_set_name, esp_task_wdt_init, esp_task_wdt_add,
}
use mstd.Driver.Run.{Program, done, endless, pure, ◌>>◌, ignore, check}
use mstd.Board.Init.{hw_init}
use mstd.Wifi.Init.{master_wifi_ssid, master_wifi_passwd, wifi_init}

abbrev pub oled_ap_row : ℕ
oled_ap_row = 0

abbrev pub oled_msg_row : ℕ
oled_msg_row = 5

-- The text of the first rows.
abbrev pub ap_text : List ℕ
ap_text =
    (codes "SSID: " ++ master_wifi_ssid)
    ++ (10 ∷ codes "PSWD: " ++ master_wifi_passwd)
    ++ (10 ∷ codes "IP  : 192.168.4.1")

-- app_main serves updates for ever, or stops without a server.
pub data Running : Type 0 where
  serves stops : Running

module _ (driver : Driver) where
  unfoldable pub initialise_mdns : Program (Unit {0})
  initialise_mdns = do
    ignore driver mdns_init
    ignore driver (mdns_hostname_set (codes "mstdp"))
    ignore driver (mdns_instance_name_set (codes "MSTD Emulator"))
    check driver (
        mdns_service_add (codes "ESP32-WebServer") (codes "_http") (codes "_tcp") 80
          ((codes "board", codes "esp32") ∷ (codes "path", codes "/") ∷ []))

  -- The watchdog of all cores, which panics after five seconds.
  unfoldable pub reboot : Program (Unit {0})
  reboot = do
    check driver (esp_task_wdt_init 5000 (2 ^ driver.processors - 1) true)
    ignore driver esp_task_wdt_add

  module _ (beyond : Memory) where
    -- oled.draw_text
    unfoldable pub draw : ℕ → List ℕ → Program (Unit {0})
    draw row text w = elim (draw_text beyond w.oled row text) [
      | none ↦ (endless, w)
      | some d ↦ (done tt, record w { oled = d })
    ]

    unfoldable pub show_msg : List ℕ → Program (Unit {0})
    show_msg text = draw oled_msg_row text

    -- The messages, and the loop: started tells whether srv.start() returned 0.
    unfoldable pub serve : Bool → Program Running
    serve started = if started then (do show_msg (codes "Waiting for update"); pure serves) else (do
      show_msg (codes "Can't start TFTP srv" ++ (10 ∷ codes "Restart please."))
      pure stops)

    module _ (crc32_le : ℕ → List ℕ → ℕ) (flash : Flash) where
      -- load_config()
      unfoldable pub load : flash.Chip → Program (Unit {0})
      load c w = elim (load_config crc32_le flash w.setup c) [
        | none ↦ (endless, w)
        | some s ↦ (done tt, record w { setup = s })
      ]

      unfoldable pub app_main : Bool → I2C → flash.Chip → Program Running
      app_main started i2c c = do
        hw_init driver beyond i2c
        load c
        wifi_init driver
        initialise_mdns
        ignore driver netbiosns_init
        ignore driver (netbiosns_set_name (codes "mstdp"))
        draw oled_ap_row ap_text
        serve started
