-- ===== src/Tests/Program.antt =====
-- A run of the program from its start.
use mstd.Prelude.{codes, concat, arith, some, [], ◌≡◌, true, refl, none, ℕ, ◌<◌, buffer_of, window}
use mstd.Setup.Save.{at_reset, save_config_image, save_config_full}
use mstd.Setup.Restart.{IsActive}
use mstd.Driver.Run.{World, done}
use mstd.Tests.Drivers.{driver, reliable, i2c}
use mstd.App.Start.{serves, app_main}
use mstd.App.Boot.{app_main-save_config_image}
use mstd.Tests.Data.{
  crc, crc_range, flash, erased, setup, image, image-IsBytes, chunks, bytes-AllBytes,
}
use mstd.Ota.Server.{Server, idle}
use mstd.Ota.Close.{returns}
use mstd.Ota.Server.{full_cfg}
use mstd.Ota.Session.{upload, download}
use mstd.Setup.Scan.{max_cfg_size}
use mstd.App.Session.{IsByteOf, download-upload, download-upload_full}
use mstd.Display.Draw.{Display}
use mstd.Tests.Server.{slots, server_of, cfg_write, cfg_read}
use mstd.Tests.Store.{ready, not_free, saves}
use mstd.Tests.Screen.{display, zeros}

app_main-save_config_image_example :
    let r = save_config_image crc flash setup erased image 108 in
    let start : World = record { setup = at_reset erased; oled = display; calls = [] } in
    (w : World) × (app_main driver zeros crc flash true i2c r.chip start ≡ (done serves, w))
    × IsActive w.setup r.image 108
app_main-save_config_image_example =
    app_main-save_config_image driver zeros crc flash crc_range i2c display setup erased image 108
      erased reliable ready image-IsBytes not_free saves refl refl

download-upload_example :
    let s = server_of idle setup in
    let r = save_config_image crc flash setup erased image 108 in
    let start : World = record { setup = at_reset erased; oled = display; calls = [] } in
    (s' : Server flash slots) × (w : World) × (upload crc s (codes "a.cfg") chunks
      ≡ some (returns s'))
    × (app_main driver zeros crc flash true i2c s'.chip start ≡ (done serves, w))
    × (download crc (record s { setup = w.setup }) (codes "b.cfg") ≡ some (window r.image 0 108))
    × (window r.image 4 104 ≡ window image 4 104)
download-upload_example =
    download-upload driver zeros crc crc_range i2c display (server_of idle setup) (codes "a.cfg")
      (codes "b.cfg") chunks erased (server_of idle setup) reliable cfg_write cfg_read (omega arith)
      bytes-AllBytes ready not_free saves refl refl

saves_full : (save_config_full crc flash setup erased image).error ≡ none
unfolding save_config_full
saves_full = refl

download-upload_full_example :
    let s = server_of idle setup in
    let start : World = record { setup = at_reset erased; oled = display; calls = [] } in
    (s' : Server flash slots) × (w : World) × (upload crc s full_cfg chunks ≡ some (returns s'))
    × (app_main driver zeros crc flash true i2c s'.chip start ≡ (done serves, w))
    × (download crc (record s { setup = w.setup }) full_cfg
        ≡ some (window w.setup.cfg_full 0 max_cfg_size))
    × ((i : ℕ) → i < max_cfg_size → IsByteOf w.setup (buffer_of (concat chunks) 0xff) i)
download-upload_full_example =
    download-upload_full driver zeros crc i2c display (server_of idle setup) chunks erased
      (server_of idle setup) reliable refl (omega arith) bytes-AllBytes refl saves_full refl
