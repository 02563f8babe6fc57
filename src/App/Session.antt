-- ===== src/App/Session.antt =====
-- Whole transfers over a start of the program: uploaded, saved, loaded by app_main and downloaded.
-- Between load_config and the server app_main runs wifi_init, which writes into cfg_full.
use mathlib.Core.Path.{subst}
use mstd.Prelude.{
  AllBytes, buffer_of-IsBytes, ℕ, ◌+◌, ◌-◌, ◌^◌, ◌≤◌, ◌<◌, ◌≡◌, ◌≢◌, ◌⊎◌, inl, inr, refl, sym, ap,
  ◌∙◌, true, false, none, some, List, [], Memory, window, window_cong, get_or, get_or-window,
  concat, length, buffer_of, ◌==◌, ==→eq, arith, Bool-cases, Option-cases,
}
use mstd.Setup.Flash.{Flash}
use mstd.Setup.Scan.{max_cfg_size, size_offset, no_crc, eval_crc, passwd_offset}
use mstd.Setup.Save.{Setup, at_reset, save_config_image, save_config_full}
use mstd.Setup.Boot.{IsReady}
use mstd.Setup.RoundTrip.{save_config_image-HasSaved}
use mstd.Setup.Full.{load_config-save_config_full}
use mstd.Display.Draw.{Display, I2C}
use mstd.Wifi.Station.{do_sta, station_setup, terminate_passwd}
use mstd.Driver.Calls.{Driver}
use mstd.Driver.Run.{World, done, IsReliable}
use mstd.Ota.Api.{OtaApi}
use mstd.Ota.Server.{Server, load_cfg, send_cfg, full_cfg, file_job}
use mstd.Ota.Close.{returns}
use mstd.Ota.Session.{upload, download, upload-save_config_image, download-IsActive}
use mstd.Ota.Partition.{upload-full, download-full}
use mstd.App.Start.{serves, app_main}
use mstd.App.Boot.{app_main-serves, app_main-save_config_image}

-- A byte of cfg_full behind the set-up of the station: as it was, or the last password byte of the
-- active configuration, which is 0.
abbrev pub IsByteOf : Setup → Memory → ℕ → Type 0
IsByteOf s m i =
    (s.cfg_full i ≡ m i)
    ⊎ ((s.cfg_full i ≡ 0) × (p : ℕ) × (s.config ≡ some p) × (i ≡ p + (passwd_offset + 63)))

-- Memories with the same first bytes agree at each of them.
window-at : (m image : Memory) (n i : ℕ) → i < n → window m 0 n ≡ window image 0 n → m i ≡ image i
window-at m image n i hi e =
    let z : 0 + i ≡ i = omega arith in
    let at : m (0 + i) ≡ image (0 + i) =
      sym (get_or-window m 0 n i 0 hi)
      ∙ ap (λ x. get_or x i 0) e
      ∙ get_or-window image 0 n i 0 hi in
    rw z at at

terminate_passwd-IsByteOf :
    (s : Setup) (p i : ℕ) → s.config ≡ some p → IsByteOf (terminate_passwd s p) s.cfg_full i
unfolding terminate_passwd
terminate_passwd-IsByteOf s p i c = elim (Bool-cases (i == p + (passwd_offset + 63))) [
  | inl b ↦ inr (rw b refl, p, c, ==→eq _ _ b)
  | inr b ↦ inl (rw b refl)
]

station_setup-IsByteOf :
    (s : Setup) (i : ℕ)
    → IsByteOf (station_setup s).1 s.cfg_full i
      × ((station_setup s).1.cfg_full_loaded ≡ s.cfg_full_loaded)
unfolding station_setup terminate_passwd
station_setup-IsByteOf s i = elim (Option-cases s.config) [
  | inl c ↦ rw (c, station_setup) (inl refl, refl)
  | inr (p, c) ↦ elim (Bool-cases (do_sta s)) [
    | inl b ↦ rw (c, station_setup) (rw b (terminate_passwd-IsByteOf s p i c, refl))
    | inr b ↦ rw (c, station_setup) (rw b (inl refl, refl))
  ]
]

module _ {flash : Flash} {api : OtaApi} (driver : Driver) (beyond : Memory)
    (crc32_le : ℕ → List ℕ → ℕ) where
  -- The round trip of a configuration. At most 4096 bytes, uploaded under a configuration's name in
  -- any chunks to a server whose store is ready, with a checksum that is not the mark of a free
  -- slot, and saved without an error, are what the server sends for a download that app_main starts
  -- after a restart: the image saved, which behind the checksum field is the bytes uploaded. The
  -- drivers do not fail, the partition can be read, the server starts, and the last password byte
  -- of the upload, which wifi_init may set to 0, is 0. The checksum is any function into 32 bits.
  pub download-upload :
      (crc_range : (bs : List ℕ) → crc32_le 0 bs < 2 ^ 32) (i2c : I2C) (d : Display)
      (s : Server flash api) (file back : List ℕ) (chunks : List (List ℕ)) (before : Memory)
      (t : Server flash api)
      → IsReliable driver
      → file_job file true ≡ load_cfg
      → file_job back false ≡ send_cfg
      → length (concat chunks) ≤ max_cfg_size
      → AllBytes (concat chunks)
      → IsReady crc32_le flash s.setup s.chip
      → let bytes = concat chunks in
        let image = buffer_of bytes 0xff in
        let r = save_config_image crc32_le flash s.setup s.chip image (length bytes) in
        let start : World = record { setup = at_reset before; oled = d; calls = [] } in
        eval_crc crc32_le image size_offset (length bytes) ≢ no_crc
        → r.error ≡ none
        → flash.read_ok r.chip ≡ true
        → image 103 ≡ 0
        → (s' : Server flash api) × (w : World) × (upload crc32_le s file chunks
            ≡ some (returns s'))
          × (app_main driver beyond crc32_le flash true i2c s'.chip start ≡ (done serves, w))
          × (download crc32_le (record t { setup = w.setup }) back
              ≡ some (window r.image 0 (length bytes)))
          × (window r.image 4 (length bytes - 4) ≡ window image 4 (length bytes - 4))
  download-upload range i2c d s file back chunks before t h e e' fits b ready nc ok readable z =
      let bytes = concat chunks in
      let image = buffer_of bytes 0xff in
      let is_bytes = buffer_of-IsBytes bytes b in
      let r = save_config_image crc32_le flash s.setup s.chip image (length bytes) in
      let start : World = record { setup = at_reset before; oled = d; calls = [] } in
      let up = upload-save_config_image crc32_le s file chunks e fits ok in
      let saved =
        save_config_image-HasSaved crc32_le flash range s.setup s.chip image (length bytes) ready
          is_bytes nc ok in
      let boot =
        app_main-save_config_image driver beyond crc32_le flash range i2c d s.setup s.chip image
          (length bytes) before h ready is_bytes nc ok readable z in
      (
        up.0,
        boot.0,
        up.1,
        ap (λ c. app_main driver beyond crc32_le flash true i2c c start) up.3 ∙ boot.1,
        download-IsActive crc32_le (record t { setup = boot.0.setup }) back r.image (length bytes)
            e' boot.2,
        window_cong r.image image 4 (length bytes - 4) (λ i lo hi. saved.filled.body i lo),
      )

  -- The round trip of a partition. At most 4096 bytes, uploaded as full.cfg in any chunks to a
  -- server that has loaded its partition, and saved without an error, come back as full.cfg from the
  -- server that app_main starts after a restart, filled up with 0xFF to 4096 bytes: each byte sent
  -- is the one uploaded, but for the last password byte of the configuration that is active then,
  -- which may be 0. The drivers do not fail, the partition is found and can be read, and the server
  -- starts. Whatever stood in the partition is gone, also where the transfer was cut off.
  pub download-upload_full :
      (i2c : I2C) (d : Display) (s : Server flash api) (chunks : List (List ℕ)) (before : Memory)
      (t : Server flash api)
      → IsReliable driver
      → s.setup.cfg_full_loaded ≡ true
      → length (concat chunks) ≤ max_cfg_size
      → AllBytes (concat chunks)
      → flash.find_first s.chip ≡ true
      → let image = buffer_of (concat chunks) 0xff in
        let r = save_config_full crc32_le flash s.setup s.chip image in
        let start : World = record { setup = at_reset before; oled = d; calls = [] } in
        r.error ≡ none
        → flash.read_ok r.chip ≡ true
        → (s' : Server flash api) × (w : World) × (upload crc32_le s full_cfg chunks
            ≡ some (returns s'))
          × (app_main driver beyond crc32_le flash true i2c s'.chip start ≡ (done serves, w))
          × (download crc32_le (record t { setup = w.setup }) full_cfg
              ≡ some (window w.setup.cfg_full 0 max_cfg_size))
          × ((i : ℕ) → i < max_cfg_size → IsByteOf w.setup image i)
  download-upload_full i2c d s chunks before t h l fits b f ok readable =
      let image = buffer_of (concat chunks) 0xff in
      let r = save_config_full crc32_le flash s.setup s.chip image in
      let start : World = record { setup = at_reset before; oled = d; calls = [] } in
      let up = upload-full crc32_le s chunks l fits ok in
      let boot =
        load_config-save_config_full crc32_le flash s.setup s.chip image before
          (buffer_of-IsBytes (concat chunks) b) f ok readable in
      let run = app_main-serves driver beyond crc32_le flash i2c start boot.0 r.chip h boot.1 in
      let byte = station_setup-IsByteOf boot.0 in
      let loaded : run.0.setup.cfg_full_loaded ≡ true =
        ap (λ (x : Setup). x.cfg_full_loaded) run.2 ∙ (byte 0).1 ∙ boot.2 in
      (
        up.0,
        run.0,
        up.1,
        ap (λ c. app_main driver beyond crc32_le flash true i2c c start) up.2 ∙ run.1,
        download-full crc32_le (record t { setup = run.0.setup }) loaded,
        λ i hi.
            subst (λ x. IsByteOf x image i) (sym run.2)
              (elim (byte i).0 [
                | inl e ↦ inl (e ∙ window-at _ image max_cfg_size i hi boot.3)
                | inr e ↦ inr e
              ]),
      )
