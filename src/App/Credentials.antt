-- ===== src/App/Credentials.antt =====
-- From the configuration compiler to the Wi-Fi driver: a record of the later layout is saved, and the
-- boot loader sets its station up with the texts of it.
use mstd.Prelude.{
  ℕ, ◌+◌, ◌^◌, ◌≤◌, ◌<◌, ◌≡◌, ◌≢◌, sym, ap, ◌∙◌, inl, true, none, some, List, [], Memory, get_or,
  get_or-window, arith,
}
use mstd.Setup.Flash.{Flash}
use mstd.Setup.Scan.{size_offset, no_crc, eval_crc, ssid_offset, passwd_offset}
use mstd.Setup.Save.{Setup, at_reset, load_config, save_config_image}
use mstd.Setup.Layout.{
  ConfigV1, IsCompiled, sizeof_config_v1, config_image, char_array, config_image-IsBytes,
  size_field-config, crc_field-config, ssid-config, passwd-config,
}
use mstd.Setup.Image.{IsChecked}
use mstd.Setup.Boot.{IsReady}
use mstd.Setup.RoundTrip.{save_config_image-HasSaved}
use mstd.Setup.Restart.{IsActive, load_config-save_config_image}
use mstd.Setup.Success.{save_config_image-IsChecked}
use mstd.Setup.History.{IsReliable}
use mstd.Wifi.Station.{ssid_size, station_setup}
use mstd.Wifi.Credentials.{station_setup-texts}

module _ (crc32_le : ℕ → List ℕ → ℕ) (flash : Flash) where
  open flash use {Chip}

  config-IsChecked :
      (s : Setup) (c : ConfigV1)
      → IsCompiled c
      → s.cfg_pat ≡ true
      → IsChecked s (config_image c) sizeof_config_v1
  config-IsChecked s c h p =
      let e = size_field-config c h in
      record {
        partition = p;
        fits = omega arith;
        large = omega arith;
        length_field = omega (arith, e);
        whole_field = λ z. omega (arith, e);
      }

  -- A byte of the active configuration behind its checksum is the image's.
  active_byte :
      (s : Setup) (image saved : Memory) (size k : ℕ) (a : IsActive s saved size)
      → k < size
      → saved k ≡ image k
      → s.cfg_full (a.config + k) ≡ image k
  active_byte s image saved size k a lt e =
      sym (get_or-window s.cfg_full a.config size k 0 lt)
      ∙ ap (λ l. get_or l k 0) a.bytes
      ∙ get_or-window saved 0 size k 0 lt
      ∙ ap saved (omega arith)
      ∙ e

  -- A record of the later layout that names a network, with texts that fit, no checksum and the size
  -- that its comment asks for, is saved without an error on a ready store whose chip does not fail;
  -- after a restart the station is set up with the record's texts. Checksums have 32 bits, and the
  -- record's is not the mark of a free slot.
  pub station_setup-config :
      (crc_range : (bs : List ℕ) → crc32_le 0 bs < 2 ^ 32) (s : Setup) (chip : Chip) (c : ConfigV1)
      (before : Memory)
      → IsReliable crc32_le flash
      → IsReady crc32_le flash s chip
      → IsCompiled c
      → c.ssid ≢ []
      → eval_crc crc32_le (config_image c) size_offset sizeof_config_v1 ≢ no_crc
      → let r = save_config_image crc32_le flash s chip (config_image c) sizeof_config_v1 in
        (r.error ≡ none)
        × (s' : Setup) × (load_config crc32_le flash (at_reset before) r.chip ≡ some s')
        × ((station_setup s').0
            ≡ some (record { ssid = char_array ssid_size c.ssid; password = some (c.passwd) }))
  station_setup-config range s chip c before reliable ready h named nc =
      let image = config_image c in
      let r = save_config_image crc32_le flash s chip image sizeof_config_v1 in
      let bytes = config_image-IsBytes c h in
      let error : r.error ≡ none =
        save_config_image-IsChecked crc32_le flash s chip image sizeof_config_v1
          (config-IsChecked s c h ready.partition) (inl (crc_field-config c h))
          (reliable.erases chip) reliable.writes in
      let saved =
        save_config_image-HasSaved crc32_le flash range s chip image sizeof_config_v1 ready bytes nc
          error in
      let boot =
        load_config-save_config_image crc32_le flash range s chip image sizeof_config_v1 before
          ready bytes nc error (reliable.reads r.chip) in
      let a = boot.2 in
      let at : (k : ℕ) → 4 ≤ k → k < 108 → boot.0.cfg_full (a.config + k) ≡ image k =
        λ k lo lt. active_byte boot.0 image r.image 108 k a lt (saved.filled.body k lo) in
      (
        error,
        boot.0,
        boot.1,
        station_setup-texts boot.0 a.config c.ssid c.passwd h.ssid h.passwd h.ssid_fits
            h.passwd_fits named a.located
            (λ k lt.
              ap boot.0.cfg_full (omega arith)
              ∙ at (ssid_offset + k) (omega arith) (omega arith)
              ∙ ssid-config c h k lt)
            (λ k lt.
              ap boot.0.cfg_full (omega arith)
              ∙ at (passwd_offset + k) (omega arith) (omega arith)
              ∙ passwd-config c h k lt),
      )
