-- ===== src/Tests/Credentials.antt =====
-- A run from a compiled record to the station.
use mstd.Prelude.{window, ◌≡◌, ◌≢◌, refl, none, some, codes, arith}
use mstd.Setup.Scan.{size_offset, no_crc, eval_crc}
use mstd.Setup.Save.{Setup, at_reset, load_config, save_config_image}
use mstd.Setup.Layout.{
  ConfigV1, IsCompiled, default_config, config_version, config_image, char_array, sizeof_config_v1,
}
use mstd.Wifi.Station.{ssid_size, station_setup}
use mstd.App.Credentials.{station_setup-config}
use mstd.Tests.Data.{crc, crc_range, flash, erased, setup}
use mstd.Tests.Store.{ready, reliable}

abbrev compiled : ConfigV1
compiled = record (default_config no_crc 26 config_version) {
  ssid = codes "home";
  passwd = codes "secret";
}

compiled-IsCompiled : IsCompiled compiled
compiled-IsCompiled = record {
  crc = refl;
  size = refl;
  version = omega arith;
  ssid = omega arith;
  ssid_fits = omega arith;
  passwd = omega arith;
  passwd_fits = omega arith;
  oled_contrast = omega arith;
  options1 = omega arith;
}

not_free : eval_crc crc (config_image compiled) size_offset sizeof_config_v1 ≢ no_crc
unfolding eval_crc window
not_free = omega arith

station_setup-config_example :
    let r = save_config_image crc flash setup erased (config_image compiled) sizeof_config_v1 in
    (r.error ≡ none)
    × (s' : Setup) × (load_config crc flash (at_reset erased) r.chip ≡ some s')
    × ((station_setup s').0
        ≡ some (record {
          ssid = char_array ssid_size (codes "home");
          password = some (codes "secret");
        }))
station_setup-config_example =
    station_setup-config crc flash crc_range setup erased compiled erased reliable ready
      compiled-IsCompiled (λ e. cc) not_free
