-- ===== src/Tests/Store.antt =====
-- Runs of the configuration store.
use mstd.Prelude.{◌∷◌, [], window, overlay, ◌≡◌, ◌≢◌, refl, true, none, some, arith}
use mstd.Setup.Scan.{
  Located, unlocated, max_cfg_size, size_offset, no_crc, eval_crc, accept, advance, all_free,
  check_for_free_bytes, scan_round, scan_from, find_active_config,
}
use mstd.Setup.Walk.{here, next, find_active_config_total}
use mstd.Setup.Sound.{IsRecord, ConfigIsRecord, find_active_config_sound}
use mstd.Setup.Shift.{From, find_active_config-latest}
use mstd.Setup.Image.{IsChecked}
use mstd.Setup.Boot.{IsReady}
use mstd.Setup.Restart.{IsActive, load_config-save_config_image}
use mstd.Setup.Load.{load_config_total, load_config-IsReady}
use mstd.Setup.History.{IsReliable, save_all, Refines, nothing, save_all-Refines}
use mstd.Setup.Kept.{sealed, admissible, keep, keep_all}
use mstd.Setup.Full.{load_config-save_config_full}
use mstd.Setup.Stale.{find_active_config-packed, save_config_image-save_config_full}
use mstd.Setup.Save.{
  Setup, at_reset, check_image, fill_crc, store_image, write_image, load_config, save_config_image,
  save_config_full, u32_bytes,
}
use mstd.Tests.Data.{crc, crc_range, flash, erased, setup, image, image-IsBytes, stored, packed}

pub ready : IsReady crc flash setup erased
ready = record {
  partition = refl;
  present = refl;
  shift = record {
    aligned = omega arith;
    inside = omega arith;
    free = λ i lo hi. refl;
    found = unlocated;
    walk = here;
  };
}

pub not_free : eval_crc crc image size_offset 108 ≢ no_crc
unfolding eval_crc window
not_free = omega arith

pub saves : (save_config_image crc flash setup erased image 108).error ≡ none
unfolding save_config_image check_image fill_crc store_image write_image eval_crc
saves = refl

load_config-save_config_image_example :
    let r = save_config_image crc flash setup erased image 108 in
    (s' : Setup) × (load_config crc flash (at_reset erased) r.chip ≡ some s')
    × IsActive s' r.image 108
load_config-save_config_image_example =
    load_config-save_config_image crc flash crc_range setup erased image 108 erased ready
      image-IsBytes not_free saves refl

load_config-IsReady_example :
    IsReady crc flash (load_config_total crc flash (at_reset erased) erased).0 erased
load_config-IsReady_example =
    load_config-IsReady crc flash erased erased refl refl
      (load_config_total crc flash (at_reset erased) erased).1 (λ q i lo hi. refl)

find_active_config_total_example :
    (r : Located) × (find_active_config crc stored unlocated ≡ some r)
find_active_config_total_example = find_active_config_total crc stored unlocated

-- The scan of the stored configuration.
abbrev pub found : Located
found = record { config = some 0; cfg_size = 108; next_cfg_shift = some 108 }

pub scans : find_active_config crc stored unlocated ≡ some found
unfolding find_active_config scan_from scan_round accept eval_crc window check_for_free_bytes
    all_free
scans = refl

pub passes :
    scan_round crc stored 0 unlocated
    ≡ advance 108 (record unlocated { config = some 0; cfg_size = 108 })
unfolding scan_round accept eval_crc window
passes = refl

pub stored-IsRecord : IsRecord crc stored 0 108
unfolding eval_crc window
stored-IsRecord = record {
  aligned = omega arith;
  whole_field = omega arith;
  length_field = refl;
  inside = omega arith;
  not_free = omega arith;
  checked = refl;
}

find_active_config_sound_example : ConfigIsRecord crc stored found
find_active_config_sound_example = find_active_config_sound crc stored scans

find_active_config-latest_example : From crc stored 0 found
find_active_config-latest_example =
    find_active_config-latest crc stored 0 108 here stored-IsRecord scans

fills : fill_crc crc image 108 ≡ some (overlay image 0 (u32_bytes 104))
unfolding fill_crc eval_crc window
fills = refl

fills_packed :
    scan_round crc packed 0 unlocated
    ≡ advance 4096 (record unlocated { config = some 0; cfg_size = 4096 })
unfolding scan_round accept eval_crc window
fills_packed = refl

find_active_config-packed_example :
    (r : Located) × (find_active_config crc packed unlocated ≡ some r) × (r.next_cfg_shift ≡ some 0)
find_active_config-packed_example =
    find_active_config-packed crc packed (next here (omega arith) (omega arith) fills_packed)
      (omega arith)

saves_full : (save_config_full crc flash setup erased packed).error ≡ none
unfolding save_config_full
saves_full = refl

checks_full : check_image (save_config_full crc flash setup erased packed).setup image 108 ≡ none
unfolding save_config_full check_image
checks_full = refl

save_config_image-save_config_full_example :
    let r = save_config_full crc flash setup erased packed in
    (save_config_image crc flash r.setup r.chip image 108).chip
    ≡ (flash.write r.chip 0 (window (overlay image 0 (u32_bytes 104)) 0 108)).1
save_config_image-save_config_full_example =
    save_config_image-save_config_full crc flash setup erased packed image 108 saves_full
      checks_full fills

checks : IsChecked setup image 108
checks = record {
  partition = refl;
  fits = omega arith;
  large = omega arith;
  length_field = refl;
  whole_field = omega arith;
}

saves_all : (save_config_full crc flash setup erased image).error ≡ none
unfolding save_config_full
saves_all = refl

load_config-save_config_full_example :
    let r = save_config_full crc flash setup erased image in
    (s' : Setup) × (load_config crc flash (at_reset erased) r.chip ≡ some s')
    × (s'.cfg_full_loaded ≡ true)
    × (window s'.cfg_full 0 max_cfg_size ≡ window image 0 max_cfg_size)
load_config-save_config_full_example =
    load_config-save_config_full crc flash setup erased image erased image-IsBytes refl saves_all
      refl

abbrev pub reliable : IsReliable crc flash
reliable = record { reads = λ c. refl; erases = λ c. refl; writes = λ c a bs. refl }

-- The image is let through, an image of the same bytes and a wrong length is not.
keeps : keep_all crc none ((image, 108) ∷ (image, 112) ∷ []) ≡ some (sealed crc image 108)
unfolding keep_all keep admissible eval_crc window
keeps = refl

not_free_either : eval_crc crc image size_offset 112 ≢ no_crc
unfolding eval_crc window
not_free_either = omega arith

save_all-Refines_example :
    let r = save_all crc flash setup erased ((image, 108) ∷ (image, 112) ∷ []) in
    Refines crc flash r.0 r.1 (keep_all crc none ((image, 108) ∷ (image, 112) ∷ []))
save_all-Refines_example =
    save_all-Refines crc flash crc_range reliable setup erased none
      ((image, 108) ∷ (image, 112) ∷ []) (record { ready = ready; contents = nothing })
      ((image-IsBytes, not_free), ((image-IsBytes, not_free_either), tt))
