-- ===== src/Setup/Full.antt =====
-- save_config_full: what it leaves in the partition, and what the next start loads.
use mstd.Prelude.{
  ℕ, ◌+◌, ◌<◌, ◌≡◌, refl, sym, ap, ◌∙◌, true, none, some, List, Memory, IsBytes, window,
  window_cong, overlay, arith,
}
use mstd.Setup.Flash.{Flash}
use mstd.Setup.Scan.{unlocated, max_cfg_size}
use mstd.Setup.Walk.{find_active_config_total}
use mstd.Setup.Save.{Setup, at_reset, load_config, save_config_full}
use mstd.Setup.Boot.{loaded-same, write-IsWritten}
use mstd.Setup.Restart.{load_config-reads}

module _ (crc32_le : ℕ → List ℕ → ℕ) (flash : Flash) where
  open flash use {
    Chip, contents, read_ok, find_first, erase_range, erase_inside, write, find_first-write,
    find_first-erase,
  }

  -- A save of the whole partition that succeeds has erased it and written the image.
  save_config_full-steps :
      (s : Setup) (c : Chip) (image : Memory)
      → (save_config_full crc32_le flash s c image).error ≡ none
      → let c' = (erase_range c 0 max_cfg_size).1 in
        ((erase_range c 0 max_cfg_size).0 ≡ true)
        × ((write c' 0 (window image 0 max_cfg_size)).0 ≡ true)
        × ((save_config_full crc32_le flash s c image).chip
            ≡ (write c' 0 (window image 0 max_cfg_size)).1)
  unfolding save_config_full
  save_config_full-steps s c image e = ground arith

  save_config_full-contents :
      (s : Setup) (c : Chip) (image : Memory)
      → IsBytes image
      → (save_config_full crc32_le flash s c image).error ≡ none
      → (i : ℕ) → i < max_cfg_size
      → contents (save_config_full crc32_le flash s c image).chip i ≡ image i
  save_config_full-contents s c image b e i h =
      let t = save_config_full-steps s c image e in
      let c' = (erase_range c 0 max_cfg_size).1 in
      let w =
        write-IsWritten crc32_le flash c' image 0 max_cfg_size
          (λ j lo hi. erase_inside c 0 max_cfg_size j t.0 lo (omega arith)) (omega arith) b t.1 in
      let z : 0 + i ≡ i = omega arith in
      ap (λ x. contents x i) t.2
      ∙ sym (ap (contents (write c' 0 (window image 0 max_cfg_size)).1) z)
      ∙ w.stored i h

  -- A save of the whole partition that returns NULL is what the next start loads: if the partition
  -- is found and can be read, load_config ends and leaves the image, which is bytes, in cfg_full.
  pub load_config-save_config_full :
      (s : Setup) (c : Chip) (image before : Memory)
      → IsBytes image
      → find_first c ≡ true
      → (save_config_full crc32_le flash s c image).error ≡ none
      → read_ok (save_config_full crc32_le flash s c image).chip ≡ true
      → let r = save_config_full crc32_le flash s c image in
        (s' : Setup) × (load_config crc32_le flash (at_reset before) r.chip ≡ some s')
        × (s'.cfg_full_loaded ≡ true)
        × (window s'.cfg_full 0 max_cfg_size ≡ window image 0 max_cfg_size)
  load_config-save_config_full s c image before b f e ok =
      let t = save_config_full-steps s c image e in
      let chip = (save_config_full crc32_le flash s c image).chip in
      let found : find_first chip ≡ true =
        ap find_first t.2 ∙ find_first-write _ 0 _ ∙ find_first-erase c 0 max_cfg_size ∙ f in
      let m = overlay before 0 (window (contents chip) 0 max_cfg_size) in
      let scan = find_active_config_total crc32_le m unlocated in
      (
        record { located = scan.0; cfg_full = m; cfg_full_loaded = true; cfg_pat = true },
        load_config-reads crc32_le flash before chip found ok scan.1,
        refl,
        window_cong m image 0 max_cfg_size (λ i lo hi.
            loaded-same before (contents chip) i hi ∙ save_config_full-contents s c image b e i hi),
      )
