-- ===== src/Setup/Stale.antt =====
-- A shift of 0 over a partition that is not erased: a full partition and save_config_full leave
-- one, and the next save writes over the first record with no erase.
use mstd.Prelude.{ℕ, ◌≤◌, ◌≡◌, refl, ◌∙◌, none, some, List, Memory, window, arith}
use mstd.Setup.Flash.{Flash}
use mstd.Setup.Scan.{Located, unlocated, max_cfg_size, find_active_config}
use mstd.Setup.Walk.{Walk, here, next, Ends-past, Walk-Ends, Ends-find}
use mstd.Setup.Save.{Setup, save_config_image, save_config_full, check_image, fill_crc, write_image}
use mstd.Setup.Shift.{round-shift}
use mstd.Setup.RoundTrip.{save_config_image-store, store_image-writes}
use mstd.Setup.Image.{check_image_iff}

module _ (crc32_le : ℕ → List ℕ → ℕ) where
  Walk-shift :
      {m : Memory} {p : ℕ} {g : Located} {q : ℕ} {h : Located}
      → Walk crc32_le m p g q h
      → h.next_cfg_shift ≡ g.next_cfg_shift
  Walk-shift here = refl
  Walk-shift {m} (next {q = q} {h = h} w lt a e) = round-shift crc32_le m q h e ∙ Walk-shift w

  -- A scan from the reset state that walks to the end of the partition ends, and leaves the
  -- shift 0, not -1.
  pub find_active_config-packed :
      (m : Memory) {p : ℕ} {g : Located}
      → Walk crc32_le m 0 unlocated p g
      → max_cfg_size ≤ p
      → (r : Located) × (find_active_config crc32_le m unlocated ≡ some r)
        × (r.next_cfg_shift ≡ some 0)
  find_active_config-packed m {p} {g} w le = (
    g,
    Ends-find crc32_le m unlocated g (Walk-Ends crc32_le m w (Ends-past crc32_le m p g le)),
    Walk-shift w,
  )

  module _ (flash : Flash) where
    open flash use {Chip, write}

    -- A save at shift 0 erases nothing: the chip it leaves is the one that it was given, written at
    -- 0.
    pub save_config_image-at_zero :
        (s : Setup) (c : Chip) (image : Memory) (size : ℕ) {image' : Memory}
        → s.next_cfg_shift ≡ some 0
        → check_image s image size ≡ none
        → fill_crc crc32_le image size ≡ some image'
        → (save_config_image crc32_le flash s c image size).chip
          ≡ (write c 0 (window image' 0 size)).1
    unfolding write_image
    save_config_image-at_zero s c image size {image'} q k l =
        let fits = ((check_image_iff s image size).0 k).fits in
        let t = store_image-writes crc32_le flash s c image' size 0 q (ground arith) in
        rw (save_config_image-store crc32_le flash s c image size k l) (rw t (ground arith))

    save_config_full-shift :
        (s : Setup) (c : Chip) (image : Memory)
        → (save_config_full crc32_le flash s c image).error ≡ none
        → (save_config_full crc32_le flash s c image).setup.next_cfg_shift ≡ some 0
    unfolding save_config_full
    save_config_full-shift s c image e = ground arith

    -- After save_config_full has written the whole partition, the next save_config_image that
    -- passes its checks writes its image over the start of it, with no erase in between.
    pub save_config_image-save_config_full :
        (s : Setup) (c : Chip) (full image : Memory) (size : ℕ) {image' : Memory}
        → (save_config_full crc32_le flash s c full).error ≡ none
        → let r = save_config_full crc32_le flash s c full in
          check_image r.setup image size ≡ none
          → fill_crc crc32_le image size ≡ some image'
          → (save_config_image crc32_le flash r.setup r.chip image size).chip
            ≡ (write r.chip 0 (window image' 0 size)).1
    save_config_image-save_config_full s c full image size e k l =
        save_config_image-at_zero _ _ image size (save_config_full-shift s c full e) k l
