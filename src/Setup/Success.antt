-- ===== src/Setup/Success.antt =====
-- When save_config_image returns NULL.
use mstd.Prelude.{
  ℕ, ◌==◌, ◌≡◌, ◌⊎◌, inl, inr, true, Option, none, some, List, Memory, arith, overlay, ltb, window,
  add_size, refl, Bool-cases,
}
use mstd.Setup.Flash.{Flash}
use mstd.Setup.Scan.{max_cfg_size, size_offset, crc_field, no_crc, eval_crc}
use mstd.Setup.Save.{
  Setup, u32_bytes, fill_crc, write_image, erase_and_write, store_image, save_config_image,
}
use mstd.Setup.Image.{IsChecked, check_image_iff}
use mstd.Setup.RoundTrip.{
  save_config_image-store, store_image-erases, store_image-full, store_image-writes,
}

module _ (crc32_le : ℕ → List ℕ → ℕ) where
  pub fill_crc_total :
      (image : Memory) (size : ℕ)
      → (crc_field image 0 ≡ no_crc)
        ⊎ (crc_field image 0 ≡ eval_crc crc32_le image size_offset size)
      → (image' : Memory) × (fill_crc crc32_le image size ≡ some image')
  unfolding fill_crc
  fill_crc_total image size (inl e) =
      (overlay image 0 (u32_bytes (eval_crc crc32_le image size_offset size)), ground (arith, e))
  fill_crc_total image size (inr e) = elim (Bool-cases (crc_field image 0 == no_crc)) [
    | inl b ↦
        (overlay image 0 (u32_bytes (eval_crc crc32_le image size_offset size)), ground (arith, b))
    | inr b ↦ (image, ground (arith, e, b))
  ]

  module _ (flash : Flash) where
    open flash use {Chip, erase_range, write}

    module _ (w : (c : Chip) (a : ℕ) (bs : List ℕ) → (write c a bs).0 ≡ true) where
      write_image-succeeds :
          (s : Setup) (c : Chip) (image : Memory) (size n : ℕ)
          → (write_image crc32_le flash s c image size n).error ≡ none
      unfolding write_image
      write_image-succeeds s c image size n = rw (w c n (window image 0 size)) refl

      erase_and_write-succeeds :
          (s : Setup) (c : Chip) (image : Memory) (size : ℕ)
          → (erase_range c 0 max_cfg_size).0 ≡ true
          → (erase_and_write crc32_le flash s c image size).error ≡ none
      unfolding erase_and_write
      erase_and_write-succeeds s c image size e = rw e (write_image-succeeds _ _ image size 0)

      store_image-succeeds :
          (s : Setup) (c : Chip) (image : Memory) (size : ℕ) (shift : Option ℕ)
          → s.next_cfg_shift ≡ shift
          → (erase_range c 0 max_cfg_size).0 ≡ true
          → (store_image crc32_le flash s c image size).error ≡ none
      store_image-succeeds s c image size none q e =
          rw (store_image-erases crc32_le flash s c image size q)
            (erase_and_write-succeeds s c image size e)
      store_image-succeeds s c image size (some n) q e =
          elim (Bool-cases (ltb max_cfg_size (add_size n size))) [
            | inl x ↦
                rw (store_image-full crc32_le flash s c image size n q x)
                  (erase_and_write-succeeds s c image size e)
            | inr x ↦
                rw (store_image-writes crc32_le flash s c image size n q x)
                  (write_image-succeeds s c image size n)
          ]

    -- An image that passes the checks, and whose checksum is either -1 or right, is saved with no
    -- error if the chip takes the erase and the writes.
    pub save_config_image-IsChecked :
        (s : Setup) (c : Chip) (image : Memory) (size : ℕ)
        → IsChecked s image size
        → (crc_field image 0 ≡ no_crc)
          ⊎ (crc_field image 0 ≡ eval_crc crc32_le image size_offset size)
        → (erase_range c 0 max_cfg_size).0 ≡ true
        → ((c' : Chip) (a : ℕ) (bs : List ℕ) → (write c' a bs).0 ≡ true)
        → (save_config_image crc32_le flash s c image size).error ≡ none
    save_config_image-IsChecked s c image size ch f e w =
        let t = fill_crc_total image size f in
        rw
          (save_config_image-store crc32_le flash s c image size
            ((check_image_iff s image size).1 ch) t.1)
          (store_image-succeeds w s c t.0 size s.next_cfg_shift refl e)
