-- ===== src/Setup/Keeps.antt =====
-- What the server hands out of the store's globals, and that the saves leave it alone.
use mstd.Prelude.{ℕ, ◌≡◌, refl, ◌∙◌, inl, inr, List, Memory, Option-cases, arith}
use mstd.Setup.Flash.{Flash}
use mstd.Setup.Save.{
  Setup, check_image, fill_crc, write_image, erase_and_write, store_image, save_config_image,
  save_config_full,
}

-- The configuration that was loaded, and the image that holds it.
pub record SameConfig (s t : Setup) : Type 0 where
  pub config : t.config ≡ s.config
  pub cfg_size : t.cfg_size ≡ s.cfg_size
  pub cfg_full : t.cfg_full ≡ s.cfg_full
  pub loaded : t.cfg_full_loaded ≡ s.cfg_full_loaded

pub SameConfig-refl : (s : Setup) → SameConfig s s
SameConfig-refl s = record { config = refl; cfg_size = refl; cfg_full = refl; loaded = refl }

pub SameConfig-trans : {s t u : Setup} → SameConfig s t → SameConfig t u → SameConfig s u
SameConfig-trans x y = record {
  config = y.config ∙ x.config;
  cfg_size = y.cfg_size ∙ x.cfg_size;
  cfg_full = y.cfg_full ∙ x.cfg_full;
  loaded = y.loaded ∙ x.loaded;
}

module _ (crc32_le : ℕ → List ℕ → ℕ) (flash : Flash) where
  open flash use {Chip}

  store_image-SameConfig :
      (s : Setup) (c : Chip) (image : Memory) (size : ℕ)
      → SameConfig s (store_image crc32_le flash s c image size).setup
  unfolding store_image erase_and_write write_image
  store_image-SameConfig s c image size = record {
    config = ground arith;
    cfg_size = ground arith;
    cfg_full = ground arith;
    loaded = ground arith;
  }

  pub save_config_image-SameConfig :
      (s : Setup) (c : Chip) (image : Memory) (size : ℕ)
      → SameConfig s (save_config_image crc32_le flash s c image size).setup
  unfolding save_config_image
  save_config_image-SameConfig s c image size = elim (Option-cases (check_image s image size)) [
    | inr (x, k) ↦ rw (k, save_config_image) (SameConfig-refl s)
    | inl k ↦ elim (Option-cases (fill_crc crc32_le image size)) [
      | inl l ↦ rw (k, save_config_image) (rw l (SameConfig-refl s))
      | inr (image', l) ↦ rw (k, save_config_image) (rw l (store_image-SameConfig s c image' size))
    ]
  ]

  pub save_config_full-SameConfig :
      (s : Setup) (c : Chip) (image : Memory)
      → SameConfig s (save_config_full crc32_le flash s c image).setup
  unfolding save_config_full
  save_config_full-SameConfig s c image = record {
    config = ground arith;
    cfg_size = ground arith;
    cfg_full = ground arith;
    loaded = ground arith;
  }
