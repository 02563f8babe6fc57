-- ===== src/Setup/Save.antt =====
-- load_config, save_config_image and save_config_full of soft/bootloader/main/setup_data.cpp.
use mstd.Prelude.{
  ℕ, ◌+◌, ◌/◌, ◌%◌, Bool, true, false, Option, none, some, List, [], ◌∷◌, Memory, window, overlay,
  add_size, ltb, ◌==◌, not, ◌||◌, if◌then◌else◌,
}
use mstd.Setup.Flash.{Flash}
use mstd.Setup.Scan.{
  Located, unlocated, max_cfg_size, sizeof_config, size_offset, crc_field, size_field, no_crc,
  record_size, eval_crc, find_active_config,
}

-- The globals of setup_data.cpp.
pub record Setup : Type 0 where
  pub located : Located
  pub open located use *
  pub cfg_full : Memory
  pub cfg_full_loaded : Bool
  -- cfg_pat is not null
  pub cfg_pat : Bool

-- Their values when the program starts; `m` is what the zeroed cfg_full and what follows it hold.
abbrev pub at_reset : Memory → Setup
at_reset m = record { located = unlocated; cfg_full = m; cfg_full_loaded = false; cfg_pat = false }

-- The error texts that the two save functions return.
pub data SaveError : Type 0 where
  no_partition image_too_big image_too_small size_odd size_wrong crc_wrong : SaveError
  cannot_erase cannot_write : SaveError

-- What a save leaves: the text returned (`none` is NULL), the globals, the chip and the image.
pub record Saved (Chip : Type 0) : Type 0 where
  pub error : Option SaveError
  pub setup : Setup
  pub chip : Chip
  pub image : Memory

-- The checks of save_config_image before the checksum.
unfoldable pub check_image : Setup → Memory → ℕ → Option SaveError
check_image s image size =
    if not s.cfg_pat
    then some no_partition
    else if ltb max_cfg_size size
    then some image_too_big
    else if ltb size sizeof_config
    then some image_too_small
    else if not (size % 4 == 0)
    then some size_odd
    else if not (record_size (size_field image 0) == size) || (size_field image 0 / 256 == 0xff)
    then some size_wrong
    else none

-- The bytes of a uint32_t, in little-endian order.
abbrev pub u32_bytes : ℕ → List ℕ
u32_bytes x = x % 256 ∷ (x / 256 % 256) ∷ (x / 65536 % 256) ∷ (x / 16777216 % 256) ∷ []

module _ (crc32_le : ℕ → List ℕ → ℕ) where
  -- The checksum of an image is filled in where it is -1, and must be right elsewhere.
  unfoldable pub fill_crc : Memory → ℕ → Option Memory
  fill_crc image size =
      let crc = eval_crc crc32_le image size_offset size in
      if crc_field image 0 == no_crc
      then some (overlay image 0 (u32_bytes crc))
      else if crc_field image 0 == crc
      then some image
      else none

  module _ (flash : Flash) where
    open flash use {Chip, contents, read_ok, find_first, erase_range, write}

    -- The globals and the chip; `none` means that the scan ran out of fuel. A failed read leaves
    -- cfg_full undefined; it is not read until it is loaded.
    unfoldable pub load_config : Setup → Chip → Option Setup
    load_config s c =
        if s.cfg_full_loaded
        then some s
        else if not (s.cfg_pat || find_first c)
        then some s
        else if not (read_ok c)
        then some (record s { cfg_pat = false })
        else (let m = overlay s.cfg_full 0 (window (contents c) 0 max_cfg_size) in
            elim (find_active_config crc32_le m s.located) [
              | none ↦ none
              | some g ↦
                  some
                    (record { located = g; cfg_full = m; cfg_full_loaded = true; cfg_pat = true })
            ])

    -- The write at the end of save_config_image, at the shift chosen.
    unfoldable pub write_image : Setup → Chip → Memory → ℕ → ℕ → Saved Chip
    write_image s c image size shift =
        let bytes = window image 0 size in
        if (write c shift bytes).0
        then record {
          error = none;
          setup = record s {
            located = record (s.located) { next_cfg_shift = some (shift + size) };
          };
          chip = (write c shift bytes).1;
          image = image;
        }
        else record {
          error = some cannot_write;
          setup = record s { located = record (s.located) { next_cfg_shift = none } };
          chip = (write c shift bytes).1;
          image = image;
        }

    -- Where the image does not fit behind the last record, the partition is erased.
    unfoldable pub erase_and_write : Setup → Chip → Memory → ℕ → Saved Chip
    erase_and_write s c image size =
        let s' = record s { located = record (s.located) { next_cfg_shift = some 0 } } in
        if (erase_range c 0 max_cfg_size).0
        then write_image s' (erase_range c 0 max_cfg_size).1 image size 0
        else record {
          error = some cannot_erase;
          setup = s';
          chip = (erase_range c 0 max_cfg_size).1;
          image = image;
        }

    unfoldable pub store_image : Setup → Chip → Memory → ℕ → Saved Chip
    store_image s c image size = elim s.next_cfg_shift [
      | none ↦ erase_and_write s c image size
      | some shift ↦
          if ltb max_cfg_size (add_size shift size)
          then erase_and_write s c image size
          else write_image s c image size shift
    ]

    unfoldable pub save_config_image : Setup → Chip → Memory → ℕ → Saved Chip
    save_config_image s c image size = elim (check_image s image size) [
      | some e ↦ record { error = some e; setup = s; chip = c; image = image }
      | none ↦ elim (fill_crc image size) [
        | none ↦ record { error = some crc_wrong; setup = s; chip = c; image = image }
        | some image' ↦ store_image s c image' size
      ]
    ]

    unfoldable pub save_config_full : Setup → Chip → Memory → Saved Chip
    save_config_full s c image =
        let bytes = window image 0 max_cfg_size in
        let s' = record s { located = record (s.located) { next_cfg_shift = some 0 } } in
        let c' = (erase_range c 0 max_cfg_size).1 in
        if not s.cfg_pat
        then record { error = some no_partition; setup = s; chip = c; image = image }
        else if not (erase_range c 0 max_cfg_size).0
        then record { error = some cannot_erase; setup = s; chip = c'; image = image }
        else if not (write c' 0 bytes).0
        then record {
          error = some cannot_write;
          setup = s';
          chip = (write c' 0 bytes).1;
          image = image;
        }
        else record { error = none; setup = s'; chip = (write c' 0 bytes).1; image = image }
