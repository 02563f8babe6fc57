-- ===== src/Setup/RoundTrip.antt =====
-- save_config_image followed by load_config after a restart, and the invariant of the store.
use mstd.Prelude.{
  ℕ, ◌^◌, ◌≤◌, ◌<◌, ◌≡◌, refl, ◌∙◌, ◌≢◌, inl, inr, true, false, Option, none, some, List, Memory,
  IsBytes, ltb, arith, Bool-cases, Option-cases, add_size,
}
use mathlib.Core.Path.{subst, sym}
use mstd.Setup.Flash.{Flash}
use mstd.Setup.Scan.{max_cfg_size, size_offset, no_crc, eval_crc}
use mstd.Setup.Shift.{IsShift}
use mstd.Setup.Save.{
  SaveError, Setup, Saved, crc_wrong, check_image, fill_crc, write_image, erase_and_write,
  store_image, save_config_image,
}
use mstd.Setup.Append.{IsImage}
use mstd.Setup.Image.{check_image_iff, IsFilled, fill_crc-IsFilled, IsFilled-IsImage}
use mstd.Setup.Boot.{IsReady, erased-IsEnd, IsStored, write_image-IsStored}

module _ (crc32_le : ℕ → List ℕ → ℕ) (flash : Flash) where
  open flash use {Chip, contents, read_ok, find_first, erase_range, find_first-erase}

  erase_and_write-IsStored :
      (s : Setup) (c : Chip) (image : Memory) (size : ℕ)
      → s.cfg_pat ≡ true
      → find_first c ≡ true
      → size ≤ max_cfg_size
      → IsBytes image
      → (erase_and_write crc32_le flash s c image size).error ≡ none
      → IsStored crc32_le flash image size (erase_and_write crc32_le flash s c image size)
  unfolding erase_and_write
  erase_and_write-IsStored s c image size p f fits b e =
      elim (Bool-cases (erase_range c 0 max_cfg_size).0) [
        | inr x ↦ cc (rw x at e)
        | inl x ↦ rw x (
            write_image-IsStored crc32_le flash _ (erase_range c 0 max_cfg_size).1 image size 0 p
              (find_first-erase c 0 max_cfg_size ∙ f) (erased-IsEnd crc32_le flash c x)
              (omega arith) b (rw x at e))
      ]

  -- The shift decides between a write behind the records and an erase.
  pub store_image-erases :
      (s : Setup) (c : Chip) (image : Memory) (size : ℕ)
      → s.next_cfg_shift ≡ none
      → store_image crc32_le flash s c image size ≡ erase_and_write crc32_le flash s c image size
  unfolding store_image
  store_image-erases s c image size q = ground arith

  pub store_image-full :
      (s : Setup) (c : Chip) (image : Memory) (size n : ℕ)
      → s.next_cfg_shift ≡ some n
      → ltb max_cfg_size (add_size n size) ≡ true
      → store_image crc32_le flash s c image size ≡ erase_and_write crc32_le flash s c image size
  unfolding store_image
  store_image-full s c image size n q x = ground arith

  pub store_image-writes :
      (s : Setup) (c : Chip) (image : Memory) (size n : ℕ)
      → s.next_cfg_shift ≡ some n
      → ltb max_cfg_size (add_size n size) ≡ false
      → store_image crc32_le flash s c image size ≡ write_image crc32_le flash s c image size n
  unfolding store_image
  store_image-writes s c image size n q x = ground arith

  store_image-IsStored :
      (s : Setup) (c : Chip) (image : Memory) (size : ℕ) (shift : Option ℕ)
      → s.next_cfg_shift ≡ shift
      → s.cfg_pat ≡ true
      → find_first c ≡ true
      → IsShift crc32_le (contents c) shift
      → size ≤ max_cfg_size
      → IsBytes image
      → (store_image crc32_le flash s c image size).error ≡ none
      → IsStored crc32_le flash image size (store_image crc32_le flash s c image size)
  store_image-IsStored s c image size none q p f end fits b e =
      let t = store_image-erases s c image size q in
      rw t (erase_and_write-IsStored s c image size p f fits b (rw t at e))
  store_image-IsStored s c image size (some n) q p f end fits b e =
      elim (Bool-cases (ltb max_cfg_size (add_size n size))) [
        | inl x ↦
            let t = store_image-full s c image size n q x in
            rw t (erase_and_write-IsStored s c image size p f fits b (rw t at e))
        | inr x ↦
            let t = store_image-writes s c image size n q x in
            let inside = end.inside in
            rw t (
              write_image-IsStored crc32_le flash s c image size n p f end (ground arith) b
                (rw t at e))
      ]

  pub store_image-image :
      (s : Setup) (c : Chip) (image : Memory) (size : ℕ)
      → (store_image crc32_le flash s c image size).image ≡ image
  unfolding store_image erase_and_write write_image
  store_image-image s c image size = ground arith

  pub save_config_image-store :
      (s : Setup) (c : Chip) (image : Memory) (size : ℕ) {image' : Memory}
      → check_image s image size ≡ none
      → fill_crc crc32_le image size ≡ some image'
      → save_config_image crc32_le flash s c image size ≡ store_image crc32_le flash s c image' size
  unfolding save_config_image
  save_config_image-store s c image size k l = rw (k, save_config_image) (rw l)

  pub save_config_image-refused :
      (s : Setup) (c : Chip) (image : Memory) (size : ℕ) {x : SaveError}
      → check_image s image size ≡ some x
      → save_config_image crc32_le flash s c image size
        ≡ record { error = some x; setup = s; chip = c; image = image }
  unfolding save_config_image
  save_config_image-refused s c image size k = ground arith

  pub save_config_image-wrong :
      (s : Setup) (c : Chip) (image : Memory) (size : ℕ)
      → check_image s image size ≡ none
      → fill_crc crc32_le image size ≡ none
      → save_config_image crc32_le flash s c image size
        ≡ record { error = some crc_wrong; setup = s; chip = c; image = image }
  unfolding save_config_image
  save_config_image-wrong s c image size k l = ground arith

  module _ (crc_range : (bs : List ℕ) → crc32_le 0 bs < 2 ^ 32) where
    -- What a successful save leaves: the image that it wrote is valid, and stored.
    pub record HasSaved (image : Memory) (size : ℕ) (r : Saved Chip) : Type 0 where
      pub filled : IsFilled crc32_le crc_range image r.image size
      pub valid : IsImage crc32_le r.image size
      pub stored : IsStored crc32_le flash r.image size r

    -- A save on a ready store that returns NULL has passed the checks and stored the image, its
    -- checksum filled in, behind the last record or at the start of the erased partition. The image
    -- is bytes, and its checksum of 32 bits is not the mark of a free slot.
    pub save_config_image-HasSaved :
        (s : Setup) (c : Chip) (image : Memory) (size : ℕ)
        → IsReady crc32_le flash s c
        → IsBytes image
        → eval_crc crc32_le image size_offset size ≢ no_crc
        → (save_config_image crc32_le flash s c image size).error ≡ none
        → HasSaved image size (save_config_image crc32_le flash s c image size)
    unfolding save_config_image
    save_config_image-HasSaved s c image size ready b ne e =
        elim (Option-cases (check_image s image size)) [
          | inr (x, k) ↦ cc (rw (save_config_image-refused s c image size k) at e)
          | inl k ↦ elim (Option-cases (fill_crc crc32_le image size)) [
            | inl l ↦ cc (rw (save_config_image-wrong s c image size k l) at e)
            | inr (image', l) ↦
                let t = save_config_image-store s c image size k l in
                let same = store_image-image s c image' size in
                let checked = (check_image_iff s image size).0 k in
                let filled = fill_crc-IsFilled crc32_le crc_range image size b l in
                let stored =
                  store_image-IsStored s c image' size s.next_cfg_shift refl ready.partition
                    ready.present ready.shift checked.fits filled.bytes (rw t at e) in
                rw t (record {
                  filled = rw same filled;
                  valid = rw same (IsFilled-IsImage crc32_le crc_range checked filled ne);
                  stored =
                      subst
                        (λ x.
                          IsStored crc32_le flash x size
                            (store_image crc32_le flash s c image' size))
                        (sym same) stored;
                })
          ]
        ]
