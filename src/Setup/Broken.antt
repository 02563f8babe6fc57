-- ===== src/Setup/Broken.antt =====
-- What save_config_image leaves where its write has failed.
use mstd.Prelude.{
  ℕ, ◌+◌, ◌^◌, ◌≤◌, ◌<◌, ◌≡◌, ◌≢◌, refl, ◌∙◌, inl, inr, Bool, true, false, Option, none, some, List,
  Memory, IsBytes, window, add_size, ltb, arith, Bool-cases,
}
use mstd.Setup.Flash.{Flash}
use mstd.Setup.Scan.{max_cfg_size, size_offset, no_crc, eval_crc}
use mstd.Setup.Shift.{IsEnd, IsShift}
use mstd.Setup.Save.{
  Setup, SaveError, cannot_write, write_image, erase_and_write, store_image, save_config_image,
}
use mstd.Setup.Append.{IsImage}
use mstd.Setup.Image.{check_image_iff, IsFilled, fill_crc-IsFilled, IsFilled-IsImage}
use mstd.Setup.Boot.{IsReady, erased-IsEnd}
use mstd.Setup.Success.{fill_crc_total}
use mstd.Setup.RoundTrip.{
  store_image-erases, store_image-full, store_image-writes, save_config_image-store,
}
use mstd.Setup.Kept.{admissible, admissible-IsChecked}
use mstd.Setup.Partial.{FailsPartly, write-IsTorn}
use mstd.Setup.PowerLoss.{IsCut}

-- Whether a save of an image that passes the checks erases the partition first.
unfoldable pub erases : Setup → ℕ → Bool
erases s size = elim s.next_cfg_shift [
  | none ↦ true
  | some shift ↦ ltb max_cfg_size (add_size shift size)
]

module _ (crc32_le : ℕ → List ℕ → ℕ) (flash : Flash) where
  open flash use {
    Chip, contents, find_first, erase_range, write, find_first-write, find_first-erase,
  }

  -- The image was being written behind the records of the chip `base`.
  pub record Broken (image : Memory) (size : ℕ) (e : SaveError) (chip : Chip) : Type 0 where
    pub error : e ≡ cannot_write
    pub base : Chip
    pub n : ℕ
    pub cut : ℕ
    pub was_cut : IsCut crc32_le flash base chip image n cut size
    pub base_present : find_first base ≡ true
    pub present : find_first chip ≡ true

  module _ (part : FailsPartly flash)
      (erasable : (c : Chip) → (erase_range c 0 max_cfg_size).0 ≡ true) (image : Memory) (size : ℕ)
      (valid : IsImage crc32_le image size) (bytes : IsBytes image) where
    write_image-Broken :
        (s : Setup) (b : Chip) (n : ℕ) {e : SaveError}
        → IsEnd crc32_le (contents b) n
        → n + size ≤ max_cfg_size
        → find_first b ≡ true
        → (write_image crc32_le flash s b image size n).error ≡ some e
        → (x : Broken image size e (write_image crc32_le flash s b image size n).chip) × (x.base
            ≡ b)
    unfolding write_image
    write_image-Broken s b n {e} end room f h =
        elim (Bool-cases (write b n (window image 0 size)).0) [
          | inl w ↦ cc (rw w at h)
          | inr w ↦
              let t = write-IsTorn flash part b image n size end.free room bytes w in
              let h' : ◌≡◌ {A = Option SaveError} (some cannot_write) (some e) = rw w at h in
              rw w (
                record {
                  error = cc h';
                  base = b;
                  n = n;
                  cut = t.0;
                  was_cut = record { end = end; valid = valid; torn = t.1 };
                  base_present = f;
                  present = find_first-write b n (window image 0 size) ∙ f;
                },
                refl,
              )
        ]

    erase_and_write-Broken :
        (s : Setup) (c : Chip) {e : SaveError}
        → size ≤ max_cfg_size
        → find_first c ≡ true
        → (erase_and_write crc32_le flash s c image size).error ≡ some e
        → Broken image size e (erase_and_write crc32_le flash s c image size).chip
    unfolding erase_and_write
    erase_and_write-Broken s c fits f h =
        let x = erasable c in
        rw x
          (write_image-Broken _ (erase_range c 0 max_cfg_size).1 0 (erased-IsEnd crc32_le flash c x)
            (omega arith) (find_first-erase c 0 max_cfg_size ∙ f) (rw x at h)).0

    store_image-Broken :
        (s : Setup) (c : Chip) (shift : Option ℕ) {e : SaveError}
        → s.next_cfg_shift ≡ shift
        → IsShift crc32_le (contents c) shift
        → size ≤ max_cfg_size
        → find_first c ≡ true
        → (store_image crc32_le flash s c image size).error ≡ some e
        → (x : Broken image size e (store_image crc32_le flash s c image size).chip) × (erases s
                size
              ≡ false
            → x.base ≡ c)
    unfolding erases
    store_image-Broken s c none q end fits f h =
        let t = store_image-erases crc32_le flash s c image size q in
        (rw t (erase_and_write-Broken s c fits f (rw t at h)), λ x. ground (arith, q))
    store_image-Broken s c (some n) q end fits f h =
        elim (Bool-cases (ltb max_cfg_size (add_size n size))) [
          | inl x ↦
              let t = store_image-full crc32_le flash s c image size n q x in
              (rw t (erase_and_write-Broken s c fits f (rw t at h)), λ y. ground (arith, q, x))
          | inr x ↦
              let t = store_image-writes crc32_le flash s c image size n q x in
              let inside = end.inside in
              let w = write_image-Broken s c n end (ground arith) f (rw t at h) in
              rw t (w.0, λ y. w.1)
        ]

  -- A save on a ready store of an admissible image that fails has been writing the image, its
  -- checksum filled in, behind the records, or into the erased partition.
  pub save_config_image-Broken :
      (crc_range : (bs : List ℕ) → crc32_le 0 bs < 2 ^ 32)
      → FailsPartly flash
      → ((c : Chip) → (erase_range c 0 max_cfg_size).0 ≡ true)
      → (s : Setup) (c : Chip) (image : Memory) (size : ℕ) {e : SaveError}
      → IsReady crc32_le flash s c
      → IsBytes image
      → eval_crc crc32_le image size_offset size ≢ no_crc
      → admissible crc32_le image size ≡ true
      → let r = save_config_image crc32_le flash s c image size in
        r.error ≡ some e
        → (image' : Memory) × IsFilled crc32_le crc_range image image' size
          × (x : Broken image' size e r.chip) × (erases s size ≡ false → x.base ≡ c)
  save_config_image-Broken range part erasable s c image size {e = e} ready b nc a h =
      let checked = admissible-IsChecked crc32_le s image size ready.partition a in
      let k = (check_image_iff s image size).1 checked.0 in
      let l = fill_crc_total crc32_le image size checked.1 in
      let filled = fill_crc-IsFilled crc32_le range image size b l.1 in
      let valid = IsFilled-IsImage crc32_le range checked.0 filled nc in
      let t = save_config_image-store crc32_le flash s c image size k l.1 in
      let w =
        store_image-Broken part erasable l.0 size valid filled.bytes s c s.next_cfg_shift refl
          ready.shift checked.0.fits ready.present (rw t at h) in
      let u : (x : Broken l.0 size e (save_config_image crc32_le flash s c image size).chip)
          × (erases s size ≡ false → x.base ≡ c) =
        rw t (w.0, w.1) in
      (l.0, filled, u.0, u.1)
