-- ===== src/Setup/Kept.antt =====
-- The store as a client sees it: one configuration, the last that was let through.
use mstd.Prelude.{
  ℕ, ◌+◌, ◌-◌, ◌/◌, ◌^◌, ◌≤◌, ◌<◌, ◌≡◌, refl, sym, ap, ap₂, ◌∙◌, ◌⊎◌, Bool, true, false, ◌&&◌, ◌||◌,
  not, Option, none, some, List, [], ◌∷◌, ◌++◌, Memory, IsBytes, window, window_cong, window-append,
  leb, ◌==◌, if◌then◌else◌, arith,
}
use mstd.Setup.Scan.{
  max_cfg_size, size_offset, sizeof_config, record_size, size_field, crc_field, no_crc, eval_crc,
}
use mstd.Setup.Save.{Setup, u32_bytes, check_image, fill_crc}
use mstd.Setup.Image.{IsChecked, IsFilled}

-- A memory of bytes starts with the bytes of its checksum field.
window-u32_bytes : (m : Memory) → IsBytes m → window m 0 4 ≡ u32_bytes (crc_field m 0)
unfolding window
window-u32_bytes m b =
    let h0 = b 0 in
    let h1 = b 1 in
    let h2 = b 2 in
    let h3 = b 3 in
    ap₂ ◌∷◌ (omega arith)
      (ap₂ ◌∷◌ (omega arith) (ap₂ ◌∷◌ (omega arith) (ap₂ ◌∷◌ (omega arith) refl)))

module _ (crc32_le : ℕ → List ℕ → ℕ) where
  -- The configuration that is kept of an image: its own bytes behind the right checksum.
  unfoldable pub sealed : Memory → ℕ → List ℕ
  sealed image size =
      u32_bytes (eval_crc crc32_le image size_offset size)
      ++ window image size_offset (size - size_offset)

  -- It is what an image holds whose checksum has been filled in.
  pub window-sealed :
      (crc_range : (bs : List ℕ) → crc32_le 0 bs < 2 ^ 32) (image : Memory) (size : ℕ)
      {image' : Memory}
      → sizeof_config ≤ size
      → IsFilled crc32_le crc_range image image' size
      → window image' 0 size ≡ sealed image size
  unfolding sealed
  window-sealed range image size {image'} large filled =
      let head : window image' 0 4 ≡ u32_bytes (eval_crc crc32_le image size_offset size) =
        window-u32_bytes image' filled.bytes ∙ ap u32_bytes filled.checksum in
      let tail : window image' 4 (size - 4) ≡ window image 4 (size - 4) =
        window_cong image' image 4 (size - 4) (λ i lo hi. filled.body i lo) in
      let whole : 4 + (size - 4) ≡ size = omega arith in
      sym (ap (window image' 0) whole)
      ∙ sym (window-append image' 0 4 (size - 4))
      ∙ ap₂ ◌++◌ head tail

  -- Which images are let through.
  unfoldable pub admissible : Memory → ℕ → Bool
  admissible image size =
      leb sizeof_config size
      && leb size max_cfg_size
      && (record_size (size_field image 0) == size)
      && not (size_field image 0 / 256 == 0xff)
      && (crc_field image 0 == no_crc
          || crc_field image 0 == eval_crc crc32_le image size_offset size)

  -- The abstract store, none before its first configuration.
  unfoldable pub keep : Option (List ℕ) → Memory × ℕ → Option (List ℕ)
  keep kept (image, size) = if admissible image size then some (sealed image size) else kept

  unfoldable pub keep_all : Option (List ℕ) → List (Memory × ℕ) → Option (List ℕ)
  keep_all kept [] = kept
  keep_all kept (save ∷ saves) = keep_all (keep kept save) saves

  pub admissible-IsChecked :
      (s : Setup) (image : Memory) (size : ℕ)
      → s.cfg_pat ≡ true
      → admissible image size ≡ true
      → IsChecked s image size
        × ((crc_field image 0 ≡ no_crc)
            ⊎ (crc_field image 0 ≡ eval_crc crc32_le image size_offset size))
  unfolding admissible
  admissible-IsChecked s image size p h = (
    record {
      partition = p;
      fits = ground arith;
      large = ground arith;
      length_field = ground arith;
      whole_field = ground arith;
    },
    ground arith,
  )

  pub inadmissible :
      (s : Setup) (image : Memory) (size : ℕ)
      → admissible image size ≡ false
      → check_image s image size ≡ none
      → fill_crc crc32_le image size ≡ none
  unfolding admissible fill_crc check_image
  inadmissible s image size h k = ground arith
