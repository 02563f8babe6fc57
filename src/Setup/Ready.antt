-- ===== src/Setup/Ready.antt =====
-- The invariant of the store under save_config_image, on every way out of it.
use mathlib.Core.Path.{subst}
use mstd.Prelude.{
  ℕ, ◌^◌, ◌<◌, ◌≡◌, refl, sym, ◌∙◌, ◌≢◌, inl, inr, Option, none, some, List, Memory, IsBytes,
  window, ltb, arith, Bool-cases, Option-cases, add_size,
}
use mstd.Setup.Flash.{Flash}
use mstd.Setup.Scan.{max_cfg_size, size_offset, no_crc, eval_crc}
use mstd.Setup.Shift.{IsShift}
use mstd.Setup.Save.{
  Setup, Saved, SaveError, cannot_erase, check_image, fill_crc, write_image, erase_and_write,
  store_image, save_config_image,
}
use mstd.Setup.Boot.{IsReady}
use mstd.Setup.RoundTrip.{
  save_config_image-refused, store_image-erases, store_image-full, save_config_image-store,
  save_config_image-wrong, store_image-writes,
}
use mstd.Setup.Restart.{saved-IsReady}

module _ (crc32_le : ℕ → List ℕ → ℕ) (flash : Flash) where
  open flash use {
    Chip, contents, read_ok, find_first, erase_range, write, find_first-write, find_first-erase,
  }

  -- What a call that returns an error may have changed.
  data Failure (s : Setup) (c : Chip) (r : Saved Chip) : Type 0 where
    refused : r.setup ≡ s → r.chip ≡ c → Failure s c r
    broken :
        r.setup.next_cfg_shift ≡ none
        → r.setup.cfg_pat ≡ s.cfg_pat
        → find_first r.chip ≡ find_first c
        → Failure s c r
    not_erased : r.error ≡ some cannot_erase → Failure s c r

  write_image-Failure :
      (s : Setup) (c : Chip) (image : Memory) (size n : ℕ) {e : SaveError}
      → (write_image crc32_le flash s c image size n).error ≡ some e
      → let r = write_image crc32_le flash s c image size n in
        (r.setup.next_cfg_shift ≡ none)
        × (r.setup.cfg_pat ≡ s.cfg_pat)
        × (find_first r.chip ≡ find_first c)
  unfolding write_image
  write_image-Failure s c image size n h =
      ground (arith, find_first-write c n (window image 0 size))

  erase_and_write-Failure :
      (s : Setup) (c : Chip) (image : Memory) (size : ℕ) {e : SaveError}
      → (erase_and_write crc32_le flash s c image size).error ≡ some e
      → Failure s c (erase_and_write crc32_le flash s c image size)
  unfolding erase_and_write
  erase_and_write-Failure s c image size h = elim (Bool-cases (erase_range c 0 max_cfg_size).0) [
    | inr x ↦ not_erased (rw x)
    | inl x ↦
        let w = write_image-Failure _ (erase_range c 0 max_cfg_size).1 image size 0 (rw x at h) in
        rw x (broken w.0 w.1 (w.2 ∙ find_first-erase c 0 max_cfg_size))
  ]

  store_image-Failure :
      (s : Setup) (c : Chip) (image : Memory) (size : ℕ) (shift : Option ℕ) {e : SaveError}
      → s.next_cfg_shift ≡ shift
      → (store_image crc32_le flash s c image size).error ≡ some e
      → Failure s c (store_image crc32_le flash s c image size)
  store_image-Failure s c image size none q h =
      let t = store_image-erases crc32_le flash s c image size q in
      rw t (erase_and_write-Failure s c image size (rw t at h))
  store_image-Failure s c image size (some n) q h =
      elim (Bool-cases (ltb max_cfg_size (add_size n size))) [
        | inl x ↦
            let t = store_image-full crc32_le flash s c image size n q x in
            rw t (erase_and_write-Failure s c image size (rw t at h))
        | inr x ↦
            let t = store_image-writes crc32_le flash s c image size n q x in
            let w = write_image-Failure s c image size n (rw t at h) in rw t (broken w.0 w.1 w.2)
      ]

  save_config_image-Failure :
      (s : Setup) (c : Chip) (image : Memory) (size : ℕ) {e : SaveError}
      → (save_config_image crc32_le flash s c image size).error ≡ some e
      → Failure s c (save_config_image crc32_le flash s c image size)
  save_config_image-Failure s c image size h = elim (Option-cases (check_image s image size)) [
    | inr (x, k) ↦
        let t = save_config_image-refused crc32_le flash s c image size k in
        rw t (refused refl refl)
    | inl k ↦ elim (Option-cases (fill_crc crc32_le image size)) [
      | inl l ↦
          let t = save_config_image-wrong crc32_le flash s c image size k l in
          rw t (refused refl refl)
      | inr (image', l) ↦
          let t = save_config_image-store crc32_le flash s c image size k l in
          rw t (store_image-Failure s c image' size s.next_cfg_shift refl (rw t at h))
    ]
  ]

  Failure-IsReady :
      (s : Setup) (c : Chip) (r : Saved Chip)
      → IsReady crc32_le flash s c
      → r.error ≢ some cannot_erase
      → Failure s c r
      → IsReady crc32_le flash r.setup r.chip
  Failure-IsReady s c r ready ne (refused e f) =
      subst (λ x. IsReady crc32_le flash x r.chip) (sym e)
        (subst (IsReady crc32_le flash s) (sym f) ready)
  Failure-IsReady s c r ready ne (broken e f g) = record {
    partition = f ∙ ready.partition;
    present = g ∙ ready.present;
    shift = subst (IsShift crc32_le (contents r.chip)) (sym e) tt;
  }
  Failure-IsReady s c r ready ne (not_erased e) = absurd (ne e)

  -- Every call of save_config_image on a ready store keeps it ready, whatever it returns, but one
  -- that could not erase the partition; the image is bytes, and its checksum of 32 bits is not the
  -- mark of a free slot.
  pub save_config_image-IsReady :
      (crc_range : (bs : List ℕ) → crc32_le 0 bs < 2 ^ 32) (s : Setup) (c : Chip) (image : Memory)
      (size : ℕ)
      → IsReady crc32_le flash s c
      → IsBytes image
      → eval_crc crc32_le image size_offset size ≢ no_crc
      → (save_config_image crc32_le flash s c image size).error ≢ some cannot_erase
      → let r = save_config_image crc32_le flash s c image size in
        IsReady crc32_le flash r.setup r.chip
  save_config_image-IsReady range s c image size ready b nc ne =
      elim (Option-cases (save_config_image crc32_le flash s c image size).error) [
        | inl e ↦ saved-IsReady crc32_le flash range s c image size ready b nc e
        | inr (x, e) ↦ Failure-IsReady s c _ ready ne (save_config_image-Failure s c image size e)
      ]
