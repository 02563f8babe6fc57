-- ===== src/Setup/History.antt =====
-- The store as a client sees it: one configuration, the last that was let through. Every history of
-- saves on a chip that does not fail refines it.
use mstd.Prelude.{
  ℕ, ◌^◌, ◌≤◌, ◌<◌, ◌≡◌, ◌≢◌, inl, inr, true, false, Option, none, some, List, [], ◌∷◌, Memory,
  IsBytes, window, Bool-cases, Option-cases,
}
use mstd.Setup.Flash.{Flash}
use mstd.Setup.Scan.{max_cfg_size, size_offset, sizeof_config, no_crc, eval_crc}
use mstd.Setup.Save.{Setup, at_reset, check_image, save_config_image, load_config}
use mstd.Setup.Boot.{IsReady}
use mstd.Setup.RoundTrip.{
  save_config_image-HasSaved, save_config_image-refused, save_config_image-wrong,
}
use mstd.Setup.Restart.{IsActive, load_config-save_config_image, saved-IsReady}
use mstd.Setup.Kept.{
  sealed, window-sealed, admissible, keep, keep_all, admissible-IsChecked, inadmissible,
}
use mstd.Setup.Success.{save_config_image-IsChecked}

module _ (crc32_le : ℕ → List ℕ → ℕ) where
  module _ (flash : Flash) where
    open flash use {Chip, read_ok, erase_range, write}

    -- A chip on which no call fails.
    pub record IsReliable : Type 0 where
      pub reads : (c : Chip) → read_ok c ≡ true
      pub erases : (c : Chip) → (erase_range c 0 max_cfg_size).0 ≡ true
      pub writes : (c : Chip) (a : ℕ) (bs : List ℕ) → (write c a bs).0 ≡ true

    -- save_config_image called for one image after another.
    unfoldable pub save_all : Setup → Chip → List (Memory × ℕ) → Setup × Chip
    save_all s c [] = (s, c)
    save_all s c ((image, size) ∷ saves) =
        let r = save_config_image crc32_le flash s c image size in save_all r.setup r.chip saves

    -- What a restart makes of the chip: the kept configuration is the active one.
    pub data Holds (c : Chip) : Option (List ℕ) → Type 0 where
      nothing : Holds c none
      holds :
          (image : Memory) (size : ℕ) {bytes : List ℕ}
          → window image 0 size ≡ bytes
          → ((before : Memory)
              → (s : Setup) × (load_config crc32_le flash (at_reset before) c ≡ some s)
                × IsActive s image size)
          → Holds c (some bytes)

    -- The detailed store and the abstract one.
    pub record Refines (s : Setup) (c : Chip) (kept : Option (List ℕ)) : Type 0 where
      pub ready : IsReady crc32_le flash s c
      pub contents : Holds c kept

    abbrev pub AllSavable : List (Memory × ℕ) → Type 0
    AllSavable [] = Unit {0}
    AllSavable ((image, size) ∷ saves) =
        (IsBytes image × (eval_crc crc32_le image size_offset size ≢ no_crc)) × AllSavable saves

    -- What a save leaves that has returned NULL.
    pub saved-Refines :
        (crc_range : (bs : List ℕ) → crc32_le 0 bs < 2 ^ 32) (s : Setup) (c : Chip) (image : Memory)
        (size : ℕ)
        → IsReady crc32_le flash s c
        → IsBytes image
        → eval_crc crc32_le image size_offset size ≢ no_crc
        → sizeof_config ≤ size
        → let r = save_config_image crc32_le flash s c image size in
          r.error ≡ none
          → read_ok r.chip ≡ true
          → Refines r.setup r.chip (some (sealed crc32_le image size))
    saved-Refines crc_range s c image size ready b nc large e ok =
        let r = save_config_image crc32_le flash s c image size in
        let saved =
          save_config_image-HasSaved crc32_le flash crc_range s c image size ready b nc e in
        record {
          ready = saved-IsReady crc32_le flash crc_range s c image size ready b nc e;
          contents =
              holds r.image size (window-sealed crc32_le crc_range image size large saved.filled)
                (λ before.
                  load_config-save_config_image crc32_le flash crc_range s c image size before ready
                    b nc e ok);
        }

    pub save-same :
        (s : Setup) (c : Chip) (image : Memory) (size : ℕ) (kept : Option (List ℕ))
        → Refines s c kept
        → admissible crc32_le image size ≡ false
        → let r = save_config_image crc32_le flash s c image size in Refines r.setup r.chip kept
    save-same s c image size kept h a = elim (Option-cases (check_image s image size)) [
      | inr (x, k) ↦ rw (save_config_image-refused crc32_le flash s c image size k) h
      | inl k ↦
          rw
            (save_config_image-wrong crc32_le flash s c image size k
              (inadmissible crc32_le s image size a k))
            h
    ]

    module _ (crc_range : (bs : List ℕ) → crc32_le 0 bs < 2 ^ 32) (reliable : IsReliable) where
      save-sealed :
          (s : Setup) (c : Chip) (image : Memory) (size : ℕ)
          → IsReady crc32_le flash s c
          → IsBytes image
          → eval_crc crc32_le image size_offset size ≢ no_crc
          → admissible crc32_le image size ≡ true
          → let r = save_config_image crc32_le flash s c image size in
            Refines r.setup r.chip (some (sealed crc32_le image size))
      save-sealed s c image size ready b nc a =
          let checked = admissible-IsChecked crc32_le s image size ready.partition a in
          let r = save_config_image crc32_le flash s c image size in
          saved-Refines crc_range s c image size ready b nc checked.0.large
            (save_config_image-IsChecked crc32_le flash s c image size checked.0 checked.1
              (reliable.erases c) reliable.writes)
            (reliable.reads r.chip)

      -- Over any history of saves, each of an image of bytes whose checksum is not the mark of a
      -- free slot, the store refines the abstract one: an image that is not admissible changes
      -- nothing, and after the last admissible one a restart finds it, its checksum filled in. The
      -- chip does not fail, and checksums have 32 bits.
      pub save_all-Refines :
          (s : Setup) (c : Chip) (kept : Option (List ℕ)) (saves : List (Memory × ℕ))
          → Refines s c kept
          → AllSavable saves
          → let r = save_all s c saves in Refines r.0 r.1 (keep_all crc32_le kept saves)
      unfolding save_all keep_all keep
      save_all-Refines s c kept [] h a = h
      save_all-Refines s c kept ((image, size) ∷ saves) h a =
          let r = save_config_image crc32_le flash s c image size in
          elim (Bool-cases (admissible crc32_le image size)) [
            | inl b ↦ rw b (
                save_all-Refines r.setup r.chip (some (sealed crc32_le image size)) saves
                  (save-sealed s c image size h.ready a.0.0 a.0.1 b) a.1)
            | inr b ↦
                rw b (
                  save_all-Refines r.setup r.chip kept saves (save-same s c image size kept h b)
                    a.1)
          ]
