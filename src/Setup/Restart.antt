-- ===== src/Setup/Restart.antt =====
-- load_config after a restart: it finds what the last save wrote, and establishes the invariant of
-- the store; every save keeps the invariant.
use mathlib.Core.Path.{subst}
use mstd.Prelude.{
  ℕ, ◌+◌, ◌^◌, ◌≤◌, ◌<◌, ◌≡◌, refl, sym, ap, ◌∙◌, ◌≢◌, true, none, some, List, Memory, IsBytes,
  window, window_shift, overlay, arith,
}
use mstd.Setup.Flash.{Flash}
use mstd.Setup.Scan.{
  Located, unlocated, max_cfg_size, size_offset, no_crc, eval_crc, find_active_config,
}
use mstd.Setup.Shift.{IsShift}
use mstd.Setup.Save.{Setup, at_reset, Saved, load_config, save_config_image}
use mstd.Setup.Append.{IsImage, IsWritten, find_active_config-written, written-IsEnd}
use mstd.Setup.Boot.{loaded-same, IsReady, IsStored}
use mstd.Setup.RoundTrip.{save_config_image-HasSaved}

-- The globals hold the image as the active configuration.
pub record IsActive (s : Setup) (image : Memory) (size : ℕ) : Type 0 where
  pub config : ℕ
  pub located : s.config ≡ some config
  pub cfg_size : s.cfg_size ≡ size
  pub inside : config + size ≤ max_cfg_size
  pub bytes : window s.cfg_full config size ≡ window image 0 size
  pub loaded : s.cfg_full_loaded ≡ true

IsWritten-loaded :
    {m m' image : Memory} {n size : ℕ} (after : Memory)
    → IsWritten m m' image n size
    → ((i : ℕ) → i < max_cfg_size → after i ≡ m' i)
    → IsWritten m after image n size
IsWritten-loaded {n = n} after w same =
    let room = w.room in
    record {
      before = λ i lo hi. w.before i lo hi ∙ sym (same i (omega arith));
      stored = λ k h. same (n + k) (omega arith) ∙ w.stored k h;
      behind = λ i lo hi. same i hi ∙ w.behind i lo hi;
      room = room;
    }

module _ (crc32_le : ℕ → List ℕ → ℕ) (flash : Flash) where
  open flash use {Chip, contents, read_ok, find_first}

  -- What load_config leaves, where the partition is found and read.
  pub load_config-reads :
      (before : Memory) (c : Chip) {g : Located}
      → find_first c ≡ true
      → read_ok c ≡ true
      → find_active_config crc32_le
          (overlay before 0 (window (contents c) 0 max_cfg_size))
          unlocated
        ≡ some g
      → load_config crc32_le flash (at_reset before) c
        ≡ some (record {
          located = g;
          cfg_full = overlay before 0 (window (contents c) 0 max_cfg_size);
          cfg_full_loaded = true;
          cfg_pat = true;
        })
  unfolding load_config
  load_config-reads before c f r e = ground (arith, f, r, e)

  pub boot-IsStored :
      (before : Memory) (image : Memory) (size : ℕ) (r : Saved Chip)
      → IsImage crc32_le image size
      → IsStored crc32_le flash image size r
      → read_ok r.chip ≡ true
      → (s : Setup) × (load_config crc32_le flash (at_reset before) r.chip ≡ some s)
        × IsActive s image size
  boot-IsStored before image size r valid st ok =
      let loaded = overlay before 0 (window (contents r.chip) 0 max_cfg_size) in
      let w = IsWritten-loaded loaded st.written (loaded-same before (contents r.chip)) in
      let found =
        find_active_config-written crc32_le st.base loaded image st.n size st.end valid w in
      (
        _,
        load_config-reads before r.chip st.present ok found.1,
        record {
          config = st.n;
          located = found.2;
          cfg_size = found.3;
          inside = w.room;
          bytes =
              window_shift loaded image st.n 0 size (λ k h. w.stored k h ∙ ap image (omega arith));
          loaded = refl;
        },
      )

  module _ (crc_range : (bs : List ℕ) → crc32_le 0 bs < 2 ^ 32) where
    -- A save that returns NULL is found after a restart: if the store is ready, the image's
    -- checksum is not the mark of a free slot and the partition can be read, load_config makes the
    -- saved image, bytes with a checksum of 32 bits, the active configuration.
    pub load_config-save_config_image :
        (s : Setup) (c : Chip) (image : Memory) (size : ℕ) (before : Memory)
        → IsReady crc32_le flash s c
        → IsBytes image
        → eval_crc crc32_le image size_offset size ≢ no_crc
        → (save_config_image crc32_le flash s c image size).error ≡ none
        → read_ok (save_config_image crc32_le flash s c image size).chip ≡ true
        → let r = save_config_image crc32_le flash s c image size in
          (s' : Setup) × (load_config crc32_le flash (at_reset before) r.chip ≡ some s')
          × IsActive s' r.image size
    load_config-save_config_image s c image size before ready b ne e ok =
        let h = save_config_image-HasSaved crc32_le flash crc_range s c image size ready b ne e in
        boot-IsStored before _ size _ h.valid h.stored ok

    pub saved-IsReady :
        (s : Setup) (c : Chip) (image : Memory) (size : ℕ)
        → IsReady crc32_le flash s c
        → IsBytes image
        → eval_crc crc32_le image size_offset size ≢ no_crc
        → (save_config_image crc32_le flash s c image size).error ≡ none
        → let r = save_config_image crc32_le flash s c image size in
          IsReady crc32_le flash r.setup r.chip
    saved-IsReady s c image size ready b ne e =
        let h = save_config_image-HasSaved crc32_le flash crc_range s c image size ready b ne e in
        let st = h.stored in
        record {
          partition = st.partition;
          present = st.present;
          shift =
              subst
                (IsShift crc32_le (contents (save_config_image crc32_le flash s c image size).chip))
                (sym st.shift)
                (written-IsEnd crc32_le st.base _ _ st.n size st.end h.valid st.written);
        }
