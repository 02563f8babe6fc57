-- ===== src/Setup/Outages.antt =====
-- The store through saves that may fail and restarts: what a client that sees one configuration may
-- expect, and that every run of the code is one that it expects.
use mstd.Prelude.{
  ℕ, ◌≤◌, ◌<◌, ◌≡◌, ◌≢◌, Bool, true, false, Option, none, some, List, [], ◌∷◌, ◌++◌, Memory,
  IsBytes, window, get_or,
}
use mstd.Setup.Flash.{Flash}
use mstd.Setup.Scan.{size_offset, crc_field, no_crc, eval_crc}
use mstd.Setup.Agree.{IsFree}
use mstd.Setup.Save.{Setup, at_reset, SaveError, cannot_write, load_config, save_config_image}
use mstd.Setup.Kept.{sealed, admissible}
use mstd.Setup.Broken.{erases}

-- A save of an image, with whether it erases the partition and what it returns; and a restart.
pub data Event : Type 0 where
  save : Memory → ℕ → Bool → Option SaveError → Event
  restart : Event

module _ (crc32_le : ℕ → List ℕ → ℕ) where
  -- The first bytes of a configuration and erased cells behind them, with the right checksum all the
  -- same; all its bytes, if none is left out.
  pub record IsLate (whole bytes : List ℕ) (size : ℕ) : Type 0 where
    pub m : Memory
    pub cut : ℕ
    pub window_at : window m 0 size ≡ bytes
    pub first : (k : ℕ) → k < cut → m k ≡ get_or whole k 0
    pub erased : (k : ℕ) → cut ≤ k → k < size → m k ≡ 0xff
    pub partial : cut ≤ size
    pub checked : crc_field m 0 ≡ eval_crc crc32_le m size_offset size

  -- What becomes of the configuration that is kept. A save that fails loses it only if it erases.
  pub data Keeps (kept : Option (List ℕ)) : Event → Option (List ℕ) → Type 0 where
    restarted : Keeps kept restart kept
    refused :
        (image : Memory) (size : ℕ) (b : Bool) (e : SaveError)
        → admissible crc32_le image size ≡ false
        → Keeps kept (save image size b (some e)) kept
    saved :
        (image : Memory) (size : ℕ) (b : Bool)
        → admissible crc32_le image size ≡ true
        → Keeps kept (save image size b none) (some (sealed crc32_le image size))
    survived :
        (image : Memory) (size : ℕ)
        → admissible crc32_le image size ≡ true
        → Keeps kept (save image size false (some cannot_write)) kept
    lost :
        (image : Memory) (size : ℕ)
        → admissible crc32_le image size ≡ true
        → Keeps kept (save image size true (some cannot_write)) none
    late :
        (image : Memory) (size : ℕ) (b : Bool) (bytes : List ℕ)
        → admissible crc32_le image size ≡ true
        → IsLate (sealed crc32_le image size) bytes size
        → Keeps kept (save image size b (some cannot_write)) (some bytes)

  pub data KeepsAll : Option (List ℕ) → List Event → Option (List ℕ) → Type 0 where
    keeps_none : {kept : Option (List ℕ)} → KeepsAll kept [] kept
    keeps_next :
        {event : Event} {events : List Event} {kept k k' : Option (List ℕ)}
        → Keeps kept event k
        → KeepsAll k events k'
        → KeepsAll kept (event ∷ events) k'

  module _ (flash : Flash) where
    open flash use {Chip, contents, read_ok, find_first, erase_range}

    -- The code: a save of an image of bytes whose checksum is not the mark of a free slot, and a
    -- restart after which the shift 0 stands for an erased partition.
    pub data Step (s : Setup) (c : Chip) : Event → Setup → Chip → Type 0 where
      saves :
          (image : Memory) (size : ℕ)
          → IsBytes image
          → eval_crc crc32_le image size_offset size ≢ no_crc
          → Step s c
              (save image size
                (erases s size)
                (save_config_image crc32_le flash s c image size).error)
              (save_config_image crc32_le flash s c image size).setup
              (save_config_image crc32_le flash s c image size).chip
      restarts :
          (before : Memory) {s' : Setup}
          → load_config crc32_le flash (at_reset before) c ≡ some s'
          → (s'.next_cfg_shift ≡ some 0 → IsFree (contents c) 0)
          → Step s c restart s' c

    pub data Run : Setup → Chip → List Event → Setup → Chip → Type 0 where
      stops : {s : Setup} {c : Chip} → Run s c [] s c
      goes :
          {event : Event} {events : List Event} {s s' s'' : Setup} {c c' c'' : Chip}
          → Step s c event s' c'
          → Run s' c' events s'' c''
          → Run s c (event ∷ events) s'' c''

    pub Run-append :
        {s : Setup} {c : Chip} {es : List Event} {s' : Setup} {c' : Chip} {es' : List Event}
        {s'' : Setup} {c'' : Chip}
        → Run s c es s' c'
        → Run s' c' es' s'' c''
        → Run s c (es ++ es') s'' c''
    Run-append stops r = r
    Run-append (goes t r) r' = goes t (Run-append r r')
