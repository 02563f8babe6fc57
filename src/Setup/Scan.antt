-- ===== src/Setup/Scan.antt =====
-- find_active_config of soft/bootloader/main/setup_data.cpp and the record layout of setup_data.h.
-- An address is an offset from the start of cfg_full. The record header is read in place, also
-- where it lies past the end of the image, so a memory gives a byte at every address.
use mstd.Prelude.{
  ℕ, zero, suc, ◌+◌, ◌-◌, ◌*◌, ◌/◌, ◌%◌, Bool, true, false, Option, none, some, List, Memory,
  window, read_u16, read_u32, ltb, leb, ◌==◌, if◌then◌else◌,
}

abbrev pub max_cfg_size : ℕ
max_cfg_size = 4096

-- struct Config_V0: offsets of the fields that the code names, and sizeof.
abbrev pub size_offset : ℕ
size_offset = 4

abbrev pub ssid_offset : ℕ
ssid_offset = 7

abbrev pub passwd_offset : ℕ
passwd_offset = 40

abbrev pub sizeof_config : ℕ
sizeof_config = 108

-- sizeof(config), where config is a pointer.
abbrev pub sizeof_pointer : ℕ
sizeof_pointer = 4

abbrev pub crc_field : Memory → ℕ → ℕ
crc_field m p = read_u32 m p

abbrev pub size_field : Memory → ℕ → ℕ
size_field m p = read_u16 m (p + size_offset)

-- The number -1 as the uint32_t that a checksum is compared with.
abbrev pub no_crc : ℕ
no_crc = 0xffff_ffff

-- (C.size & 0x3FF) * 4 + 4
abbrev pub record_size : ℕ → ℕ
record_size size = size % 1024 * 4 + 4

-- The globals that find_active_config assigns. A config is the offset of the record in cfg_full;
-- the shift `none` is -1.
pub record Located : Type 0 where
  pub config : Option ℕ
  pub cfg_size : ℕ
  pub next_cfg_shift : Option ℕ

-- Their values when the program starts.
abbrev pub unlocated : Located
unlocated = record { config = none; cfg_size = 0; next_cfg_shift = some 0 }

-- The loop of check_for_free_bytes with n bytes left.
unfoldable pub all_free : ℕ → Memory → ℕ → Bool
all_free zero m p = true
all_free (suc n) m p = if m p == 0xff then all_free n m (p + 1) else false

unfoldable pub check_for_free_bytes : Memory → ℕ → ℕ → Bool
check_for_free_bytes m p end = all_free (end - p) m p

-- What one round of the loop does: leave it, or go on at another address.
pub data Round : Type 0 where
  stop : Located → Round
  advance : ℕ → Located → Round

-- A round moves on by four bytes or more, so 1025 rounds are enough.
abbrev pub scan_fuel : ℕ
scan_fuel = 1025

module _ (crc32_le : ℕ → List ℕ → ℕ) where
  unfoldable pub eval_crc : Memory → ℕ → ℕ → ℕ
  eval_crc m start end = crc32_le 0 (window m start (end - start))

  -- The tests on a record that lies inside the partition.
  unfoldable pub accept : Memory → ℕ → ℕ → Located → Located
  accept m p sz g =
      if crc_field m p == eval_crc m (p + size_offset) (p + sz)
      then (if leb sizeof_pointer sz then record g { config = some p; cfg_size = sz } else g)
      else g

  unfoldable pub scan_round : Memory → ℕ → Located → Round
  scan_round m p g =
      if crc_field m p == no_crc
      then stop (record g {
        next_cfg_shift = if check_for_free_bytes m p max_cfg_size then some p else none;
      })
      else if size_field m p / 256 == 0xff
      then advance ((p + size_offset + 4) / 4 * 4) g
      else (let sz = record_size (size_field m p) in
          if ltb max_cfg_size (p + sz) then stop g else advance (p + sz) (accept m p sz g))

  -- The loop with fuel; `none` means that the fuel ran out.
  unfoldable pub scan_from : ℕ → Memory → ℕ → Located → Option Located
  scan_from zero m p g = none
  scan_from (suc fuel) m p g = elim (ltb p max_cfg_size) [
    | false ↦ some g
    | true ↦ elim (scan_round m p g) [ stop g' ↦ some g' | advance p' g' ↦ scan_from fuel m p' g' ]
  ]

  unfoldable pub find_active_config : Memory → Located → Option Located
  find_active_config m g = scan_from scan_fuel m 0 g
