-- ===== src/Tests/Checksum.antt =====
-- Runs of the checksum.
use mstd.Prelude.{
  ℕ, ◌^◌, ◌<◌, ◌≡◌, refl, List, ◌∷◌, some, replicate, codes, Memory, IsBytes, buffer_of,
  buffer_of-IsBytes, window, ◌==◌, if◌then◌else◌, Bool-cases, inl, inr, arith,
}
use mstd.Setup.Scan.{unlocated, eval_crc}
use mstd.Setup.Walk.{find_active_config_total}
use mstd.Setup.Sound.{IsRecord}
use mstd.Setup.Corrupt.{DiffersAt, find_active_config-corrupted}
use mstd.Crc.Table.{complement, crc_bytes, crc32_le}
use mstd.Crc.Polynomial.{checksum}
use mstd.Crc.Agree.{crc32_le-checksum}
use mstd.Tests.Data.{all_bytes-AllBytes}

-- The check value of this CRC.
check_value : crc32_le 0 (codes "123456789") ≡ 0xcbf43926
unfolding crc32_le crc_bytes
check_value = refl

crc32_le-checksum_example :
    (crc32_le 0 (codes "123456789") ≡ checksum 0 (codes "123456789"))
    × (crc_bytes (complement 0) (codes "123456789") < 2 ^ 32)
crc32_le-checksum_example =
    crc32_le-checksum 0 (codes "123456789") (omega arith)
      (all_bytes-AllBytes (codes "123456789") refl)

-- A partition with a record of 108 bytes, and the same with one byte changed.
abbrev pub record_bytes : List ℕ
record_bytes = 231 ∷ 13 ∷ 99 ∷ 151 ∷ 26 ∷ 0 ∷ 0 ∷ replicate 101 1

abbrev pub whole : Memory
whole = buffer_of record_bytes 0xff

abbrev damaged : Memory
damaged i = if i == 50 then 2 else whole i

pub whole-IsBytes : IsBytes whole
whole-IsBytes = buffer_of-IsBytes record_bytes (all_bytes-AllBytes record_bytes refl)

damaged-IsBytes : IsBytes damaged
damaged-IsBytes i = elim (Bool-cases (i == 50)) [
  | inl b ↦ rw b (omega arith)
  | inr b ↦ rw b (whole-IsBytes i)
]

damaged-DiffersAt : DiffersAt whole damaged 50
damaged-DiffersAt = record { changed = omega arith; same = λ j n. ground arith }

whole-IsRecord : IsRecord crc32_le whole 0 108
unfolding crc32_le crc_bytes eval_crc window
whole-IsRecord = record {
  aligned = omega arith;
  whole_field = omega arith;
  length_field = refl;
  inside = omega arith;
  not_free = omega arith;
  checked = refl;
}

find_active_config-corrupted_example :
    let r = (find_active_config_total crc32_le damaged unlocated).0 in
    ¬ ((r.config ≡ some 0) × (r.cfg_size ≡ 108))
find_active_config-corrupted_example =
    find_active_config-corrupted whole damaged 0 108 50 whole-IsBytes damaged-IsBytes
      damaged-DiffersAt (omega arith) (omega arith) whole-IsRecord
      (find_active_config_total crc32_le damaged unlocated).1
