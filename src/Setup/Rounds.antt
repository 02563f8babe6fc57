-- ===== src/Setup/Rounds.antt =====
-- One round of find_active_config: where it goes, and what it reads.
use mstd.Prelude.{
  ℕ, ◌+◌, ◌*◌, ◌/◌, ◌%◌, ◌≤◌, ◌≡◌, ◌≢◌, inl, inr, List, Memory, ◌==◌, arith, Bool-cases, ==→eq,
}
use mstd.Setup.Scan.{
  Located, advance, max_cfg_size, size_offset, crc_field, size_field, no_crc, record_size, accept,
  scan_round,
}

-- A round that goes on skips a half-written header, or passes a record inside the partition.
pub data Passes (crc32_le : ℕ → List ℕ → ℕ) (m : Memory) (p : ℕ) (g : Located) (p' : ℕ)
    (g' : Located) : Type 0 where
  skips :
      size_field m p / 256 ≡ 0xff
      → p' ≡ (p + size_offset + 4) / 4 * 4
      → g' ≡ g
      → Passes crc32_le m p g p' g'
  records :
      size_field m p / 256 ≢ 0xff
      → p' ≡ p + record_size (size_field m p)
      → p' ≤ max_cfg_size
      → g' ≡ accept crc32_le m p (record_size (size_field m p)) g
      → Passes crc32_le m p g p' g'

module _ (crc32_le : ℕ → List ℕ → ℕ) where
  pub round-crc :
      (m : Memory) (p : ℕ) (g : Located) {p' : ℕ} {g' : Located}
      → scan_round crc32_le m p g ≡ advance p' g'
      → crc_field m p ≢ no_crc
  unfolding scan_round
  round-crc m p g e = ground arith

  pub round-Passes :
      (m : Memory) (p : ℕ) (g : Located) {p' : ℕ} {g' : Located}
      → scan_round crc32_le m p g ≡ advance p' g'
      → Passes crc32_le m p g p' g'
  unfolding scan_round
  round-Passes m p g {p'} {g'} e = elim (Bool-cases (crc_field m p == no_crc)) [
    | inl c ↦ absurd (ground arith)
    | inr c ↦ elim (Bool-cases (size_field m p / 256 == 0xff)) [
      | inl s ↦ skips (==→eq _ _ s) (ground arith) (ground arith)
      | inr s ↦ records (ground arith) (ground arith) (ground arith) (ground arith)
    ]
  ]

  pub Passes-round :
      (m : Memory) (p : ℕ) (g : Located) {p' : ℕ} {g' : Located}
      → crc_field m p ≢ no_crc
      → Passes crc32_le m p g p' g'
      → scan_round crc32_le m p g ≡ advance p' g'
  unfolding scan_round
  Passes-round m p g c (skips s e h) = ground arith
  Passes-round m p g c (records s e le h) = ground arith

  -- Every round moves on by a multiple of four, at least four.
  pub Passes-grows :
      (m : Memory) (p : ℕ) (g : Located) {p' : ℕ} {g' : Located}
      → p % 4 ≡ 0
      → Passes crc32_le m p g p' g'
      → (p + 4 ≤ p') × (p' % 4 ≡ 0)
  Passes-grows m p g a (skips s e h) = omega arith
  Passes-grows m p g a (records s e le h) = omega arith
