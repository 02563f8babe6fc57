-- ===== src/Setup/Flash.antt =====
-- The flash partition as the setup code calls it (esp_partition_*): states of the chip and four
-- calls, with the behaviour that their documentation promises as laws.
use mstd.Prelude.{ℕ, ◌+◌, ◌≤◌, ◌<◌, ◌≡◌, Bool, true, List, Memory, IsBytes, length, get_or}

pub record Flash : Type 1 where
  pub Chip : Type 0
  -- what a read returns at each address of the partition, and whether the call succeeds
  pub contents : Chip → Memory
  pub read_ok : Chip → Bool
  -- esp_partition_find_first finds the partition
  pub find_first : Chip → Bool
  -- esp_partition_erase_range(offset, size): ESP_OK, and the new state
  pub erase_range : Chip → ℕ → ℕ → Bool × Chip
  -- esp_partition_write(offset, bytes)
  pub write : Chip → ℕ → List ℕ → Bool × Chip
  pub contents_bytes : (c : Chip) → IsBytes (contents c)
  -- a successful erase sets the range to 0xFF and leaves the rest
  pub erase_inside :
      (c : Chip) (a n i : ℕ)
      → (erase_range c a n).0 ≡ true
      → a ≤ i
      → i < a + n
      → contents (erase_range c a n).1 i ≡ 0xff
  -- a successful write into erased cells stores the bytes
  pub write_inside :
      (c : Chip) (a : ℕ) (bs : List ℕ) (k : ℕ)
      → (write c a bs).0 ≡ true
      → k < length bs
      → get_or bs k 0 < 256
      → contents c (a + k) ≡ 0xff
      → contents (write c a bs).1 (a + k) ≡ get_or bs k 0
  -- and leaves the cells outside of its range
  pub write_below :
      (c : Chip) (a : ℕ) (bs : List ℕ) (i : ℕ)
      → (write c a bs).0 ≡ true
      → i < a
      → contents (write c a bs).1 i ≡ contents c i
  pub write_above :
      (c : Chip) (a : ℕ) (bs : List ℕ) (i : ℕ)
      → (write c a bs).0 ≡ true
      → a + length bs ≤ i
      → contents (write c a bs).1 i ≡ contents c i
  -- the partition table is not part of the partition
  pub find_first-write :
      (c : Chip) (a : ℕ) (bs : List ℕ) → find_first (write c a bs).1 ≡ find_first c
  pub find_first-erase : (c : Chip) (a n : ℕ) → find_first (erase_range c a n).1 ≡ find_first c
